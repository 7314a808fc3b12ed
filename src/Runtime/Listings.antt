-- ===== src/Runtime/Listings.antt =====
-- internal/agentruntime/runtime.go: the replies that list skills, tools and MCP servers.
use nisix.Common.{Option, none, some, List, [], ◌∷◌, ◌++◌, if◌then◌else◌, is_nil, length}
use nisix.Common.Text.{Text, codes, trim_space, join}
use nisix.Common.Decimal.{itoa}
use nisix.ToolPolicy.{Policy, allowed}
use nisix.Tools.Registry.{Metadata, Registry, catalog}
use nisix.Skills.{Skill}
use nisix.Skills.Loading.{SkillService, load_all, loaded_skills}
use nisix.Runtime.Services.{ServerStatus, ToolMapping, McpInspector, Outside}

abbrev described : Text → Text → Text
described line desc = if is_nil desc then line else line ++ codes " - " ++ desc

abbrev skill_status : Skill → Text
skill_status sk =
    if sk.enabled
    then codes "enabled"
    else if is_nil (trim_space sk.reason)
    then codes "disabled"
    else codes "disabled (" ++ sk.reason ++ codes ")"

unfoldable pub skill_lines : List Skill → List Text
skill_lines [] = []
skill_lines (sk ∷ loaded) =
    described (codes "- " ++ sk.name ++ codes " [" ++ skill_status sk ++ codes "]")
      (trim_space sk.description)
    ∷ skill_lines loaded

abbrev skills_text : List Skill → Text
skills_text [] = codes "no skills found"
skills_text (sk ∷ loaded) = join (codes "\n") (codes "skills:" ∷ skill_lines (sk ∷ loaded))

abbrev skills_reply : Option (List Skill) → Text → Text
skills_reply none err = codes "skills list failed: " ++ err
skills_reply (some loaded) err = skills_text loaded

-- listSkills, with the service that it leaves
unfoldable pub list_skills : Text → Outside → Option SkillService → Option SkillService × Text
list_skills workspace_dir o none = (none, codes "skills service unavailable")
list_skills workspace_dir o (some s) =
    if is_nil (trim_space workspace_dir)
    then (some s, skills_text (loaded_skills s))
    else (let (s', loaded) = load_all s o.skills_root o.listing in
        (some s', skills_reply loaded o.list_error))

unfoldable pub tool_lines : Policy → List Metadata → List Text
tool_lines policy [] = []
tool_lines policy (tool ∷ tools) =
    described
      (codes "- "
        ++ tool.name
        ++ codes " ["
        ++ (if allowed policy tool.name then codes "allowed" else codes "blocked")
        ++ codes "]")
      (trim_space tool.description)
    ∷ tool_lines policy tools

abbrev tools_text : Policy → List Metadata → Text
tools_text policy [] = codes "no tools registered"
tools_text policy (tool ∷ tools) =
    join (codes "\n") (codes "tools:" ∷ tool_lines policy (tool ∷ tools))

unfoldable pub list_tools : Policy → Option Registry → Text
list_tools policy none = codes "no tools registered"
list_tools policy (some r) = tools_text policy (catalog r)

unfoldable pub value_or_dash : Text → Text
value_or_dash s = if is_nil (trim_space s) then codes "-" else trim_space s

unfoldable pub server_lines : List ServerStatus → List Text
server_lines [] = []
server_lines (s ∷ servers) =
    (codes "- "
      ++ s.name
      ++ codes " ["
      ++ value_or_dash s.transport
      ++ codes "] tools="
      ++ itoa s.tool_count)
    ∷ server_lines servers

abbrev servers_part : List ServerStatus → List Text
servers_part [] = codes "servers: none" ∷ []
servers_part (s ∷ servers) = codes "servers:" ∷ server_lines (s ∷ servers)

abbrev config_part : Text → List Text
config_part file = if is_nil (trim_space file) then [] else (codes "config: " ++ file) ∷ []

unfoldable pub mcp_status : Option McpInspector → Text
mcp_status none = codes "mcp runtime unavailable"
mcp_status (some m) =
    if m.status.available
    then join (codes "\n") (
        (codes "mcp: available=true prefix="
          ++ value_or_dash m.status.tool_prefix
          ++ codes " tools="
          ++ itoa m.status.registered_tools
          ++ codes " servers="
          ++ itoa (length m.status.servers))
        ∷ (config_part m.status.config_file ++ servers_part m.status.servers))
    else codes "mcp runtime unavailable"

unfoldable pub mapping_lines : List ToolMapping → List Text
mapping_lines [] = []
mapping_lines (m ∷ mappings) =
    described
      (codes "- " ++ m.local_name ++ codes " -> " ++ m.server_name ++ codes "." ++ m.remote_name)
      (trim_space m.description)
    ∷ mapping_lines mappings

abbrev mappings_text : List ToolMapping → Text
mappings_text [] = codes "mcp tools: none"
mappings_text (m ∷ mappings) = join (codes "\n") (codes "mcp tools:" ∷ mapping_lines (m ∷ mappings))

unfoldable pub mcp_tools : Option McpInspector → Text
mcp_tools none = codes "mcp runtime unavailable"
mcp_tools (some m) = mappings_text m.tools
