-- ===== src/Mcp/Registered.antt =====
-- What the tools of MCP servers leave of the registry.
use nisix.Common.{
  ◌≡◌, ap, ◌∙◌, inl, inr, true, false, some, List, [], ◌∷◌, arith, Bool-cases, is_nil, Option-cases,
  if◌then◌else◌,
}
use nisix.Common.Text.{Text, eq_text, eq_text_iff, trim_space}
use nisix.Common.Dict.{get-put}
use nisix.Common.Sets.{member}
use nisix.Common.Sorting.{member-sort_strings}
use nisix.Tools.Registry.{Tool, Registry, get, register, list, names_of}
use nisix.Tools.Registry.Registered.{member-names_of, is_some}
use nisix.Mcp.Names.Fresh.{unique_tool_name-IsFresh}
use nisix.Mcp.Transport.{resolve_transport}
use nisix.Mcp.{
  RemoteTool, Server, Loaded, wrapped, base_name, with_name, register_tools, with_server,
  sort_tools, sort_servers, register_servers, register_from_file, register_all, ConfigFile,
  not_exist, unreadable, not_json, config, with_config,
}

-- The tools of a registry are still there, and their names are taken.
record Keeps (reg : Registry) (l : Loaded) : Type 0 where
  there : (k : Text) (t : Tool) → get reg k ≡ some t → get l.registry k ≡ some t
  taken : (k : Text) (t : Tool) → get reg k ≡ some t → member l.existing k ≡ true

get-register :
    (r : Registry) (t : Tool) (k : Text)
    → get (register r t) k ≡ (if eq_text t.name k then some t else get r k)
unfolding get register
get-register r t k = get-put r.tools t.name k t

with_name-Keeps :
    (reg : Registry) (s : Server) (transport : Text) (rt : RemoteTool) (l : Loaded) (n : Text)
    → Keeps reg l
    → member l.existing n ≡ false
    → Keeps reg (with_name s transport rt l (some n))
unfolding member wrapped
with_name-Keeps reg s transport rt l n h new = record {
  there = λ k t e. get-register l.registry (wrapped s rt n) k ∙ simp (other k t e) (h.there k t e);
  taken = λ k t e. (let m = h.taken k t e in ground arith);
}
  where
    other : (k : Text) (t : Tool) → get reg k ≡ some t → eq_text n k ≡ false
    other k t e = (let m = h.taken k t e in ground (arith, eq_text_iff n k))

register_tools-Keeps :
    (reg : Registry) (s : Server) (transport : Text) (l : Loaded) (tools : List RemoteTool)
    → Keeps reg l
    → Keeps reg (register_tools s transport l tools)
unfolding register_tools
register_tools-Keeps reg s transport l [] h = h
register_tools-Keeps reg s transport l (rt ∷ tools) h =
    (let f = unique_tool_name-IsFresh l.existing (base_name l.manager.tool_prefix s rt) in
      rw (f.given) (
        register_tools-Keeps reg s transport (with_name s transport rt l (some f.name)) tools
          (with_name-Keeps reg s transport rt l f.name h f.new)))

-- The tools of a registry are there after a loading.
pub StillThere : Registry → Registry → Type 0
StillThere before after = (k : Text) (t : Tool) → get before k ≡ some t → get after k ≡ some t

register_servers-StillThere :
    (reg : Registry) (l : Loaded) (servers : List Server)
    → Keeps reg l
    → StillThere reg (register_servers l servers).registry
unfolding register_servers StillThere
register_servers-StillThere reg l [] h = h.there
register_servers-StillThere reg l (s ∷ servers) h = elim (Option-cases (resolve_transport s.cfg)) [
  | inl unknown ↦ rw unknown (h.there)
  | inr (transport, known) ↦ elim (Bool-cases s.starts) [
    | inr off ↦ simp (known, off) (h.there)
    | inl on ↦ elim (Option-cases s.tools) [
      | inl no_list ↦ simp (known, on, no_list) (h.there)
      | inr (tools, listed) ↦
          simp (known, on, listed)
            (let k = register_tools-Keeps reg s transport l (sort_tools tools) h in
              register_servers-StillThere reg
                (with_server s transport (sort_tools tools)
                  (register_tools s transport l (sort_tools tools)))
                servers (record { there = k.there; taken = k.taken }))
    ]
  ]
]

register_all-StillThere :
    (reg : Registry) (path prefix : Text) (servers : List Server)
    → StillThere reg (register_all reg path prefix servers).registry
unfolding register_all
register_all-StillThere reg path prefix servers =
    register_servers-StillThere reg _ (sort_servers servers) (record {
      there = λ k t e. e;
      taken = λ k t e.
          (unfold list get in
            member-sort_strings (names_of reg.tools) k
            ∙ member-names_of reg.tools k
            ∙ ap is_some e);
    })

with_config-StillThere :
    (reg : Registry) (path prefix : Text) (file : ConfigFile)
    → StillThere reg (with_config reg path prefix file).registry
unfolding StillThere
with_config-StillThere reg path prefix not_exist = λ k t e. e
with_config-StillThere reg path prefix unreadable = λ k t e. e
with_config-StillThere reg path prefix not_json = λ k t e. e
with_config-StillThere reg path prefix (config []) = λ k t e. e
with_config-StillThere reg path prefix (config (s ∷ servers)) =
    register_all-StillThere reg path prefix (s ∷ servers)

-- RegisterFromFile never replaces a tool: whatever the file and the servers give and wherever it stops, each tool
-- that the registry found under a name before is the one that it finds under this name afterwards.
pub register_from_file-StillThere :
    (reg : Registry) (path prefix : Text) (file : ConfigFile)
    → StillThere reg (register_from_file reg path prefix file).registry
unfolding register_from_file StillThere
register_from_file-StillThere reg path prefix file = elim (Bool-cases (is_nil (trim_space path))) [
  | inl empty ↦ rw empty (λ k t e. e)
  | inr path_given ↦ rw path_given (with_config-StillThere reg path prefix file)
]
