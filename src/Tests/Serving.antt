-- ===== src/Tests/Serving.antt =====
-- internal/mcp/loader.go on a concrete configuration.
use nisix.Common.{◌≡◌, refl, true, none, some, [], ◌∷◌, List}
use nisix.Common.Text.{Text, codes, trim_space, to_lower, eq_text, contains}
use nisix.Common.Cutsets.{trim_of}
use nisix.Common.Sets.{member}
use nisix.Common.Decimal.{itoa}
use nisix.Tools.Registry.{result, Registry, list, names_of, register, new_registry}
use nisix.Tools.Registry.Registered
use nisix.Common.Dict
use nisix.Common.Sorting.{sort_strings, less_text}
use nisix.Mcp.Transport.{ServerConfig, resolve_transport}
use nisix.Mcp.{
  RemoteTool, Server, config, register_from_file, register_all, register_servers, sort_servers,
  insert_server, register_tools, sort_tools, insert_tool, base_name, wrapped,
}
use nisix.Mcp.Names.{sanitize_name, unique_tool_name, search_name}
use nisix.Mcp.Names.Fresh.{IsFresh, unique_tool_name-IsFresh}
use nisix.Mcp.Registered.{StillThere, register_from_file-StillThere}
use nisix.Tests.Running.{tool}

abbrev existing : List Text
existing = codes "mcp_a_b" ∷ codes "mcp_a_b_2" ∷ []

sanitize_test : sanitize_name (codes " 9 Lives! ") ≡ codes "t_9_lives"
unfolding sanitize_name trim_of to_lower trim_space
sanitize_test = refl

unique_test : unique_tool_name existing (codes "mcp_a_b") ≡ some (codes "mcp_a_b_3")
unfolding unique_tool_name search_name member itoa
unique_test = refl

unique_tool_name-IsFresh_example : IsFresh existing (unique_tool_name existing (codes "mcp_a_b"))
unique_tool_name-IsFresh_example = unique_tool_name-IsFresh existing (codes "mcp_a_b")

abbrev stdio : ServerConfig
stdio = record { transport = []; kind = []; command = codes "files"; url = []; message_url = [] }

abbrev sse : ServerConfig
sse = record {
  transport = [];
  kind = [];
  command = [];
  url = codes "https://host/SSE";
  message_url = [];
}

transport_test : resolve_transport sse ≡ some (codes "sse")
unfolding resolve_transport to_lower trim_space contains
transport_test = refl

abbrev remote : Text → RemoteTool
remote name = record { name = name; description = []; input_schema = none }

abbrev files : Server
files = record {
  name = codes "files";
  cfg = stdio;
  starts = true;
  tools = some (remote (codes "read") ∷ remote (codes "Read") ∷ remote (codes "list") ∷ []);
  call_tool = λ name input. result name;
}

abbrev before : Registry
before = Registered.run (tool (codes "mcp_files_list") ∷ [])

loading_test :
    list (register_from_file before (codes "mcp.json") [] (config (files ∷ []))).registry
    ≡ codes "mcp_files_list"
      ∷ codes "mcp_files_list_2"
      ∷ codes "mcp_files_read"
      ∷ codes "mcp_files_read_2"
      ∷ []
unfolding list sort_strings names_of register_from_file trim_space register_all register_servers
    sort_servers insert_server resolve_transport to_lower register_tools sort_tools insert_tool
    unique_tool_name member Registered.run register trim_of itoa Dict.put contains eq_text
    sanitize_name search_name base_name wrapped new_registry less_text
loading_test = refl

register_from_file-StillThere_example :
    StillThere before
      (register_from_file before (codes "mcp.json") [] (config (files ∷ []))).registry
register_from_file-StillThere_example =
    register_from_file-StillThere before (codes "mcp.json") [] (config (files ∷ []))
