-- ===== src/Mcp.antt =====
-- internal/mcp/loader.go: the tools of MCP servers in the registry. What the configuration file, the servers and their
-- processes answer is an argument; a server's notifications are left out.
pub mod Names
pub mod Transport
pub mod Registered
use nisix.Common.{
  ℕ, suc, Bool, true, false, not, Option, none, some, List, [], ◌∷◌, ◌++◌, if◌then◌else◌, is_nil,
  length,
}
use nisix.Common.Text.{Text, codes, eq_text, trim_space, to_lower, contains}
use nisix.Common.Dict.{Dict}
use nisix.Common.Sorting.{less_text}
use nisix.Tools.Registry.{Metadata, Tool, ToolResult, Registry, register, list}
use nisix.Runtime.Services.{ServerStatus, StatusSnapshot, ToolMapping}
use nisix.Mcp.Transport.{ServerConfig, resolve_transport}
use nisix.Mcp.Names.{sanitize_name, unique_tool_name}

pub record RemoteTool : Type 0 where
  pub name : Text
  pub description : Text
  -- none is nil
  pub input_schema : Option Text

-- A server of the configuration, with what it answers: whether it starts, its tools, and its calls.
pub record Server : Type 0 where
  pub name : Text
  pub cfg : ServerConfig
  pub starts : Bool
  pub tools : Option (List RemoteTool)
  pub call_tool : Text → Text → ToolResult

-- `clients` names the servers whose clients run.
pub record Manager : Type 0 where
  pub config_file : Text
  pub tool_prefix : Text
  pub tools : List ToolMapping
  pub servers : List ServerStatus
  pub clients : List Text

pub record Loaded : Type 0 where
  pub registry : Registry
  pub existing : List Text
  pub manager : Manager

-- sort.SliceStable by the names
unfoldable pub insert_tool : RemoteTool → List RemoteTool → List RemoteTool
insert_tool t [] = t ∷ []
insert_tool t (u ∷ us) =
    let rest = insert_tool t us in if less_text u.name t.name then u ∷ rest else t ∷ u ∷ us

unfoldable pub sort_tools : List RemoteTool → List RemoteTool
sort_tools [] = []
sort_tools (t ∷ ts) = insert_tool t (sort_tools ts)

abbrev described : Server → RemoteTool → Text
described s rt =
    if is_nil (trim_space rt.description)
    then codes "MCP tool " ++ rt.name ++ codes " from server " ++ s.name
    else trim_space rt.description

abbrev object_schema : Text
object_schema = codes "{\"type\":\"object\"}"

abbrev schema_of : Option Text → Text
schema_of none = object_schema
schema_of (some s) = s

-- The wrapped tool: its name, its metadata and its calls.
unfoldable pub wrapped : Server → RemoteTool → Text → Tool
wrapped s rt tool_name = record {
  name = tool_name;
  metadata = some (record {
    name = tool_name;
    description = described s rt;
    input_schema = some (schema_of rt.input_schema);
    output_schema = some object_schema;
  });
  execute = s.call_tool rt.name;
}

abbrev or_server : Text → Text
or_server safe = if is_nil safe then codes "server" else safe

unfoldable pub base_name : Text → Server → RemoteTool → Text
base_name prefix s rt =
    prefix ++ codes "_" ++ or_server (sanitize_name s.name) ++ codes "_" ++ sanitize_name rt.name

-- One tool under the name that is found for it.
abbrev pub with_name : Server → Text → RemoteTool → Loaded → Option Text → Loaded
with_name s transport rt l none = l
with_name s transport rt l (some n) = record l {
  registry = register l.registry (wrapped s rt n);
  existing = n ∷ l.existing;
  manager = record l.manager {
    tools =
        l.manager.tools
        ++ record {
          local_name = n;
          server_name = s.name;
          remote_name = rt.name;
          description = trim_space rt.description;
          transport = transport;
        }
          ∷ [];
  };
}

unfoldable pub register_tools : Server → Text → Loaded → List RemoteTool → Loaded
register_tools s transport l [] = l
register_tools s transport l (rt ∷ tools) =
    register_tools s transport
      (with_name s transport rt l
        (unique_tool_name l.existing (base_name l.manager.tool_prefix s rt)))
      tools

abbrev pub with_server : Server → Text → List RemoteTool → Loaded → Loaded
with_server s transport tools l = record l {
  manager = record l.manager {
    servers =
        l.manager.servers
        ++ record { name = s.name; transport = transport; tool_count = length tools } ∷ [];
    clients = l.manager.clients ++ s.name ∷ [];
  };
}

-- What RegisterFromFile leaves: the registry, the clients that still run, the manager, and whether there is an
-- error.
pub record Answer : Type 0 where
  pub registry : Registry
  pub running : List Text
  pub manager : Option Manager
  pub is_error : Bool

abbrev stopped : Loaded → List Text → Answer
stopped l running = record {
  registry = l.registry;
  running = running;
  manager = none;
  is_error = true;
}

abbrev pub with_tools : Loaded → (List RemoteTool → Answer) → Option (List RemoteTool) → Answer
with_tools l go none = stopped l []
with_tools l go (some tools) = go tools

-- What a server's transport, start and list of tools lead to. An unknown transport returns without
-- closing the clients before it; the other errors close them.
abbrev pub with_transport :
    Loaded → Server → (Text → List RemoteTool → Answer) → Option Text → Answer
with_transport l s go none = stopped l l.manager.clients
with_transport l s go (some transport) =
    if s.starts then with_tools l (go transport) s.tools else stopped l []

-- The loop over the servers in the order of their names.
unfoldable pub register_servers : Loaded → List Server → Answer
register_servers l [] = record {
  registry = l.registry;
  running = l.manager.clients;
  manager = some l.manager;
  is_error = false;
}
register_servers l (s ∷ servers) =
    with_transport l s
      (λ transport tools.
        register_servers
          (with_server s transport (sort_tools tools)
            (register_tools s transport l (sort_tools tools)))
          servers)
      (resolve_transport s.cfg)

abbrev or_mcp : Text → Text
or_mcp prefix = if is_nil prefix then codes "mcp" else prefix

unfoldable pub insert_server : Server → List Server → List Server
insert_server s [] = s ∷ []
insert_server s (t ∷ ts) =
    let rest = insert_server s ts in if less_text t.name s.name then t ∷ rest else s ∷ t ∷ ts

unfoldable pub sort_servers : List Server → List Server
sort_servers [] = []
sort_servers (s ∷ ss) = insert_server s (sort_servers ss)

-- What the file with the configuration gives; the names of the servers are distinct.
pub data ConfigFile : Type 0 where
  not_exist : ConfigFile
  unreadable : ConfigFile
  not_json : ConfigFile
  config : List Server → ConfigFile

abbrev unchanged : Registry → Bool → Answer
unchanged reg is_error = record {
  registry = reg;
  running = [];
  manager = none;
  is_error = is_error;
}

-- The loading of a configuration with servers.
unfoldable pub register_all : Registry → Text → Text → List Server → Answer
register_all reg path prefix servers =
    register_servers
      (record {
        registry = reg;
        existing = list reg;
        manager = record {
          config_file = path;
          tool_prefix = or_mcp (sanitize_name prefix);
          tools = [];
          servers = [];
          clients = [];
        };
      })
      (sort_servers servers)

abbrev pub with_config : Registry → Text → Text → ConfigFile → Answer
with_config reg path prefix not_exist = unchanged reg false
with_config reg path prefix unreadable = unchanged reg true
with_config reg path prefix not_json = unchanged reg true
with_config reg path prefix (config []) = unchanged reg false
with_config reg path prefix (config (s ∷ servers)) = register_all reg path prefix (s ∷ servers)

-- RegisterFromFile
unfoldable pub register_from_file : Registry → Text → Text → ConfigFile → Answer
register_from_file reg path prefix file =
    if is_nil (trim_space path) then unchanged reg true else with_config reg path prefix file

-- Status of a manager that is not nil
unfoldable pub status : Manager → StatusSnapshot
status m = record {
  available = true;
  config_file = m.config_file;
  tool_prefix = m.tool_prefix;
  registered_tools = length m.tools;
  servers = m.servers;
}
