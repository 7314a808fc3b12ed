-- ===== src/Config/Defaults.antt =====
-- internal/config/config.go: Load.
use nisix.Common.{zero, suc, Option, none, some, List, [], ◌∷◌, if◌then◌else◌, is_nil}
use nisix.Common.Text.{Text, codes}
use nisix.Common.Int.{ℤ, pos, negsuc}
use nisix.Common.Sets.{member}
use nisix.Config.{Config, Error, read_failed, unmarshal_failed, agents_required}
use nisix.Config.Telegram.{
  or_positive, apply_telegram_defaults, apply_all, validate_telegram_accounts,
}

-- `if v == "" { v = d }`
unfoldable pub or_text : Text → Text → Text
or_text [] d = d
or_text (c ∷ s) d = c ∷ s

-- A switch that keeps the values in `modes`.
unfoldable pub one_of : List Text → Text → Text → Text
one_of modes v d = if member modes v then v else d

unfoldable pub or_port : ℤ → ℤ
or_port (pos zero) = pos 18789
or_port (pos (suc n)) = pos (suc n)
or_port (negsuc n) = negsuc n

abbrev pub scopes : List Text
scopes = codes "dm_only" ∷ codes "all" ∷ []

abbrev pub reload_modes : List Text
reload_modes = codes "per_message" ∷ codes "session_snapshot" ∷ []

abbrev pub update_modes : List Text
update_modes = codes "explicit" ∷ codes "hybrid" ∷ codes "auto" ∷ []

abbrev pub profile_files : List Text
profile_files =
    codes "IDENTITY.md"
    ∷ codes "SOUL.md"
    ∷ codes "USER.md"
    ∷ codes "TOOLS.md"
    ∷ codes "AGENTS.md"
    ∷ codes "MEMORY.md"
    ∷ []

abbrev pub or_files : List Text → List Text
or_files [] = profile_files
or_files (f ∷ fs) = f ∷ fs

-- The defaults that Load fills in; the first argument is OPENAI_API_KEY.
unfoldable pub apply_defaults : Text → Config → Config
apply_defaults api_key cfg = record cfg {
  gateway = record cfg.gateway {
    bind = or_text cfg.gateway.bind (codes "127.0.0.1");
    port = or_port cfg.gateway.port;
  };
  agents = record cfg.agents { default_id = or_text cfg.agents.default_id (codes "main") };
  session = record cfg.session {
    state_dir = or_text cfg.session.state_dir (codes "./state");
    context_history_limit = or_positive cfg.session.context_history_limit 24;
    context_summary_max_chars = or_positive cfg.session.context_summary_max_chars 1800;
    context_summary_line_chars = or_positive cfg.session.context_summary_line_chars 180;
  };
  mcp = record cfg.mcp {
    config_file = or_text cfg.mcp.config_file (codes "./mcp.json");
    tool_prefix = or_text cfg.mcp.tool_prefix (codes "mcp");
  };
  skills = record cfg.skills {
    max_injected = or_positive cfg.skills.max_injected 1;
    max_body_chars = or_positive cfg.skills.max_body_chars 4000;
  };
  memory = record cfg.memory {
    auto_load_scope =
        one_of scopes (or_text cfg.memory.auto_load_scope (codes "dm_only")) (codes "dm_only");
  };
  model = record cfg.model {
    provider = or_text cfg.model.provider (codes "echo");
    timeout_sec = or_positive cfg.model.timeout_sec 60;
    openai = record {
      api_key = or_text cfg.model.openai.api_key api_key;
      base_url = or_text cfg.model.openai.base_url (codes "https://api.openai.com/v1");
      model = or_text cfg.model.openai.model (codes "gpt-5-codex");
    };
    ollama = record {
      base_url = or_text cfg.model.ollama.base_url (codes "http://127.0.0.1:11434");
      model = or_text cfg.model.ollama.model (codes "llama3.2");
    };
  };
  workspace = record cfg.workspace {
    template_dir = or_text cfg.workspace.template_dir (codes "./workspace/templates");
  };
  bootstrap = record {
    reload_mode =
        one_of reload_modes (or_text cfg.bootstrap.reload_mode (codes "per_message"))
          (codes "per_message");
  };
  profile = record cfg.profile {
    update_mode =
        one_of update_modes (or_text cfg.profile.update_mode (codes "hybrid")) (codes "hybrid");
    max_file_bytes = or_positive cfg.profile.max_file_bytes 262144;
    allowed_files = or_files cfg.profile.allowed_files;
  };
  channels = record {
    telegram = apply_telegram_defaults cfg.channels.telegram;
    telegram_accounts = apply_all cfg.channels.telegram_accounts;
  };
}

pub data Loading : Type 0 where
  loaded : Config → Loading
  failed : Error → Loading

unfoldable pub checked : Config → Option Error → Loading
checked cfg (some e) = failed e
checked cfg none = if is_nil cfg.agents.list then failed agents_required else loaded cfg

unfoldable pub decoded : Text → Option Config → Loading
unfolding checked
decoded api_key none = failed unmarshal_failed
decoded api_key (some raw) =
    let cfg = apply_defaults api_key raw in checked cfg (validate_telegram_accounts cfg.channels)

-- `content` is what os.ReadFile gives, `unmarshal` is json.Unmarshal into a Config.
unfoldable pub load : (Text → Option Config) → Text → Option Text → Loading
unfolding decoded
load unmarshal api_key none = failed read_failed
load unmarshal api_key (some content) = decoded api_key (unmarshal content)
