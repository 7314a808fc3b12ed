-- ===== src/Config.antt =====
-- internal/config/config.go: the configuration. A *bool is an Option, a map a dictionary; environment and
-- file are parameters where Load reads them.
pub mod Telegram
pub mod Defaults
pub mod Loaded
use nisix.Common.{Bool, true, Option, none, some, List, [], ◌∷◌}
use nisix.Common.Text.{Text}
use nisix.Common.Int.{ℤ}
use nisix.Common.Dict.{Dict}
use nisix.Router.{BindingRule}

pub record GatewayConfig : Type 0 where
  pub bind : Text
  pub port : ℤ
  pub token : Text

pub record AgentConfig : Type 0 where
  pub id : Text
  pub workspace : Text

pub record AgentsConfig : Type 0 where
  pub default_id : Text
  pub list : List AgentConfig

pub record SessionConfig : Type 0 where
  pub dm_mode : Text
  pub state_dir : Text
  pub context_history_limit : ℤ
  pub context_summary_max_chars : ℤ
  pub context_summary_line_chars : ℤ

pub record ToolsConfig : Type 0 where
  pub profile : Text
  pub allow : List Text
  pub deny : List Text

pub record McpConfig : Type 0 where
  pub enabled : Option Bool
  pub config_file : Text
  pub tool_prefix : Text

pub record MemoryConfig : Type 0 where
  pub enabled : Bool
  pub auto_load_scope : Text

pub record SkillEntryConfig : Type 0 where
  pub enabled : Option Bool

pub record SkillsConfig : Type 0 where
  pub enabled : Option Bool
  pub auto_match : Option Bool
  pub max_injected : ℤ
  pub allowlist : List Text
  pub entries : Dict SkillEntryConfig
  pub max_body_chars : ℤ

pub record OpenaiModel : Type 0 where
  pub api_key : Text
  pub base_url : Text
  pub model : Text

pub record OllamaModel : Type 0 where
  pub base_url : Text
  pub model : Text

pub record ModelConfig : Type 0 where
  pub provider : Text
  pub timeout_sec : ℤ
  pub openai : OpenaiModel
  pub ollama : OllamaModel

pub record WorkspaceConfig : Type 0 where
  pub bootstrap_from_templates : Option Bool
  pub template_dir : Text

pub record BootstrapConfig : Type 0 where
  pub reload_mode : Text

pub record ProfileConfig : Type 0 where
  pub update_mode : Text
  pub auto_detect_enabled : Option Bool
  pub allowed_files : List Text
  pub max_file_bytes : ℤ

pub record TelegramConfig : Type 0 where
  pub account_id : Text
  pub enabled : Bool
  pub token : Text
  pub polling : Bool
  pub bot_username : Text
  pub auto_detect_bot_username : Option Bool
  pub require_mention_in_groups : Option Bool
  pub enable_help_commands : Option Bool
  pub min_user_interval_ms : ℤ
  pub dedupe_window : ℤ
  pub allowlist_mode : Text
  pub allow_users : List Text
  pub allow_chats : List Text

pub record ChannelsConfig : Type 0 where
  pub telegram : TelegramConfig
  pub telegram_accounts : List TelegramConfig

pub record Config : Type 0 where
  pub gateway : GatewayConfig
  pub agents : AgentsConfig
  pub bindings : List BindingRule
  pub session : SessionConfig
  pub tools : ToolsConfig
  pub mcp : McpConfig
  pub memory : MemoryConfig
  pub skills : SkillsConfig
  pub model : ModelConfig
  pub workspace : WorkspaceConfig
  pub bootstrap : BootstrapConfig
  pub profile : ProfileConfig
  pub channels : ChannelsConfig

pub data Error : Type 0 where
  read_failed unmarshal_failed token_required agents_required : Error
  account_token_required : ℤ → Error
  duplicate_account : Text → Error
