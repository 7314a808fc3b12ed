-- ===== src/Tests/Settings.antt =====
-- internal/config/config.go on a concrete configuration.
use nisix.Common.{◌≡◌, ◌↔◌, refl, true, false, none, some, [], ◌∷◌}
use nisix.Common.Text.{Text, codes, trim_space}
use nisix.Common.Sets.{member}
use nisix.Common.Int.{pos}
use nisix.Config.{TelegramConfig, ChannelsConfig, Config}
use nisix.Config.Telegram.{apply_telegram_defaults, apply_all, validate_telegram_accounts}
use nisix.Config.Telegram.Accounts.{AreValid, validate_telegram_accounts_iff}
use nisix.Config.Defaults.{apply_defaults, loaded, load}
use nisix.Config.Loaded.{IsLoaded, load-IsLoaded}

abbrev no_bot : TelegramConfig
no_bot = record {
  account_id = [];
  enabled = false;
  token = [];
  polling = false;
  bot_username = [];
  auto_detect_bot_username = none;
  require_mention_in_groups = none;
  enable_help_commands = none;
  min_user_interval_ms = pos 0;
  dedupe_window = pos 0;
  allowlist_mode = [];
  allow_users = [];
  allow_chats = [];
}

abbrev ops_bot : TelegramConfig
ops_bot = record no_bot { account_id = codes "Ops"; enabled = true; token = codes "t" }

abbrev channels_of_ops : ChannelsConfig
channels_of_ops = record { telegram = no_bot; telegram_accounts = ops_bot ∷ [] }

-- What a file without settings, with one agent and one account, is decoded as.
abbrev bare : Config
bare = record {
  gateway = record { bind = []; port = pos 0; token = [] };
  agents = record { default_id = []; list = record { id = codes "main"; workspace = [] } ∷ [] };
  bindings = [];
  session = record {
    dm_mode = [];
    state_dir = [];
    context_history_limit = pos 0;
    context_summary_max_chars = pos 0;
    context_summary_line_chars = pos 0;
  };
  tools = record { profile = []; allow = []; deny = [] };
  mcp = record { enabled = none; config_file = []; tool_prefix = [] };
  memory = record { enabled = false; auto_load_scope = codes "everything" };
  skills = record {
    enabled = none;
    auto_match = none;
    max_injected = pos 0;
    allowlist = [];
    entries = [];
    max_body_chars = pos 0;
  };
  model = record {
    provider = [];
    timeout_sec = pos 0;
    openai = record { api_key = []; base_url = []; model = [] };
    ollama = record { base_url = []; model = [] };
  };
  workspace = record { bootstrap_from_templates = none; template_dir = [] };
  bootstrap = record { reload_mode = [] };
  profile = record {
    update_mode = [];
    auto_detect_enabled = none;
    allowed_files = [];
    max_file_bytes = pos 0;
  };
  channels = channels_of_ops;
}

abbrev file : Text
file = codes "{}"

loads :
    load (λ bytes. some bare) (codes "key") (some file) ≡ loaded (apply_defaults (codes "key") bare)
unfolding load validate_telegram_accounts apply_defaults apply_telegram_defaults apply_all
    trim_space member
loads = refl

load-IsLoaded_example : IsLoaded (apply_defaults (codes "key") bare)
load-IsLoaded_example =
    load-IsLoaded (λ bytes. some bare) (codes "key") (some file) (apply_defaults (codes "key") bare)
      loads

validate_telegram_accounts_iff_example :
    (validate_telegram_accounts channels_of_ops ≡ none) ↔ AreValid (no_bot ∷ ops_bot ∷ [])
validate_telegram_accounts_iff_example = validate_telegram_accounts_iff channels_of_ops
