-- ===== src/Telegram.antt =====
-- internal/channels/telegram.go: the state of the adapter, its options, and the updates that it gets.
pub mod Dedupe
pub mod Limits
pub mod Mentions
pub mod Chunks
pub mod Polling
use nisix.Common.{
  ℕ, ◌*◌, ◌+◌, Bool, true, false, ◌||◌, Option, none, some, List, [], ◌∷◌, if◌then◌else◌, is_nil,
}
use nisix.Common.Text.{Text, codes, trim_space, to_lower, trim_prefix, eq_text}
use nisix.Common.Int.{ℤ, pos, negsuc, positive_or}
use nisix.Common.Sets.{add}
use nisix.Common.Dict.{Dict}
use nisix.Domain.{ChatType, direct, group, channel}

-- The part of TelegramAdapter that decides about messages: the HTTP client and the API's address are
-- left out. Durations are nanoseconds, as times are.
pub record Adapter : Type 0 where
  pub account_id : Text
  pub token : Text
  pub bot_username : Text
  pub auto_detect_bot_username : Bool
  pub require_mention_in_groups : Bool
  pub enable_help_commands : Bool
  pub min_user_interval : ℕ
  pub dedupe_window : ℕ
  pub allowlist_mode : Text
  pub allow_users : List Text
  pub allow_chats : List Text
  pub last_inbound_by_user : Dict ℕ
  pub seen_update_order : List ℕ
  pub seen_update_set : List ℕ

pub record TelegramOptions : Type 0 where
  pub account_id : Text
  pub bot_username : Text
  pub auto_detect_bot_username : Bool
  pub require_mention_in_groups : Bool
  pub enable_help_commands : Bool
  pub min_user_interval_ms : ℤ
  pub dedupe_window : ℤ
  pub allowlist_mode : Text
  pub allow_users : List Text
  pub allow_chats : List Text

unfoldable pub normalize_account_id : Text → Text
normalize_account_id v =
    let id = to_lower (trim_space v) in if is_nil id then codes "default" else id

unfoldable pub normalize_username : Text → Text
normalize_username v = trim_prefix (trim_space (to_lower v)) (codes "@")

unfoldable pub normalize_allowlist_mode : Text → Text
normalize_allowlist_mode v =
    let mode = to_lower (trim_space v) in
    if eq_text mode (codes "users")
      || (eq_text mode (codes "chats")
          || (eq_text mode (codes "users_or_chats") || eq_text mode (codes "users_and_chats")))
    then mode
    else codes "off"

unfoldable pub to_set : List Text → List Text
to_set [] = []
to_set (v ∷ vs) =
    let rest = to_set vs in let k = trim_space v in if is_nil k then rest else add rest k

abbrev pub not_negative : ℤ → ℕ
not_negative (pos n) = n
not_negative (negsuc n) = 0

abbrev pub default_options : TelegramOptions
default_options = record {
  account_id = codes "default";
  bot_username = [];
  auto_detect_bot_username = true;
  require_mention_in_groups = true;
  enable_help_commands = true;
  min_user_interval_ms = pos 700;
  dedupe_window = pos 2048;
  allowlist_mode = codes "off";
  allow_users = [];
  allow_chats = [];
}

abbrev pub options_or : Option TelegramOptions → TelegramOptions
options_or none = default_options
options_or (some o) = o

-- An empty account or mode in the options is "default" or "off", as its normal form is anyway.
unfoldable pub new_telegram_adapter : Text → Option TelegramOptions → Adapter
new_telegram_adapter token options =
    let cfg = options_or options in
    record {
      account_id = normalize_account_id cfg.account_id;
      token = trim_space token;
      bot_username = normalize_username cfg.bot_username;
      auto_detect_bot_username = cfg.auto_detect_bot_username;
      require_mention_in_groups = cfg.require_mention_in_groups;
      enable_help_commands = cfg.enable_help_commands;
      min_user_interval = not_negative cfg.min_user_interval_ms * 1000000;
      dedupe_window = positive_or cfg.dedupe_window 2048;
      allowlist_mode = normalize_allowlist_mode cfg.allowlist_mode;
      allow_users = to_set cfg.allow_users;
      allow_chats = to_set cfg.allow_chats;
      last_inbound_by_user = [];
      seen_update_order = [];
      seen_update_set = [];
    }

pub record TelegramChat : Type 0 where
  pub id : ℤ
  pub type : Text

pub record TelegramUser : Type 0 where
  pub id : ℤ
  pub is_bot : Bool

pub record TelegramMessage : Type 0 where
  pub message_id : ℤ
  pub message_thread_id : ℤ
  pub text : Text
  pub chat : TelegramChat
  pub from : Option TelegramUser

pub record TelegramUpdate : Type 0 where
  pub update_id : ℤ
  pub message : Option TelegramMessage

unfoldable pub map_telegram_chat_type : Text → ChatType
map_telegram_chat_type chat_type =
    let c = to_lower (trim_space chat_type) in
    if eq_text c (codes "group") || eq_text c (codes "supergroup")
    then group
    else if eq_text c (codes "channel")
    then channel
    else direct
