-- ===== src/Config/Telegram.antt =====
-- internal/config/config.go: applyTelegramDefaults and validateTelegramAccounts.
pub mod Accounts
use nisix.Common.{
  ℕ, zero, suc, ◌+◌, Bool, true, false, ◌&&◌, not, Option, none, some, List, [], ◌∷◌, if◌then◌else◌,
  is_nil,
}
use nisix.Common.Text.{Text, codes, eq_text, trim_space, to_lower}
use nisix.Common.Int.{ℤ, pos, negsuc}
use nisix.Common.Sets.{member, add}
use nisix.Config.{
  TelegramConfig, ChannelsConfig, Error, token_required, account_token_required, duplicate_account,
}

-- `if v <= 0 { v = d }`
unfoldable pub or_positive : ℤ → ℕ → ℤ
or_positive (pos zero) d = pos d
or_positive (pos (suc n)) d = pos (suc n)
or_positive (negsuc n) d = pos d

unfoldable pub normalize_account_id : Text → Text
normalize_account_id v =
    let value = to_lower (trim_space v) in if is_nil value then codes "default" else value

unfoldable pub account_id_value : TelegramConfig → Text
account_id_value c = normalize_account_id c.account_id

abbrev pub allowlist_modes : List Text
allowlist_modes =
    codes "off"
    ∷ codes "users"
    ∷ codes "chats"
    ∷ codes "users_or_chats"
    ∷ codes "users_and_chats"
    ∷ []

-- The switch over AllowlistMode: the empty mode and an unknown one are "off".
unfoldable pub known_mode : Text → Text
known_mode mode = if member allowlist_modes mode then mode else codes "off"

-- A list of users or of chats turns the allowlist on.
unfoldable pub infer_mode : Text → List Text → List Text → Text
infer_mode mode users chats =
    if not (eq_text mode (codes "off"))
    then mode
    else if not (is_nil users) && not (is_nil chats)
    then codes "users_or_chats"
    else if not (is_nil users)
    then codes "users"
    else if not (is_nil chats)
    then codes "chats"
    else mode

unfoldable pub apply_telegram_defaults : TelegramConfig → TelegramConfig
apply_telegram_defaults cfg = record cfg {
  account_id = normalize_account_id cfg.account_id;
  allowlist_mode = infer_mode (known_mode cfg.allowlist_mode) cfg.allow_users cfg.allow_chats;
  min_user_interval_ms = or_positive cfg.min_user_interval_ms 700;
  dedupe_window = or_positive cfg.dedupe_window 2048;
}

unfoldable pub apply_all : List TelegramConfig → List TelegramConfig
apply_all [] = []
apply_all (c ∷ cs) = apply_telegram_defaults c ∷ apply_all cs

-- The loop over the accounts from index `i`, behind the ids in `seen`; `none` is no error.
unfoldable pub check_accounts : ℕ → List Text → List TelegramConfig → Option Error
check_accounts i seen [] = none
check_accounts i seen (c ∷ cs) =
    let skipped = check_accounts (i + 1) seen cs in
    let registered = check_accounts (i + 1) (add seen (account_id_value c)) cs in
    if not c.enabled
    then skipped
    else if is_nil (trim_space c.token)
    then some (account_token_required (pos i))
    else if member seen (account_id_value c)
    then some (duplicate_account (account_id_value c))
    else registered

unfoldable pub validate_telegram_accounts : ChannelsConfig → Option Error
unfolding check_accounts
validate_telegram_accounts ch =
    if not ch.telegram.enabled
    then check_accounts 0 [] ch.telegram_accounts
    else if is_nil (trim_space ch.telegram.token)
    then some token_required
    else check_accounts 0 (add [] (account_id_value ch.telegram)) ch.telegram_accounts
