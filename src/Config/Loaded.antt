-- ===== src/Config/Loaded.antt =====
-- What Load promises of the configuration that it gives.
use mathlib.Core.Path.{subst}
use nisix.Common.{
  ℕ, zero, suc, ◌<◌, ◌≡◌, refl, sym, ap, ◌∙◌, inl, inr, true, false, Option, none, some, List, [],
  ◌∷◌, is_nil, All, arith, Bool-cases,
}
use nisix.Common.Text.{Text, codes, trim_space, to_lower}
use nisix.Common.Int.{ℤ, pos, negsuc}
use nisix.Common.Sets.{member}
use nisix.Common.TextLaws.{normal_idem}
use nisix.Config.{TelegramConfig, Config, Error}
use nisix.Config.Telegram.{
  or_positive, normalize_account_id, allowlist_modes, known_mode, infer_mode,
  apply_telegram_defaults, apply_all, validate_telegram_accounts,
}
use nisix.Config.Telegram.Accounts.{AreValid, validate_telegram_accounts_iff}
use nisix.Config.Defaults.{
  or_text, one_of, scopes, reload_modes, update_modes, or_files, apply_defaults, loaded, checked,
  decoded, load,
}

abbrev pub IsPositive : ℤ → Type 0
IsPositive (pos n) = 0 < n
IsPositive (negsuc n) = ⊥

abbrev pub NotEmpty {ℓ} : {A : Type ℓ} → List A → Type 0
NotEmpty xs = is_nil xs ≡ false

-- An account of Telegram whose limits and mode are set.
pub record IsConfigured (c : TelegramConfig) : Type 0 where
  pub interval : IsPositive c.min_user_interval_ms
  pub window : IsPositive c.dedupe_window
  pub mode : member allowlist_modes c.allowlist_mode ≡ true
  pub account_id_is : normalize_account_id c.account_id ≡ c.account_id

pub record IsLoaded (cfg : Config) : Type 0 where
  pub history_limit : IsPositive cfg.session.context_history_limit
  pub summary_chars : IsPositive cfg.session.context_summary_max_chars
  pub line_chars : IsPositive cfg.session.context_summary_line_chars
  pub timeout : IsPositive cfg.model.timeout_sec
  pub injected : IsPositive cfg.skills.max_injected
  pub body_chars : IsPositive cfg.skills.max_body_chars
  pub file_bytes : IsPositive cfg.profile.max_file_bytes
  pub default_id : NotEmpty cfg.agents.default_id
  pub state_dir : NotEmpty cfg.session.state_dir
  pub agents : NotEmpty cfg.agents.list
  pub files : NotEmpty cfg.profile.allowed_files
  pub scope : member scopes cfg.memory.auto_load_scope ≡ true
  pub reload : member reload_modes cfg.bootstrap.reload_mode ≡ true
  pub update : member update_modes cfg.profile.update_mode ≡ true
  pub telegram : All IsConfigured (cfg.channels.telegram ∷ cfg.channels.telegram_accounts)
  pub accounts : AreValid (cfg.channels.telegram ∷ cfg.channels.telegram_accounts)

or_positive-IsPositive : (v : ℤ) (d : ℕ) → 0 < d → IsPositive (or_positive v d)
unfolding or_positive
or_positive-IsPositive (pos zero) d h = h
or_positive-IsPositive (pos (suc n)) d h = omega arith
or_positive-IsPositive (negsuc n) d h = h

or_text-NotEmpty : (v d : Text) → NotEmpty d → NotEmpty (or_text v d)
unfolding or_text
or_text-NotEmpty [] d h = h
or_text-NotEmpty (c ∷ s) d h = refl

or_files-NotEmpty : (fs : List Text) → NotEmpty (or_files fs)
or_files-NotEmpty [] = refl
or_files-NotEmpty (f ∷ fs) = refl

one_of-member :
    (modes : List Text) (v d : Text)
    → member modes d ≡ true
    → member modes (one_of modes v d) ≡ true
unfolding one_of
one_of-member modes v d h = ground arith

known_mode-member : (mode : Text) → member allowlist_modes (known_mode mode) ≡ true
unfolding known_mode member one_of
known_mode-member mode = one_of-member allowlist_modes mode (codes "off") refl

infer_mode-member :
    (mode : Text) (users chats : List Text)
    → member allowlist_modes mode ≡ true
    → member allowlist_modes (infer_mode mode users chats) ≡ true
unfolding infer_mode member
infer_mode-member mode users chats h =
    let both : member allowlist_modes (codes "users_or_chats") ≡ true = refl in
    let users_only : member allowlist_modes (codes "users") ≡ true = refl in
    let chats_only : member allowlist_modes (codes "chats") ≡ true = refl in ground arith

normalize_account_id_idem :
    (v : Text) → normalize_account_id (normalize_account_id v) ≡ normalize_account_id v
unfolding normalize_account_id trim_space to_lower
normalize_account_id_idem v = elim (Bool-cases (is_nil (to_lower (trim_space v)))) [
  | inl empty ↦ simp empty refl
  | inr full ↦ simp (full, normal_idem v) refl
]

defaults-IsConfigured : (c : TelegramConfig) → IsConfigured (apply_telegram_defaults c)
unfolding apply_telegram_defaults
defaults-IsConfigured c = record {
  interval = or_positive-IsPositive c.min_user_interval_ms 700 (omega arith);
  window = or_positive-IsPositive c.dedupe_window 2048 (omega arith);
  mode = infer_mode-member _ c.allow_users c.allow_chats (known_mode-member c.allowlist_mode);
  account_id_is = normalize_account_id_idem c.account_id;
}

All-IsConfigured : (cs : List TelegramConfig) → All IsConfigured (apply_all cs)
unfolding apply_all
All-IsConfigured [] = tt
All-IsConfigured (c ∷ cs) = (defaults-IsConfigured c, All-IsConfigured cs)

checked-loaded :
    (cfg cfg' : Config) (e : Option Error)
    → checked cfg e ≡ loaded cfg'
    → (cfg ≡ cfg') × (e ≡ none) × NotEmpty cfg.agents.list
unfolding checked
checked-loaded cfg cfg' (some e) h = absurd (cc)
checked-loaded cfg cfg' none h = elim (Bool-cases (is_nil cfg.agents.list)) [
  | inl empty ↦ absurd (let h' = rw empty at h in cc)
  | inr full ↦ (let h' = rw full at h in cc, refl, full)
]

decoded-loaded :
    (api_key : Text) (raw : Option Config) (cfg : Config)
    → decoded api_key raw ≡ loaded cfg
    → (r : Config) × (apply_defaults api_key r ≡ cfg)
      × (validate_telegram_accounts cfg.channels ≡ none)
      × NotEmpty cfg.agents.list
unfolding decoded
decoded-loaded api_key none cfg h = absurd (cc)
decoded-loaded api_key (some raw) cfg h =
    let c = apply_defaults api_key raw in
    let (same, valid, agents) = checked-loaded c cfg (validate_telegram_accounts c.channels) h in
    (
      raw,
      same,
      ap (λ (x : Config). validate_telegram_accounts x.channels) (sym same) ∙ valid,
      ap (λ (x : Config). is_nil x.agents.list) (sym same) ∙ agents,
    )

defaults-IsLoaded :
    (api_key : Text) (raw : Config)
    → validate_telegram_accounts (apply_defaults api_key raw).channels ≡ none
    → NotEmpty (apply_defaults api_key raw).agents.list
    → IsLoaded (apply_defaults api_key raw)
unfolding apply_defaults member
defaults-IsLoaded api_key raw valid agents = record {
  history_limit = or_positive-IsPositive raw.session.context_history_limit 24 (omega arith);
  summary_chars = or_positive-IsPositive raw.session.context_summary_max_chars 1800 (omega arith);
  line_chars = or_positive-IsPositive raw.session.context_summary_line_chars 180 (omega arith);
  timeout = or_positive-IsPositive raw.model.timeout_sec 60 (omega arith);
  injected = or_positive-IsPositive raw.skills.max_injected 1 (omega arith);
  body_chars = or_positive-IsPositive raw.skills.max_body_chars 4000 (omega arith);
  file_bytes = or_positive-IsPositive raw.profile.max_file_bytes 262144 (omega arith);
  default_id = or_text-NotEmpty raw.agents.default_id (codes "main") refl;
  state_dir = or_text-NotEmpty raw.session.state_dir (codes "./state") refl;
  agents = agents;
  files = or_files-NotEmpty raw.profile.allowed_files;
  scope = one_of-member scopes _ (codes "dm_only") refl;
  reload = one_of-member reload_modes _ (codes "per_message") refl;
  update = one_of-member update_modes _ (codes "hybrid") refl;
  telegram = (
    defaults-IsConfigured raw.channels.telegram,
    All-IsConfigured raw.channels.telegram_accounts,
  );
  accounts = (validate_telegram_accounts_iff _).0 valid;
}

-- A configuration that Load gives has positive limits, a default agent and a state directory that are
-- not empty, agents and profile files, a known value in each of the four fields of modes that Load checks, and Telegram
-- accounts with a positive interval and window, a known allowlist mode and a normalised id, of which
-- the enabled ones have a token and ids that differ; whatever the file holds and json.Unmarshal makes of it.
pub load-IsLoaded :
    (unmarshal : Text → Option Config) (api_key : Text) (content : Option Text) (cfg : Config)
    → load unmarshal api_key content ≡ loaded cfg
    → IsLoaded cfg
unfolding load
load-IsLoaded unmarshal api_key none cfg h = absurd (cc)
load-IsLoaded unmarshal api_key (some content) cfg h =
    let (raw, same, valid, agents) = decoded-loaded api_key (unmarshal content) cfg h in
    subst IsLoaded same (
      defaults-IsLoaded api_key raw
        (ap (λ (x : Config). validate_telegram_accounts x.channels) same ∙ valid)
        (ap (λ (x : Config). is_nil x.agents.list) same ∙ agents))
