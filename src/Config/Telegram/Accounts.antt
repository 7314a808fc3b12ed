-- ===== src/Config/Telegram/Accounts.antt =====
-- The accounts that a valid configuration enables.
use nisix.Common.{
  ℕ, ◌+◌, ◌≡◌, refl, ◌↔◌, inl, inr, false, none, List, [], ◌∷◌, if◌then◌else◌, is_nil, All, arith,
  Bool-cases,
}
use nisix.Common.Text.{Text, eq_text_iff, trim_space}
use nisix.Common.Sets.{member, add, member-add, AllDistinct}
use nisix.Config.{TelegramConfig, ChannelsConfig}
use nisix.Config.Telegram.{account_id_value, check_accounts, validate_telegram_accounts}

-- The enabled ones among accounts.
pub enabled_of : List TelegramConfig → List TelegramConfig
enabled_of [] = []
enabled_of (c ∷ cs) = if c.enabled then c ∷ enabled_of cs else enabled_of cs

pub ids_of : List TelegramConfig → List Text
ids_of [] = []
ids_of (c ∷ cs) = account_id_value c ∷ ids_of cs

abbrev pub HasToken : TelegramConfig → Type 0
HasToken c = is_nil (trim_space c.token) ≡ false

-- Every enabled account has a token, and no two have one id.
pub record AreValid (accounts : List TelegramConfig) : Type 0 where
  pub have_token : All HasToken (enabled_of accounts)
  pub distinct : AllDistinct (ids_of (enabled_of accounts))

abbrev NotIn : List Text → Text → Type 0
NotIn seen id = member seen id ≡ false

NotIn-add :
    (seen : List Text) (id : Text) (ids : List Text)
    → All (NotIn (add seen id)) ids ↔ (member ids id ≡ false) × All (NotIn seen) ids
unfolding member
NotIn-add seen id [] = ground arith
NotIn-add seen id (x ∷ ids) =
    ground (arith, member-add seen id x, eq_text_iff id x, eq_text_iff x id, NotIn-add seen id ids)

check_accounts_iff :
    (i : ℕ) (seen : List Text) (cs : List TelegramConfig)
    → (check_accounts i seen cs ≡ none) ↔ (
        All HasToken (enabled_of cs)
        × AllDistinct (ids_of (enabled_of cs))
        × All (NotIn seen) (ids_of (enabled_of cs)))
unfolding check_accounts enabled_of ids_of
check_accounts_iff i seen [] = (λ _. (tt, tt, tt), λ _. refl)
check_accounts_iff i seen (c ∷ cs) = elim (Bool-cases c.enabled) [
  | inr off ↦ simp off (check_accounts_iff (i + 1) seen cs)
  | inl on ↦ elim (Bool-cases (is_nil (trim_space c.token))) [
    | inl empty ↦ simp (on, empty) (λ e. absurd (cc), λ h. absurd (cc))
    | inr token ↦ elim (Bool-cases (member seen (account_id_value c))) [
      | inl twice ↦ simp (on, token, twice) (λ e. absurd (cc), λ h. absurd (cc))
      | inr fresh ↦
          let ih = check_accounts_iff (i + 1) (add seen (account_id_value c)) cs in
          let split = NotIn-add seen (account_id_value c) (ids_of (enabled_of cs)) in
          simp (on, token, fresh)
            (
              λ e.
                  (let (t, d, n) = ih.0 e in
                    let (a, b) = split.0 n in ((refl, t), (a, d), (refl, b))),
              λ h. ih.1 (h.0.1, h.1.1, split.1 (h.1.0, h.2.1)),
            )
    ]
  ]
]

-- The index of an account only names it in an error.
same_without_index :
    (i j : ℕ) (seen : List Text) (cs : List TelegramConfig)
    → (check_accounts i seen cs ≡ none)
    → (check_accounts j seen cs ≡ none)
same_without_index i j seen cs e =
    (check_accounts_iff j seen cs).1 ((check_accounts_iff i seen cs).0 e)

-- The first account is checked like the others.
first_account :
    (ch : ChannelsConfig)
    → (validate_telegram_accounts ch ≡ none)
      ↔ (check_accounts 0 [] (ch.telegram ∷ ch.telegram_accounts) ≡ none)
unfolding validate_telegram_accounts check_accounts member
first_account ch = elim (Bool-cases ch.telegram.enabled) [
  | inr off ↦ simp off (
    same_without_index 0 1 [] ch.telegram_accounts,
    same_without_index 1 0 [] ch.telegram_accounts,
  )
  | inl on ↦ elim (Bool-cases (is_nil (trim_space ch.telegram.token))) [
    | inl empty ↦ simp (on, empty) (λ e. absurd (cc), λ e. absurd (cc))
    | inr token ↦
        let seen = add [] (account_id_value ch.telegram) in
        simp (on, token)
          (
            same_without_index 0 1 seen ch.telegram_accounts,
            same_without_index 1 0 seen ch.telegram_accounts,
          )
  ]
]

none_in : (ids : List Text) → All (NotIn []) ids
unfolding member
none_in [] = tt
none_in (x ∷ ids) = (refl, none_in ids)

-- validateTelegramAccounts reports no error exactly if every enabled account, the first one and the
-- listed ones, has a token that is not blank, and no two of them have the same normalised id.
pub validate_telegram_accounts_iff :
    (ch : ChannelsConfig)
    → (validate_telegram_accounts ch ≡ none) ↔ AreValid (ch.telegram ∷ ch.telegram_accounts)
validate_telegram_accounts_iff ch =
    let all = check_accounts_iff 0 [] (ch.telegram ∷ ch.telegram_accounts) in
    (
      λ e.
          (let (tokens, apart, _) = all.0 ((first_account ch).0 e) in
            record { have_token = tokens; distinct = apart }),
      λ h. (first_account ch).1 (all.1 (h.have_token, h.distinct, none_in _)),
    )
