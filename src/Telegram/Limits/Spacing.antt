-- ===== src/Telegram/Limits/Spacing.antt =====
-- How close two messages of one user can be.
use nisix.Common.{
  ℕ, ◌+◌, ◌≤◌, ◌≡◌, refl, ◌∙◌, inl, inr, Bool, true, false, ◌&&◌, Option, none, some, List, [], ◌∷◌,
  ltb, ◌==◌, if◌then◌else◌, arith, Bool-cases, Option-cases, and-true,
}
use nisix.Common.Text.{Text, eq_text, eq_text_iff}
use nisix.Common.Dict
use nisix.Common.Dict.{get-put}
use nisix.Telegram.{Adapter}
use nisix.Telegram.Limits.{allow_by_rate_limit}

-- The times at which messages of one user pass, of messages in order.
unfoldable pub passing : Adapter → Text → List (Text × ℕ) → List ℕ
passing t user [] = []
passing t user ((u, now) ∷ rest) =
    let (t', allowed) = allow_by_rate_limit t u now in
    let later = passing t' user rest in if allowed && eq_text u user then now ∷ later else later

-- Each time is at least an interval after the one before it, and the first after `last`.
abbrev pub SpacedFrom : ℕ → Option ℕ → List ℕ → Type 0
SpacedFrom interval last [] = Unit
SpacedFrom interval none (x ∷ xs) = SpacedFrom interval (some x) xs
SpacedFrom interval (some l) (x ∷ xs) = (l + interval ≤ x) × SpacedFrom interval (some x) xs

spaced_head :
    (interval now : ℕ) (last : Option ℕ) (xs : List ℕ)
    → ((l : ℕ) → last ≡ some l → l + interval ≤ now)
    → SpacedFrom interval (some now) xs
    → SpacedFrom interval last (now ∷ xs)
spaced_head interval now none xs h s = s
spaced_head interval now (some l) xs h s = (h l refl, s)

-- The last time of `user` after a message of `u`.
record Answer (t t' : Adapter) (u : Text) (now : ℕ) (allowed : Bool) : Type 0 where
  interval : t'.min_user_interval ≡ t.min_user_interval
  at :
      (user : Text)
      → Dict.get t'.last_inbound_by_user user
        ≡ (if allowed && eq_text u user then some now else Dict.get t.last_inbound_by_user user)
  spaced :
      allowed ≡ true
      → (l : ℕ) → Dict.get t.last_inbound_by_user u ≡ some l
      → l + t.min_user_interval ≤ now

allow-Answer :
    (t : Adapter) (u : Text) (now : ℕ)
    → (t.min_user_interval == 0) ≡ false
    → Answer t (allow_by_rate_limit t u now).0 u now (allow_by_rate_limit t u now).1
unfolding allow_by_rate_limit
allow-Answer t u now positive = elim (Option-cases (Dict.get t.last_inbound_by_user u)) [
  | inl first ↦
      rw (positive, first)
        (record {
          interval = refl;
          at = λ user. get-put t.last_inbound_by_user u user now;
          spaced = λ _ l e. cc;
        })
  | inr (last, seen) ↦ elim (Bool-cases (ltb now (last + t.min_user_interval))) [
    | inl soon ↦
        rw (positive, seen, soon)
          (record { interval = refl; at = λ user. refl; spaced = λ f l e. cc })
    | inr late ↦
        rw (positive, seen, late)
          (record {
            interval = refl;
            at = λ user. get-put t.last_inbound_by_user u user now;
            spaced = λ _ l e. ground arith;
          })
  ]
]

passing-SpacedFrom :
    (t : Adapter) (user : Text) (ms : List (Text × ℕ)) (interval : ℕ)
    → t.min_user_interval ≡ interval
    → (interval == 0) ≡ false
    → SpacedFrom interval (Dict.get t.last_inbound_by_user user) (passing t user ms)
unfolding passing
passing-SpacedFrom t user [] interval same positive = tt
passing-SpacedFrom t user ((u, now) ∷ rest) interval same positive =
    let a = allow-Answer t u now (rw same positive) in
    let t' = (allow_by_rate_limit t u now).0 in
    let later = passing-SpacedFrom t' user rest interval (a.interval ∙ same) positive in
    elim (Bool-cases ((allow_by_rate_limit t u now).1 && eq_text u user)) [
      | inl passes ↦ rw passes (
          spaced_head interval now (Dict.get t.last_inbound_by_user user) (passing t' user rest)
            (λ l e.
              let (allowed, whose) = and-true _ _ passes in
              let u_user = (eq_text_iff u user).0 whose in
              rw (← same) (a.spaced allowed l (rw u_user e)))
            (rw (a.at user, passes) at later))
      | inr skipped ↦ rw skipped (rw (a.at user, skipped) at later)
    ]

-- Two messages of one user pass only if at least the interval lies between them, whatever other
-- users send in between and however the clock moves.
pub passing_spaced :
    (t : Adapter) (user : Text) (ms : List (Text × ℕ))
    → (t.min_user_interval == 0) ≡ false
    → SpacedFrom t.min_user_interval (Dict.get t.last_inbound_by_user user) (passing t user ms)
passing_spaced t user ms positive = passing-SpacedFrom t user ms t.min_user_interval refl positive
