-- ===== src/Common/TextLaws.antt =====
-- Laws of the string functions: trimming and lowering are idempotent and commute.
use Prim.Native.Nat.{ℕ}
use mathlib.Core.Path.{◌≡◌, refl, ap, ◌∙◌}
use mathlib.Core.Logic.{◌≢◌, inl, inr}
use mathlib.Core.Bool.{false}
use mathlib.Core.List.{List, [], ◌∷◌, ◌++◌}
use native.Mathlib.Omega.{arith}
use nisix.Common.Tests.{Bool-cases, ◌==◌}
use nisix.Common.Lists.{is_nil, All}
use nisix.Common.Text.{
  Text, is_space, trim_left, trim_right, trim_space, lower_byte, to_lower, split_byte, cons_head,
}

-- No space at the front.
abbrev pub StartsPlain : Text → Type 0
StartsPlain [] = Unit
StartsPlain (c ∷ s) = is_space c ≡ false

trim_left-StartsPlain : (s : Text) → StartsPlain (trim_left s)
unfolding trim_left
trim_left-StartsPlain [] = tt
trim_left-StartsPlain (c ∷ s) = elim (Bool-cases (is_space c)) [
  | inl e ↦ rw e (trim_left-StartsPlain s)
  | inr e ↦ rw e e
]

trim_left_of_StartsPlain : (s : Text) → StartsPlain s → trim_left s ≡ s
unfolding trim_left
trim_left_of_StartsPlain [] h = refl
trim_left_of_StartsPlain (c ∷ s) h = rw h

trim_right-StartsPlain : (s : Text) → StartsPlain s → StartsPlain (trim_right s)
unfolding trim_right
trim_right-StartsPlain [] h = tt
trim_right-StartsPlain (c ∷ s) h = ground arith

trim_right_idem : (s : Text) → trim_right (trim_right s) ≡ trim_right s
unfolding trim_right
trim_right_idem [] = refl
trim_right_idem (c ∷ s) = ground (arith, trim_right_idem s)

pub trim_space_idem : (s : Text) → trim_space (trim_space s) ≡ trim_space s
unfolding trim_space
trim_space_idem s =
    ap trim_right (trim_left_of_StartsPlain _ (trim_right-StartsPlain _ (trim_left-StartsPlain s)))
    ∙ trim_right_idem (trim_left s)

lower_byte_idem : (c : ℕ) → lower_byte (lower_byte c) ≡ lower_byte c
unfolding lower_byte
lower_byte_idem c = ground arith

is_space-lower_byte : (c : ℕ) → is_space (lower_byte c) ≡ is_space c
unfolding lower_byte is_space
is_space-lower_byte c = ground arith

pub to_lower_idem : (s : Text) → to_lower (to_lower s) ≡ to_lower s
unfolding to_lower
to_lower_idem [] = refl
to_lower_idem (c ∷ s) = cc (lower_byte_idem c, to_lower_idem s)

trim_left-to_lower : (s : Text) → trim_left (to_lower s) ≡ to_lower (trim_left s)
unfolding to_lower trim_left
trim_left-to_lower [] = refl
trim_left-to_lower (c ∷ s) = elim (Bool-cases (is_space c)) [
  | inl e ↦ rw (e, is_space-lower_byte c ∙ e) (trim_left-to_lower s)
  | inr e ↦ rw (e, is_space-lower_byte c ∙ e)
]

pub is_nil-to_lower : (s : Text) → is_nil (to_lower s) ≡ is_nil s
unfolding to_lower
is_nil-to_lower [] = refl
is_nil-to_lower (c ∷ s) = refl

trim_right-to_lower : (s : Text) → trim_right (to_lower s) ≡ to_lower (trim_right s)
unfolding to_lower trim_right
trim_right-to_lower [] = refl
trim_right-to_lower (c ∷ s) =
    ground (arith, trim_right-to_lower s, is_space-lower_byte c, is_nil-to_lower (trim_right s))

-- strings.ToLower and strings.TrimSpace commute.
pub trim_space-to_lower : (s : Text) → trim_space (to_lower s) ≡ to_lower (trim_space s)
unfolding trim_space
trim_space-to_lower s = ap trim_right (trim_left-to_lower s) ∙ trim_right-to_lower (trim_left s)

-- Normalising a name twice, the way that the program does, changes nothing.
pub normal_idem :
    (s : Text) → to_lower (trim_space (to_lower (trim_space s))) ≡ to_lower (trim_space s)
normal_idem s = simp (trim_space-to_lower, trim_space_idem, to_lower_idem)

split_byte-ne-nil : (b : ℕ) (s : Text) → split_byte b s ≢ []
unfolding split_byte
split_byte-ne-nil b [] = λ e. cc
split_byte-ne-nil b (c ∷ s) = ground arith

cons_head-append :
    (c : ℕ) (xs ys : List Text) → xs ≢ [] → cons_head c (xs ++ ys) ≡ cons_head c xs ++ ys
cons_head-append c [] ys h = absurd (h refl)
cons_head-append c (x ∷ xs) ys h = refl

-- A separator splits a text into what stands before it and what stands behind it.
pub split_byte-append :
    (b : ℕ) (s t : Text) → split_byte b (s ++ b ∷ t) ≡ split_byte b s ++ split_byte b t
unfolding split_byte
split_byte-append b [] t = ground arith
split_byte-append b (c ∷ s) t = elim (Bool-cases (c == b)) [
  | inl e ↦ rw (e, split_byte-append b s t)
  | inr e ↦
      rw (e, split_byte-append b s t)
        (cons_head-append c (split_byte b s) (split_byte b t) (split_byte-ne-nil b s))
]

-- A text without the separator is one piece.
pub split_byte_single : (b : ℕ) (s : Text) → All (λ (c : ℕ). c ≢ b) s → split_byte b s ≡ s ∷ []
unfolding split_byte
split_byte_single b [] h = refl
split_byte_single b (c ∷ s) (ne, h) = ground (arith, split_byte_single b s h)

-- Trimming keeps what holds of every byte.
All-trim_left : (P : ℕ → Type 0) (s : Text) → All P s → All P (trim_left s)
unfolding trim_left
All-trim_left P [] h = tt
All-trim_left P (c ∷ s) (p, h) = ground (arith, All-trim_left P s h)

All-trim_right : (P : ℕ → Type 0) (s : Text) → All P s → All P (trim_right s)
unfolding trim_right
All-trim_right P [] h = tt
All-trim_right P (c ∷ s) (p, h) = ground (arith, All-trim_right P s h)

pub All-trim_space : (P : ℕ → Type 0) (s : Text) → All P s → All P (trim_space s)
unfolding trim_space
All-trim_space P s h = All-trim_right P (trim_left s) (All-trim_left P s h)
