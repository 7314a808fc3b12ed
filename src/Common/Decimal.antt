-- ===== src/Common/Decimal.antt =====
-- strconv.Itoa on natural numbers and strconv.Atoi, with their round trip.
use Prim.Native.Nat.{ℕ, zero, suc, ◌+◌, ◌-◌, ◌*◌, ◌/◌, ◌%◌, ◌≤◌, ◌<◌}
use mathlib.Core.Path.{◌≡◌, refl, ap, ◌∙◌}
use mathlib.Core.Logic.{◌≢◌, inl, inr}
use mathlib.Core.Bool.{Bool, true, false, ◌&&◌}
use mathlib.Core.Option.{Option, none, some}
use mathlib.Core.List.{[], ◌∷◌, ◌++◌}
use native.Mathlib.Omega.{arith}
use nisix.Common.Tests.{ltb, leb, ◌==◌, Bool-cases, if◌then◌else◌}
use nisix.Common.Lists.{All, All-append}
use nisix.Common.Text.{Text, is_space, trim_left, trim_right, trim_space}
use nisix.Common.Int.{ℤ, pos, negsuc, int_limit}

-- The digits of `n`; the fuel is enough when it is above `n`.
digits : ℕ → ℕ → Text
digits zero n = []
digits (suc f) n =
    let rest = digits f (n / 10) in if ltb n 10 then (48 + n) ∷ [] else rest ++ (48 + n % 10) ∷ []

unfoldable pub itoa : ℕ → Text
unfolding digits
itoa n = digits (suc n) n

infixl 5 ◌>>=◌
abbrev ◌>>=◌ : Option ℕ → (ℕ → Option ℕ) → Option ℕ
none >>= k = none
some n >>= k = k n

unfoldable pub parse_digits : ℕ → Text → Option ℕ
parse_digits acc [] = some acc
parse_digits acc (c ∷ s) =
    let rest = parse_digits (acc * 10 + (c - 48)) s in if leb 48 c && leb c 57 then rest else none

-- No digits, or a value out of the range of int, is an error.
abbrev in_range : Bool → Option ℕ → Option ℤ
in_range negative none = none
in_range false (some n) = if ltb n int_limit then some (pos n) else none
in_range true (some zero) = some (pos 0)
in_range true (some (suc n)) = if ltb n int_limit then some (negsuc n) else none

abbrev digits_only : Text → Option ℕ
digits_only [] = none
digits_only (c ∷ s) = parse_digits 0 (c ∷ s)

unfoldable pub atoi : Text → Option ℤ
unfolding parse_digits
atoi [] = none
atoi (c ∷ s) =
    if c == 45
    then in_range true (digits_only s)
    else if c == 43
    then in_range false (digits_only s)
    else in_range false (digits_only (c ∷ s))

parse_digits-append :
    (acc : ℕ) (s t : Text)
    → parse_digits acc (s ++ t) ≡ (parse_digits acc s >>= λ v. parse_digits v t)
unfolding parse_digits
parse_digits-append acc [] t = refl
parse_digits-append acc (c ∷ s) t = ground (arith, parse_digits-append (acc * 10 + (c - 48)) s t)

parse_digits-digits : (f n : ℕ) → n < f → parse_digits 0 (digits f n) ≡ some n
unfolding digits
parse_digits-digits zero n h = absurd (omega arith)
parse_digits-digits (suc f) n h = elim (Bool-cases (ltb n 10)) [
  | inl e ↦ rw e (unfold parse_digits in ground arith)
  | inr e ↦
      rw (e, parse_digits-append, parse_digits-digits f (n / 10) (ground arith))
        (unfold parse_digits in ground arith)
]

abbrev pub IsDigit : ℕ → Type 0
IsDigit c = (48 ≤ c) × (c ≤ 57)

digits-IsDigit : (f n : ℕ) → All IsDigit (digits f n)
unfolding digits
digits-IsDigit zero n = tt
digits-IsDigit (suc f) n = elim (Bool-cases (ltb n 10)) [
  | inl e ↦ rw e ((omega arith, ground arith), tt)
  | inr e ↦
      rw e (All-append IsDigit _ _ (digits-IsDigit f (n / 10)) ((omega arith, omega arith), tt))
]

pub itoa-IsDigit : (n : ℕ) → All IsDigit (itoa n)
unfolding itoa
itoa-IsDigit n = digits-IsDigit (suc n) n

append-ne-nil : (s : Text) (c : ℕ) → s ++ c ∷ [] ≢ []
append-ne-nil [] c e = cc
append-ne-nil (d ∷ s) c e = cc

pub itoa-ne-nil : (n : ℕ) → itoa n ≢ []
unfolding itoa
itoa-ne-nil n = elim (Bool-cases (ltb n 10)) [
  | inl e ↦ rw e (λ h. cc)
  | inr e ↦ rw e (append-ne-nil _ _)
]

-- A decimal reads back as its number.
pub parse_digits-itoa : (n : ℕ) → parse_digits 0 (itoa n) ≡ some n
unfolding itoa
parse_digits-itoa n = parse_digits-digits (suc n) n (omega arith)

atoi_of_IsDigit :
    (s : Text) (n : ℕ)
    → All IsDigit s
    → s ≢ []
    → n < int_limit
    → parse_digits 0 s ≡ some n
    → atoi s ≡ some (pos n)
unfolding atoi
atoi_of_IsDigit [] n d h lt e = absurd (h refl)
atoi_of_IsDigit (c ∷ s) n d h lt e = ground arith

-- strconv.Atoi(strconv.Itoa(n)) is n, for an n in the range of int.
pub atoi-itoa : (n : ℕ) → n < int_limit → atoi (itoa n) ≡ some (pos n)
atoi-itoa n h = atoi_of_IsDigit (itoa n) n (itoa-IsDigit n) (itoa-ne-nil n) h (parse_digits-itoa n)

trim_left-digits : (s : Text) → All IsDigit s → trim_left s ≡ s
unfolding trim_left is_space
trim_left-digits [] h = refl
trim_left-digits (c ∷ s) h = ground arith

trim_right-digits : (s : Text) → All IsDigit s → trim_right s ≡ s
unfolding trim_right is_space
trim_right-digits [] h = refl
trim_right-digits (c ∷ s) (d, h) = ground (arith, trim_right-digits s h)

pub trim_space-itoa : (n : ℕ) → trim_space (itoa n) ≡ itoa n
unfolding trim_space
trim_space-itoa n =
    ap trim_right (trim_left-digits _ (itoa-IsDigit n)) ∙ trim_right-digits _ (itoa-IsDigit n)

pub itoa_injective : (n m : ℕ) → itoa n ≡ itoa m → n ≡ m
itoa_injective n m e = cc (parse_digits-itoa n, parse_digits-itoa m)

-- strconv.FormatInt(v, 10)
unfoldable pub format_int : ℤ → Text
format_int (pos n) = itoa n
format_int (negsuc n) = 45 ∷ itoa (suc n)
