-- ===== src/Common/Sets.antt =====
-- Lists of texts as Go slices and as sets, map[string]struct{}.
use mathlib.Core.Path.{◌≡◌}
use mathlib.Core.Logic.{◌↔◌, ◌⊎◌}
use mathlib.Core.Bool.{Bool, true, false, ◌||◌}
use mathlib.Core.List.{List, [], ◌∷◌}
use native.Mathlib.Omega.{arith}
use nisix.Common.Tests.{if◌then◌else◌}
use nisix.Common.Text.{Text, eq_text, eq_text_iff}

abbrev pub In : Text → List Text → Type 0
In a [] = ⊥
In a (x ∷ xs) = (x ≡ a) ⊎ In a xs

-- slices.Contains, and a lookup in a set
unfoldable pub member : List Text → Text → Bool
unfolding eq_text
member [] a = false
member (x ∷ xs) a = eq_text x a || member xs a

pub member_iff : (xs : List Text) (a : Text) → (member xs a ≡ true) ↔ In a xs
unfolding member
member_iff [] a = (λ h. cc, λ h. absurd h)
member_iff (x ∷ xs) a = ground (arith, eq_text_iff x a, member_iff xs a)

-- set[a] = struct{}{}
unfoldable pub add : List Text → Text → List Text
unfolding member
add xs a = if member xs a then xs else a ∷ xs

pub member-add : (xs : List Text) (a b : Text) → member (add xs a) b ≡ (eq_text a b || member xs b)
unfolding add member
member-add xs a b = ground (arith, eq_text_iff a b)

-- No text twice.
abbrev pub AllDistinct : List Text → Type 0
AllDistinct [] = Unit
AllDistinct (x ∷ xs) = (member xs x ≡ false) × AllDistinct xs
