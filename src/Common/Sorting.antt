-- ===== src/Common/Sorting.antt =====
-- Go's order on strings, and sort.Strings.
use mathlib.Core.Path.{◌≡◌, refl}
use mathlib.Core.Logic.{inl, inr}
use mathlib.Core.Bool.{Bool, true, false, ◌||◌}
use mathlib.Core.List.{List, [], ◌∷◌}
use native.Mathlib.Omega.{arith}
use nisix.Common.Tests.{ltb, ◌==◌, if◌then◌else◌, Bool-cases}
use nisix.Common.Text.{Text, eq_text}
use nisix.Common.Sets.{member}

-- s < t
unfoldable pub less_text : Text → Text → Bool
less_text s [] = false
less_text [] (d ∷ t) = true
less_text (c ∷ s) (d ∷ t) = let rest = less_text s t in if c == d then rest else ltb c d

unfoldable pub insert_text : Text → List Text → List Text
unfolding less_text
insert_text x [] = x ∷ []
insert_text x (y ∷ ys) =
    let rest = insert_text x ys in if less_text y x then y ∷ rest else x ∷ y ∷ ys

-- sort.Strings, slices.Sort
unfoldable pub sort_strings : List Text → List Text
unfolding insert_text
sort_strings [] = []
sort_strings (x ∷ xs) = insert_text x (sort_strings xs)

abbrev pub AllAtLeast : Text → List Text → Type 0
AllAtLeast x [] = Unit
AllAtLeast x (y ∷ ys) = (less_text y x ≡ false) × AllAtLeast x ys

-- No text stands before a smaller one.
abbrev pub IsSorted : List Text → Type 0
IsSorted [] = Unit
IsSorted (x ∷ xs) = AllAtLeast x xs × IsSorted xs

pub less_text_trans :
    (s t u : Text) → less_text s t ≡ false → less_text t u ≡ false → less_text s u ≡ false
unfolding less_text
less_text_trans s t [] h k = refl
less_text_trans [] [] (e ∷ u) h k = k
less_text_trans [] (d ∷ t) (e ∷ u) h k = absurd (cc)
less_text_trans (c ∷ s) [] (e ∷ u) h k = absurd (cc)
less_text_trans (c ∷ s) (d ∷ t) (e ∷ u) h k = ground (arith, less_text_trans s t u)

pub less_text-asym : (s t : Text) → less_text s t ≡ true → less_text t s ≡ false
unfolding less_text
less_text-asym s [] h = absurd (cc)
less_text-asym [] (d ∷ t) h = refl
less_text-asym (c ∷ s) (d ∷ t) h = ground (arith, less_text-asym s t)

AllAtLeast-trans :
    (x y : Text) (ys : List Text) → less_text y x ≡ false → AllAtLeast y ys → AllAtLeast x ys
AllAtLeast-trans x y [] h a = tt
AllAtLeast-trans x y (z ∷ ys) h (k, a) = (less_text_trans z y x k h, AllAtLeast-trans x y ys h a)

AllAtLeast-insert_text :
    (x y : Text) (ys : List Text)
    → less_text y x ≡ false
    → AllAtLeast x ys
    → AllAtLeast x (insert_text y ys)
unfolding insert_text
AllAtLeast-insert_text x y [] h a = (h, tt)
AllAtLeast-insert_text x y (z ∷ ys) h (k, a) = elim (Bool-cases (less_text z y)) [
  | inl e ↦ rw e ((k, AllAtLeast-insert_text x y ys h a))
  | inr e ↦ rw e ((h, (k, a)))
]

insert_text-IsSorted : (x : Text) (ys : List Text) → IsSorted ys → IsSorted (insert_text x ys)
unfolding insert_text
insert_text-IsSorted x [] h = (tt, tt)
insert_text-IsSorted x (y ∷ ys) (a, h) = elim (Bool-cases (less_text y x)) [
  | inl e ↦
      rw e (AllAtLeast-insert_text y x ys (less_text-asym y x e) a, insert_text-IsSorted x ys h)
  | inr e ↦ rw e (((e, AllAtLeast-trans x y ys e a), (a, h)))
]

pub sort_strings-IsSorted : (xs : List Text) → IsSorted (sort_strings xs)
unfolding sort_strings
sort_strings-IsSorted [] = tt
sort_strings-IsSorted (x ∷ xs) = insert_text-IsSorted x (sort_strings xs) (sort_strings-IsSorted xs)

member-insert_text :
    (x : Text) (ys : List Text) (a : Text)
    → member (insert_text x ys) a ≡ (eq_text x a || member ys a)
unfolding insert_text member
member-insert_text x [] a = refl
member-insert_text x (y ∷ ys) a = ground (arith, member-insert_text x ys a)

-- Sorting keeps the elements.
pub member-sort_strings : (xs : List Text) (a : Text) → member (sort_strings xs) a ≡ member xs a
unfolding sort_strings member
member-sort_strings [] a = refl
member-sort_strings (x ∷ xs) a =
    ground (arith, member-insert_text x (sort_strings xs) a, member-sort_strings xs a)
