-- ===== src/Mcp/Names/Fresh.antt =====
-- The loop of uniqueToolName ends, with a name that is new.
use nisix.Common.{
  ℕ, zero, suc, ◌+◌, ◌<◌, ◌≤◌, ◌≡◌, refl, sym, ◌∙◌, inl, inr, true, false, Option, some, List, [],
  ◌∷◌, ◌++◌, arith, length, Bool-cases, some_injective, if◌then◌else◌,
}
use nisix.Common.Text.{Text, codes, eq_text, eq_text_iff}
use nisix.Common.Sets.{member}
use nisix.Common.Decimal.{itoa_injective}
use nisix.Mcp.Names.{candidate, search_name, unique_from, unique_tool_name}

append_injective : (a b c : Text) → a ++ b ≡ a ++ c → b ≡ c
append_injective [] b c e = e
append_injective (x ∷ a) b c e = append_injective a b c (tail_of e)
  where
    tail_of : {s t : Text} → ◌≡◌ {A = Text} (x ∷ s) (x ∷ t) → s ≡ t
    tail_of e = cc

candidate_other :
    (base : Text) (i j : ℕ) → i < j → eq_text (candidate base i) (candidate base j) ≡ false
candidate_other base i j lt = elim (Bool-cases (eq_text (candidate base i) (candidate base j))) [
  | inr e ↦ e
  | inl e ↦ absurd (
      let same = (eq_text_iff (candidate base i) (candidate base j)).0 e in
      let number = itoa_injective i j (append_injective (base ++ codes "_") _ _ same) in
      omega (arith, number))
]

-- The names without one.
without : Text → List Text → List Text
without a [] = []
without a (x ∷ xs) = let rest = without a xs in if eq_text x a then rest else x ∷ rest

member-without :
    (a b : Text) (xs : List Text) → eq_text a b ≡ false → member (without a xs) b ≡ member xs b
unfolding without member
member-without a b [] h = refl
member-without a b (x ∷ xs) h =
    ground (arith, member-without a b xs h, eq_text_iff x a, eq_text_iff x b, eq_text_iff a b)

length-without_le : (a : Text) (xs : List Text) → length (without a xs) ≤ length xs
unfolding without
length-without_le a [] = omega arith
length-without_le a (x ∷ xs) = ground (arith, length-without_le a xs)

length-without :
    (a : Text) (xs : List Text) → member xs a ≡ true → length (without a xs) < length xs
unfolding without member
length-without a [] h = absurd cc
length-without a (x ∷ xs) h = ground (arith, length-without a xs, length-without_le a xs)

-- The search sees only the names of its candidates.
search_name-without :
    (fuel : ℕ) (existing : List Text) (base : Text) (i j : ℕ)
    → i < j
    → search_name fuel (without (candidate base i) existing) base j
      ≡ search_name fuel existing base j
unfolding search_name
search_name-without zero existing base i j lt = refl
search_name-without (suc fuel) existing base i j lt = simp (
  member-without (candidate base i) (candidate base j) existing (candidate_other base i j lt),
  search_name-without fuel existing base i (j + 1) (omega arith),
)

-- A name that the search gives is a new one.
search_name_new :
    (fuel : ℕ) (existing : List Text) (base : Text) (i : ℕ) (n : Text)
    → search_name fuel existing base i ≡ some n
    → member existing n ≡ false
unfolding search_name
search_name_new zero existing base i n e = absurd cc
search_name_new (suc fuel) existing base i n e =
    elim (Bool-cases (member existing (candidate base i))) [
      | inl taken ↦ search_name_new fuel existing base (i + 1) n (let g = rw taken at e in g)
      | inr free ↦ (let g = rw free at e in let same = some_injective g in rw (← same) free)
    ]

-- More rounds than names are enough.
search_name_ends :
    (fuel : ℕ) (existing : List Text) (base : Text) (i : ℕ)
    → length existing < fuel
    → (n : Text) × (search_name fuel existing base i ≡ some n)
unfolding search_name
search_name_ends zero existing base i h = absurd (omega arith)
search_name_ends (suc fuel) existing base i h =
    elim (Bool-cases (member existing (candidate base i))) [
      | inr free ↦ (candidate base i, rw free refl)
      | inl taken ↦
          (let shorter = length-without (candidate base i) existing taken in
            let (n, found) =
              search_name_ends fuel (without (candidate base i) existing) base (i + 1)
                (omega (arith, shorter)) in
            (
              n,
              rw taken
                  (sym (search_name-without fuel existing base i (i + 1) (omega arith)) ∙ found),
            ))
    ]

-- A name for a new tool.
pub record IsFresh (existing : List Text) (answer : Option Text) : Type 0 where
  pub name : Text
  pub given : answer ≡ some name
  pub new : member existing name ≡ false

unique_from-IsFresh :
    (existing : List Text) (base : Text) → IsFresh existing (unique_from existing base)
unique_from-IsFresh existing base = elim (Bool-cases (member existing base)) [
  | inr free ↦ rw free (record { name = base; given = refl; new = free })
  | inl taken ↦
      (let (n, found) = search_name_ends (suc (length existing)) existing base 2 (omega arith) in
        rw taken (record {
          name = n;
          given = found;
          new = search_name_new (suc (length existing)) existing base 2 n found;
        }))
]

-- uniqueToolName ends on every set of names and every base, after at most one round more than there are names,
-- and its answer is not one of the names.
pub unique_tool_name-IsFresh :
    (existing : List Text) (base : Text) → IsFresh existing (unique_tool_name existing base)
unfolding unique_tool_name
unique_tool_name-IsFresh existing base = unique_from-IsFresh existing _
