-- ===== src/Skills/Matching/Ranking.antt =====
-- The skills that match a message are ranked, and the best of them are selected.
use mathlib.Core.List.{Perm}
use mathlib.Core.List.Perm
use nisix.Common.{
  ◌≡◌, ◌<◌, refl, inl, inr, true, false, List, [], ◌∷◌, map, take, All, arith, Bool-cases, ltb,
  ◌==◌, length, select,
}
use nisix.Common.Text.{Text, to_lower, contains}
use nisix.Common.Int.{ℤ, positive_or}
use nisix.Common.Sorting.{less_text, less_text_trans, less_text-asym}
use nisix.Skills.{Skill, first_of}
use nisix.Skills.Matching.{
  ScoredSkill, tokenize, score_all, score_in, haystack_of, less, insert, sort_stable,
  select_auto_matched_skills,
}

-- No skill is less than one before it.
abbrev IsSorted : List ScoredSkill → Type 0
IsSorted [] = Unit
IsSorted (a ∷ as') = All (λ b. less b a ≡ false) as' × IsSorted as'

insert-Perm : (a : ScoredSkill) (bs : List ScoredSkill) → Perm (insert a bs) (a ∷ bs)
unfolding insert
insert-Perm a [] = Perm.refl (a ∷ [])
insert-Perm a (b ∷ bs) = elim (Bool-cases (less b a)) [
  | inl before ↦ rw before (Perm.trans (Perm.cons _ (insert-Perm a bs)) (Perm.swap _ _ _))
  | inr here ↦ rw here (Perm.refl (a ∷ b ∷ bs))
]

sort-Perm : (xs : List ScoredSkill) → Perm (sort_stable xs) xs
unfolding sort_stable
sort-Perm [] = Perm.refl []
sort-Perm (a ∷ xs) = Perm.trans (insert-Perm a (sort_stable xs)) (Perm.cons _ (sort-Perm xs))

less_trans : (a b c : ScoredSkill) → less a b ≡ false → less b c ≡ false → less a c ≡ false
unfolding less
less_trans a b c h k =
    ground (
      arith,
      less_text_trans (to_lower a.skill.name) (to_lower b.skill.name) (to_lower c.skill.name),
    )

less-asym : (a b : ScoredSkill) → less a b ≡ true → less b a ≡ false
unfolding less
less-asym a b h = ground (arith, less_text-asym (to_lower a.skill.name) (to_lower b.skill.name))

pub insert-All :
    (P : ScoredSkill → Type 0) (a : ScoredSkill) (bs : List ScoredSkill)
    → P a
    → All P bs
    → All P (insert a bs)
unfolding insert
insert-All P a [] p h = (p, tt)
insert-All P a (b ∷ bs) p (q, h) = elim (Bool-cases (less b a)) [
  | inl before ↦ rw before (q, insert-All P a bs p h)
  | inr here ↦ rw here (p, (q, h))
]

All-less_trans :
    (a b : ScoredSkill) (xs : List ScoredSkill)
    → less b a ≡ false
    → All (λ x. less x b ≡ false) xs
    → All (λ x. less x a ≡ false) xs
All-less_trans a b [] h k = tt
All-less_trans a b (x ∷ xs) h (p, k) = (less_trans x b a p h, All-less_trans a b xs h k)

insert-IsSorted : (a : ScoredSkill) (bs : List ScoredSkill) → IsSorted bs → IsSorted (insert a bs)
unfolding insert
insert-IsSorted a [] h = (tt, tt)
insert-IsSorted a (b ∷ bs) (p, h) = elim (Bool-cases (less b a)) [
  | inl before ↦
      rw before
        (insert-All (λ x. less x b ≡ false) a bs (less-asym b a before) p, insert-IsSorted a bs h)
  | inr here ↦ rw here ((here, All-less_trans a b bs here p), (p, h))
]

sort-IsSorted : (xs : List ScoredSkill) → IsSorted (sort_stable xs)
unfolding sort_stable
sort-IsSorted [] = tt
sort-IsSorted (a ∷ xs) = insert-IsSorted a (sort_stable xs) (sort-IsSorted xs)

-- A skill with a higher score stands before one with a lower score; with equal scores the names, in lower
-- case, do not fall.
pub data IsBefore (a b : ScoredSkill) : Type 0 where
  higher : b.score < a.score → IsBefore a b
  equal :
      b.score ≡ a.score
      → less_text (to_lower b.skill.name) (to_lower a.skill.name) ≡ false
      → IsBefore a b

abbrev pub IsRanked : List ScoredSkill → Type 0
IsRanked [] = Unit
IsRanked (a ∷ as') = All (IsBefore a) as' × IsRanked as'

less-IsBefore : (a b : ScoredSkill) → less b a ≡ false → IsBefore a b
unfolding less
less-IsBefore a b h = elim (Bool-cases (b.score == a.score)) [
  | inl same ↦ equal (ground arith) (let g = rw same at h in g)
  | inr other ↦ higher (let g = rw other at h in ground arith)
]

less-All :
    (a : ScoredSkill) (xs : List ScoredSkill) → All (λ b. less b a ≡ false) xs → All (IsBefore a) xs
less-All a [] h = tt
less-All a (b ∷ xs) (p, h) = (less-IsBefore a b p, less-All a xs h)

IsSorted-IsRanked : (xs : List ScoredSkill) → IsSorted xs → IsRanked xs
IsSorted-IsRanked [] h = tt
IsSorted-IsRanked (a ∷ xs) (p, h) = (less-All a xs p, IsSorted-IsRanked xs h)

-- A skill with the number of the tokens that its text contains.
pub counted : List Text → Skill → ScoredSkill
counted tokens s = record {
  skill = s;
  score = length (select (λ tok. contains (haystack_of s) tok) tokens);
}

-- The skills that contain a token.
pub matching : List Text → List Skill → List ScoredSkill
matching tokens enabled = select (λ s. ltb 0 s.score) (map (counted tokens) enabled)

score_in-count :
    (haystack : Text) (tokens : List Text)
    → score_in haystack tokens ≡ length (select (λ tok. contains haystack tok) tokens)
unfolding score_in select
score_in-count haystack [] = refl
score_in-count haystack (tok ∷ tokens) = ground (arith, score_in-count haystack tokens)

score_all-matching :
    (tokens : List Text) (enabled : List Skill) → score_all tokens enabled ≡ matching tokens enabled
unfolding score_all matching counted select
score_all-matching tokens [] = refl
score_all-matching tokens (s ∷ enabled) =
    simp (score_in-count (haystack_of s) tokens, score_all-matching tokens enabled)

-- The skills that a message selects: the first ones of a ranking of the matching skills.
pub record IsSelection (message : Text) (enabled : List Skill) (max_injected : ℤ)
    (selected : List Skill) : Type 0 where
  pub ranking : List ScoredSkill
  pub ranked : IsRanked ranking
  pub same : Perm ranking (matching (tokenize message) enabled)
  pub best :
      selected ≡ take (positive_or max_injected 1) (map (λ (s : ScoredSkill). s.skill) ranking)

-- The selected skills are the first ones of a ranking of the enabled skills that contain a token of the message:
-- by falling number of the tokens they contain, and with equal numbers by the name. They are as many as the
-- limit, or one where it is not positive, or else all of them.
pub select_auto_matched_skills-IsSelection :
    (message : Text) (enabled : List Skill) (max_injected : ℤ)
    → IsSelection message enabled max_injected
        (select_auto_matched_skills message enabled max_injected)
unfolding select_auto_matched_skills first_of
select_auto_matched_skills-IsSelection message enabled max_injected =
    let scored = score_all (tokenize message) enabled in
    record {
      ranking = sort_stable scored;
      ranked = IsSorted-IsRanked (sort_stable scored) (sort-IsSorted scored);
      same = rw (← score_all-matching (tokenize message) enabled) (sort-Perm scored);
      best = refl;
    }
