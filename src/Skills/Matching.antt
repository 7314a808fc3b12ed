-- ===== src/Skills/Matching.antt =====
-- internal/skills/selector.go: selectAutoMatchedSkills, the skills whose words a message has.
pub mod Ranking
use nisix.Common.{
  ℕ, ◌+◌, Bool, true, false, ◌&&◌, ◌||◌, List, [], ◌∷◌, ◌++◌, ◌==◌, ltb, leb, if◌then◌else◌, is_nil,
  map,
}
use nisix.Common.Text.{Text, trim_space, to_lower, contains, push_word}
use nisix.Common.Int.{ℤ}
use nisix.Common.Sets.{add}
use nisix.Common.Sorting.{less_text}
use nisix.Skills.{Skill, first_of}

-- [a-z0-9]
unfoldable pub is_token_byte : ℕ → Bool
is_token_byte c = (leb 97 c && leb c 122) || (leb 48 c && leb c 57)

-- The run of token bytes that a text starts with, and the runs behind it.
unfoldable pub runs : Text → Text × List Text
unfolding is_token_byte
runs [] = ([], [])
runs (c ∷ s) = let (w, ws) = runs s in if is_token_byte c then (c ∷ w, ws) else ([], push_word w ws)

-- A set of texts, as a list without repetition.
unfoldable pub set_of : List Text → List Text
set_of [] = []
set_of (x ∷ xs) = add (set_of xs) x

unfoldable pub tokenize : Text → List Text
unfolding runs set_of
tokenize text = let (w, ws) = runs (to_lower text) in set_of (push_word w ws)

-- The number of tokens in a skill's text; a token is never empty.
unfoldable pub score_in : Text → List Text → ℕ
score_in haystack [] = 0
score_in haystack (tok ∷ toks) =
    let rest = score_in haystack toks in if contains haystack tok then rest + 1 else rest

unfoldable pub haystack_of : Skill → Text
haystack_of s = to_lower (trim_space (s.name ++ (32 ∷ (s.description ++ (32 ∷ s.body)))))

pub record ScoredSkill : Type 0 where
  pub skill : Skill
  pub score : ℕ

unfoldable pub score_all : List Text → List Skill → List ScoredSkill
unfolding score_in haystack_of
score_all tokens [] = []
score_all tokens (s ∷ enabled) =
    let rest = score_all tokens enabled in
    let score = score_in (haystack_of s) tokens in
    if ltb 0 score then record { skill = s; score = score } ∷ rest else rest

-- The order of sort.SliceStable.
unfoldable pub less : ScoredSkill → ScoredSkill → Bool
unfolding less_text
less a b =
    if a.score == b.score
    then less_text (to_lower a.skill.name) (to_lower b.skill.name)
    else ltb b.score a.score

-- A stable sort: an element stays before those that are not less than it.
unfoldable pub insert : ScoredSkill → List ScoredSkill → List ScoredSkill
insert a [] = a ∷ []
insert a (b ∷ bs) = let rest = insert a bs in if less b a then b ∷ rest else a ∷ b ∷ bs

unfoldable pub sort_stable : List ScoredSkill → List ScoredSkill
unfolding insert
sort_stable [] = []
sort_stable (a ∷ rest) = insert a (sort_stable rest)

unfoldable pub select_auto_matched_skills : Text → List Skill → ℤ → List Skill
unfolding tokenize score_all sort_stable first_of
select_auto_matched_skills message enabled max_injected =
    first_of
      (map (λ (s : ScoredSkill). s.skill) (sort_stable (score_all (tokenize message) enabled)))
      max_injected
