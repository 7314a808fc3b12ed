-- ===== src/Skills/Explicit.antt =====
-- internal/skills/selector.go: ExtractExplicitInvocations and selectExplicitSkills.
pub mod Invocations
use nisix.Common.{
  ℕ, Bool, true, false, ◌&&◌, ◌||◌, not, Option, none, some, List, [], ◌∷◌, ◌++◌, ◌==◌,
  if◌then◌else◌, is_nil,
}
use nisix.Common.Text.{Text, codes, eq_text, trim_space, to_lower, split_byte, fields}
use nisix.Common.Int.{ℤ}
use nisix.Common.Sets.{member}
use nisix.Common.Dict
use nisix.Common.Dict.{Dict}
use nisix.Skills.{Skill, first_of}

-- The name in the fields of a line, if the line is a call of a skill.
abbrev pub invocation : List Text → Option Text
invocation [] = none
invocation (f ∷ []) = none
invocation (f ∷ g ∷ fs) =
    let cmd = to_lower (trim_space f) in
    let name = to_lower (trim_space g) in
    if not (eq_text cmd (codes "/skill")) && not (eq_text cmd (codes "!skill"))
    then none
    else if is_nil name
    then none
    else some name

-- A name that was seen before is left out; `seen` holds the names of `out`.
abbrev pub push_name : List Text → Option Text → List Text
push_name out none = out
push_name out (some name) = if member out name then out else out ++ name ∷ []

unfoldable pub extract_from : List Text → List Text → List Text
extract_from out [] = out
extract_from out (line ∷ rest) =
    extract_from (push_name out (invocation (fields (trim_space line)))) rest

unfoldable pub extract_explicit_invocations : Text → List Text
unfolding extract_from
extract_explicit_invocations message = extract_from [] (split_byte 10 message)

-- The map from lower-case names to skills; a later skill replaces an earlier one.
unfoldable pub index_from : Dict Skill → List Skill → Dict Skill
index_from index [] = index
index_from index (s ∷ enabled) = index_from (Dict.put index (to_lower s.name) s) enabled

abbrev pub push_found : Option Skill → List Skill → List Skill
push_found none rest = rest
push_found (some s) rest = s ∷ rest

unfoldable pub look_up : Dict Skill → List Text → List Skill
look_up index [] = []
look_up index (name ∷ names) =
    push_found (Dict.get index (to_lower (trim_space name))) (look_up index names)

unfoldable pub select_explicit_skills : List Text → List Skill → ℤ → List Skill
unfolding index_from look_up first_of
select_explicit_skills explicit enabled max_injected =
    first_of (look_up (index_from [] enabled) explicit) max_injected
