-- ===== src/Tests/Choosing.antt =====
-- internal/skills/selector.go on concrete messages.
use nisix.Common.{◌≡◌, refl, true, [], ◌∷◌, ◌++◌, All}
use nisix.Common.Text.{Text, codes, eq_text, trim_space, to_lower, split_byte, fields, contains}
use nisix.Common.Int.{pos, positive_or}
use nisix.Common.Sets.{AllDistinct, add, member}
use nisix.Skills.{Skill}
use nisix.Skills.Explicit.{extract_explicit_invocations}
use nisix.Skills.Explicit.Invocations.{IsNormal, extract_explicit_invocations-IsNormal}
use nisix.Skills.Matching.{select_auto_matched_skills, less}
use nisix.Skills.Matching.Ranking.{IsSelection, select_auto_matched_skills-IsSelection}

abbrev skill_of : Text → Text → Skill
skill_of name description = record {
  name = name;
  description = description;
  path = [];
  body = [];
  enabled = true;
  reason = [];
}

abbrev deploy : Skill
deploy = skill_of (codes "Deploy") (codes "ship a build")

abbrev review : Skill
review = skill_of (codes "Review") (codes "read a build log")

abbrev message : Text
message = codes "/skill Deploy now" ++ (10 ∷ codes "!skill deploy")

extract_test : extract_explicit_invocations message ≡ codes "deploy" ∷ []
unfolding extract_explicit_invocations split_byte fields trim_space eq_text to_lower member
extract_test = refl

extract_explicit_invocations-IsNormal_example :
    All IsNormal (extract_explicit_invocations message)
    × AllDistinct (extract_explicit_invocations message)
extract_explicit_invocations-IsNormal_example = extract_explicit_invocations-IsNormal message

select_auto_test :
    select_auto_matched_skills (codes "Ship the build!") (review ∷ deploy ∷ []) (pos 1)
    ≡ deploy ∷ []
unfolding select_auto_matched_skills positive_or to_lower add contains trim_space less
select_auto_test = refl

select_auto_matched_skills-IsSelection_example :
    IsSelection
      (codes "Ship the build!")
      (review ∷ deploy ∷ [])
      (pos 1)
      (select_auto_matched_skills (codes "Ship the build!") (review ∷ deploy ∷ []) (pos 1))
select_auto_matched_skills-IsSelection_example =
    select_auto_matched_skills-IsSelection (codes "Ship the build!") (review ∷ deploy ∷ []) (pos 1)
