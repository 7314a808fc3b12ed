-- ===== src/Skills.antt =====
-- internal/skills/types.go and selector.go: skills and the choice of those that a message calls for.
pub mod Explicit
pub mod Matching
pub mod Parser
pub mod Loading
use nisix.Common.{ℕ, Bool, List, [], ◌∷◌, ltb, if◌then◌else◌, length, take}
use nisix.Common.Text.{Text}
use nisix.Common.Int.{ℤ, positive_or}

pub record Skill : Type 0 where
  pub name : Text
  pub description : Text
  pub path : Text
  pub body : Text
  pub enabled : Bool
  pub reason : Text

-- The first `max` of them, at least one where there are any: `if maxInjected <= 0 { maxInjected = 1 }`.
unfoldable pub first_of : List Skill → ℤ → List Skill
first_of skills max_injected = take (positive_or max_injected 1) skills
