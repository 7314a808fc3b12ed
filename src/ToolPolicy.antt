-- ===== src/ToolPolicy.antt =====
-- internal/toolpolicy/policy.go: which tools may run.
use nisix.Common.{◌≡◌, ◌↔◌, ◌⊎◌, Bool, true, false, List, [], ◌∷◌, arith, is_nil, if◌then◌else◌}
use nisix.Common.Text.{Text}
use nisix.Common.Sets.{In, member, member_iff}

pub record Policy : Type 0 where
  pub allow : List Text
  pub deny : List Text

unfoldable pub allowed : Policy → Text → Bool
unfolding member
allowed p name =
    if member p.deny name then false else if is_nil p.allow then true else member p.allow name

-- A tool is allowed exactly if it is not on the deny list, and the allow list is empty or has it.
pub allowed_iff :
    (p : Policy) (name : Text)
    → (allowed p name ≡ true) ↔ ((¬ In name p.deny) × ((p.allow ≡ []) ⊎ In name p.allow))
unfolding allowed
allowed_iff p name = go p.allow
  where
    go :
        (allow : List Text)
        → ((if member p.deny name then false else if is_nil allow then true else member allow name)
            ≡ true)
          ↔ ((¬ In name p.deny) × ((allow ≡ []) ⊎ In name allow))
    go [] = ground (arith, member_iff p.deny name)
    go (x ∷ xs) = ground (arith, member_iff p.deny name, member_iff (x ∷ xs) name)
