-- ===== src/Common/Cutsets.antt =====
-- strings.Trim, strings.TrimLeft and strings.TrimRight on ASCII text: the cutset is a test on bytes.
use Prim.Native.Nat.{ℕ}
use mathlib.Core.Bool.{Bool, ◌&&◌}
use mathlib.Core.List.{[], ◌∷◌}
use nisix.Common.Tests.{◌==◌, if◌then◌else◌}
use nisix.Common.Lists.{is_nil}
use nisix.Common.Text.{Text}

unfoldable pub trim_left_of : (ℕ → Bool) → Text → Text
trim_left_of cut [] = []
trim_left_of cut (c ∷ s) = let rest = trim_left_of cut s in if cut c then rest else c ∷ s

unfoldable pub trim_right_of : (ℕ → Bool) → Text → Text
trim_right_of cut [] = []
trim_right_of cut (c ∷ s) =
    let rest = trim_right_of cut s in if is_nil rest && cut c then [] else c ∷ rest

unfoldable pub trim_of : (ℕ → Bool) → Text → Text
unfolding trim_left_of trim_right_of
trim_of cut s = trim_right_of cut (trim_left_of cut s)

abbrev pub is_newline : ℕ → Bool
is_newline c = c == 10

-- strings.TrimRight(s, "\n")
unfoldable pub trim_newlines : Text → Text
unfolding trim_right_of
trim_newlines s = trim_right_of is_newline s
