-- ===== src/Common/Dict.antt =====
-- Go's map[string]V as an association list with distinct keys. The program's results do not depend
-- on the order of an iteration where the model walks the list.
use mathlib.Core.Path.{◌≡◌}
use mathlib.Core.Option.{Option, none, some}
use mathlib.Core.List.{List, [], ◌∷◌}
use native.Mathlib.Omega.{arith}
use nisix.Common.Tests.{if◌then◌else◌}
use nisix.Common.Text.{Text, eq_text, eq_text_iff}

abbrev pub Dict {ℓ} : Type ℓ → Type ℓ
Dict V = List (Text × V)

module _ {ℓ} {V : Type ℓ} where
  -- v, ok := m[k]
  unfoldable pub get : Dict V → Text → Option V
  unfolding eq_text
  get [] k = none
  get ((j, v) ∷ m) k = if eq_text j k then some v else get m k

  -- delete(m, k)
  unfoldable pub remove : Dict V → Text → Dict V
  unfolding eq_text
  remove [] k = []
  remove ((j, v) ∷ m) k = let rest = remove m k in if eq_text j k then rest else (j, v) ∷ rest

  -- m[k] = v
  unfoldable pub put : Dict V → Text → V → Dict V
  unfolding remove
  put m k v = (k, v) ∷ remove m k

  pub get-remove :
      (m : Dict V) (k j : Text) → get (remove m k) j ≡ (if eq_text k j then none else get m j)
  unfolding get remove
  get-remove [] k j = ground arith
  get-remove ((i, v) ∷ m) k j =
      ground (arith, get-remove m k j, eq_text_iff i k, eq_text_iff i j, eq_text_iff k j)

  pub get-put :
      (m : Dict V) (k j : Text) (v : V)
      → get (put m k v) j ≡ (if eq_text k j then some v else get m j)
  unfolding get put
  get-put m k j v = ground (arith, get-remove m k j)
