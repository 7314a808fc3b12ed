-- ===== src/Telegram/Dedupe.antt =====
-- internal/channels/telegram.go: isDuplicateUpdate, the window of updates that were seen.
pub mod Window
use nisix.Common.{
  ℕ, zero, suc, ◌+◌, ◌-◌, ◌≤◌, ◌<◌, ◌≡◌, refl, sym, ap, ◌∙◌, ◌↔◌, inl, inr, Bool, true, false, not,
  ◌&&◌, ◌||◌, List, [], ◌∷◌, ◌++◌, ltb, ◌==◌, if◌then◌else◌, length, take, drop, length-append,
  length-drop, drop-append, take-suc, arith, Bool-cases,
}
use nisix.Common.Int.{ℤ, pos, negsuc, positive_or-pos}
use nisix.Telegram.{Adapter}

-- A lookup in map[int]struct{}, and delete.
unfoldable pub has : List ℕ → ℕ → Bool
has [] n = false
has (x ∷ xs) n = x == n || has xs n

unfoldable pub delete : List ℕ → ℕ → List ℕ
delete [] n = []
delete (x ∷ xs) n = let rest = delete xs n in if x == n then rest else x ∷ rest

-- The oldest update leaves once there are more than the window takes.
unfoldable pub shrink : ℕ → List ℕ → List ℕ → Adapter → Adapter
shrink window [] set t = record t { seen_update_order = []; seen_update_set = set }
shrink window (oldest ∷ order) set t =
    if ltb window (length (oldest ∷ order))
    then record t { seen_update_order = order; seen_update_set = delete set oldest }
    else record t { seen_update_order = oldest ∷ order; seen_update_set = set }

unfoldable pub see : Adapter → ℕ → Adapter × Bool
unfolding has shrink
see t id =
    if has t.seen_update_set id
    then (t, true)
    else (shrink t.dedupe_window (t.seen_update_order ++ id ∷ []) (id ∷ t.seen_update_set) t, false)

unfoldable pub is_duplicate_update : Adapter → ℤ → Adapter × Bool
unfolding see
is_duplicate_update t (negsuc n) = (t, false)
is_duplicate_update t (pos zero) = (t, false)
is_duplicate_update t (pos (suc n)) = if t.dedupe_window == 0 then (t, false) else see t (suc n)
