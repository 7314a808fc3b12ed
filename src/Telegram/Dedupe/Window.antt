-- ===== src/Telegram/Dedupe/Window.antt =====
-- The updates that are refused: those among the last ones that were let through.
use nisix.Common.{
  ℕ, zero, suc, ◌-◌, ◌<◌, ◌≡◌, refl, sym, ap, ◌∙◌, inl, inr, Bool, false, ◌||◌, Option, List, [],
  ◌∷◌, ◌++◌, ltb, ◌==◌, if◌then◌else◌, length, drop, length-append, length-drop, drop-append,
  take-suc, drop_all, arith, Bool-cases,
}
use nisix.Common.Text.{Text}
use nisix.Common.Int.{ℤ, pos, negsuc, positive_or-pos}
use nisix.Telegram.{Adapter, TelegramOptions, options_or, new_telegram_adapter}
use nisix.Telegram.Dedupe.{has, delete, shrink, see, is_duplicate_update}

has-append : (xs : List ℕ) (n m : ℕ) → has (xs ++ n ∷ []) m ≡ (has xs m || n == m)
unfolding has
has-append [] n m = ground arith
has-append (x ∷ xs) n m = ground (arith, has-append xs n m)

has-delete : (xs : List ℕ) (k m : ℕ) → has (delete xs k) m ≡ (if k == m then false else has xs m)
unfolding has delete
has-delete [] k m = ground arith
has-delete (x ∷ xs) k m = ground (arith, has-delete xs k m)

abbrev Distinct : List ℕ → Type 0
Distinct [] = Unit
Distinct (x ∷ xs) = (has xs x ≡ false) × Distinct xs

Distinct-append : (xs : List ℕ) (n : ℕ) → Distinct xs → has xs n ≡ false → Distinct (xs ++ n ∷ [])
unfolding has
Distinct-append [] n d h = (refl, tt)
Distinct-append (x ∷ xs) n d h =
    (ground (arith, has-append xs n x), Distinct-append xs n d.1 (ground arith))

-- The state after the updates `let_through`: the order holds the last of them, the set the same ones.
record Seen (let_through : List ℕ) (t : Adapter) : Type 0 where
  order : t.seen_update_order ≡ drop (length let_through - t.dedupe_window) let_through
  agrees : (m : ℕ) → has t.seen_update_set m ≡ has t.seen_update_order m
  distinct : Distinct t.seen_update_order

-- A new order and a new set that agree, before one update leaves.
record Grown (window : ℕ) (let_through order set : List ℕ) : Type 0 where
  order_is : order ≡ drop (length let_through - 1 - window) let_through
  agree : (m : ℕ) → has set m ≡ has order m
  apart : Distinct order

agrees_after :
    (oldest : ℕ) (order set : List ℕ) (m : ℕ)
    → has set m ≡ has (oldest ∷ order) m
    → has order oldest ≡ false
    → has (delete set oldest) m ≡ has order m
unfolding has
agrees_after oldest order set m same fresh = rw has-delete (elim (Bool-cases (oldest == m)) [
  | inl e ↦ rw e (let q : oldest ≡ m = ground arith in sym fresh ∙ ap (has order) q)
  | inr e ↦ rw e (ground arith)
])

shrink-Seen :
    (t : Adapter) (let_through order set : List ℕ)
    → Grown t.dedupe_window let_through order set
    → 0 < length let_through
    → Seen let_through (shrink t.dedupe_window order set t)
unfolding shrink
shrink-Seen t acc [] set g h =
    let k = length acc - 1 - t.dedupe_window in
    let n = ap length g.order_is in let n' = length-drop k acc in absurd (omega arith)
shrink-Seen t acc (oldest ∷ order) set g h =
    elim (Bool-cases (ltb t.dedupe_window (length (oldest ∷ order)))) [
      | inl full ↦ rw full (
          let k = length acc - 1 - t.dedupe_window in
          let n = ap length g.order_is in
          let n' = length-drop k acc in
          let next : length acc - t.dedupe_window ≡ suc k = ground arith in
          record {
            order = rw next (sym ((take-suc k acc (sym g.order_is)).0));
            agrees = λ m. agrees_after oldest order set m (g.agree m) g.apart.0;
            distinct = g.apart.1;
          })
      | inr fits ↦ rw fits (
          let k = length acc - 1 - t.dedupe_window in
          let n = ap length g.order_is in
          let n' = length-drop k acc in
          let next : length acc - t.dedupe_window ≡ k = ground arith in
          record { order = rw next g.order_is; agrees = g.agree; distinct = g.apart })
    ]

see-Seen :
    (t : Adapter) (let_through : List ℕ) (id : ℕ)
    → Seen let_through t
    → ((see t id).1 ≡ has (drop (length let_through - t.dedupe_window) let_through) id)
      × Seen (if (see t id).1 then let_through else let_through ++ id ∷ []) (see t id).0
unfolding see
see-Seen t acc id w = elim (Bool-cases (has t.seen_update_set id)) [
  | inl old ↦ rw old (sym old ∙ (w.agrees id) ∙ ap (λ (l : List ℕ). has l id) w.order, w)
  | inr new ↦ rw new (
    sym new ∙ (w.agrees id) ∙ ap (λ (l : List ℕ). has l id) w.order,
    shrink-Seen t (acc ++ id ∷ []) (t.seen_update_order ++ id ∷ []) (id ∷ t.seen_update_set)
        (record {
          order_is =
              ap (λ (l : List ℕ). l ++ id ∷ []) w.order
              ∙ (let n = length-append acc (id ∷ []) in
                  let k : length (acc ++ id ∷ []) - 1 - t.dedupe_window
                      ≡ length acc - t.dedupe_window =
                    omega arith in
                  rw k
                    (sym (drop-append (length acc - t.dedupe_window) acc (id ∷ []) (omega arith))));
          agree = λ m.
              has_cons id t.seen_update_set m
              ∙ grown_has id m (w.agrees m)
              ∙ sym (has-append t.seen_update_order id m);
          apart = Distinct-append t.seen_update_order id w.distinct (sym (w.agrees id) ∙ new);
        })
        (let n = length-append acc (id ∷ []) in omega arith),
  )
]
  where
    has_cons : (n : ℕ) (xs : List ℕ) (m : ℕ) → has (n ∷ xs) m ≡ (n == m || has xs m)
    has_cons n xs m = refl

    grown_has : (n m : ℕ) {a b : Bool} → a ≡ b → (n == m || a) ≡ (b || n == m)
    grown_has n m e = ground arith

shrink-window :
    (window : ℕ) (order set : List ℕ) (t : Adapter)
    → (shrink window order set t).dedupe_window ≡ t.dedupe_window
unfolding shrink
shrink-window window [] set t = refl
shrink-window window (x ∷ xs) set t = ground arith

see-window : (t : Adapter) (id : ℕ) → (see t id).0.dedupe_window ≡ t.dedupe_window
unfolding see
see-window t id = ground (
  arith,
  shrink-window t.dedupe_window (t.seen_update_order ++ id ∷ []) (id ∷ t.seen_update_set) t,
)

-- The answers of isDuplicateUpdate on updates in order.
pub answers : Adapter → List ℤ → List Bool
answers t [] = []
answers t (id ∷ ids) = let (t', duplicate) = is_duplicate_update t id in duplicate ∷ answers t' ids

-- What they should be, from the updates let through so far: an update with a positive id is a
-- duplicate exactly if it is among the last `window` of them.
unfoldable pub expected : ℕ → List ℕ → List ℤ → List Bool
expected window let_through [] = []
expected window let_through (negsuc n ∷ ids) = false ∷ expected window let_through ids
expected window let_through (pos zero ∷ ids) = false ∷ expected window let_through ids
expected window let_through (pos (suc n) ∷ ids) =
    let duplicate = has (drop (length let_through - window) let_through) (suc n) in
    duplicate ∷ expected window (if duplicate then let_through else let_through ++ suc n ∷ []) ids

answers-eq-expected :
    (ids : List ℤ) (let_through : List ℕ) (t : Adapter)
    → Seen let_through t
    → 0 < t.dedupe_window
    → answers t ids ≡ expected t.dedupe_window let_through ids
unfolding answers expected is_duplicate_update
answers-eq-expected [] acc t w h = refl
answers-eq-expected (negsuc n ∷ ids) acc t w h =
    ap (λ (l : List Bool). false ∷ l) (answers-eq-expected ids acc t w h)
answers-eq-expected (pos zero ∷ ids) acc t w h =
    ap (λ (l : List Bool). false ∷ l) (answers-eq-expected ids acc t w h)
answers-eq-expected (pos (suc n) ∷ ids) acc t w h =
    let positive : (t.dedupe_window == 0) ≡ false = ground arith in
    let (same, next) = see-Seen t acc (suc n) w in
    let t' = (see t (suc n)).0 in
    let window = see-window t (suc n) in
    rw (positive, ← same)
      (ap (λ (l : List Bool). (see t (suc n)).1 ∷ l)
        (answers-eq-expected ids (if (see t (suc n)).1 then acc else acc ++ suc n ∷ []) t' next
            (omega arith)
          ∙ ap (λ (k : ℕ). expected k (if (see t (suc n)).1 then acc else acc ++ suc n ∷ []) ids)
              window))

-- A new adapter refuses exactly the updates whose positive id is among the last `dedupe_window` ones
-- that it let through, whatever the sequence of updates.
pub answers-new :
    (token : Text) (options : Option TelegramOptions) (ids : List ℤ)
    → answers (new_telegram_adapter token options) ids
      ≡ expected (new_telegram_adapter token options).dedupe_window [] ids
unfolding new_telegram_adapter
answers-new token options ids =
    answers-eq-expected ids [] (new_telegram_adapter token options)
      (record { order = sym (drop_all _ [] (omega arith)); agrees = λ m. refl; distinct = tt })
      (positive_or-pos (options_or options).dedupe_window 2048 (omega arith))
