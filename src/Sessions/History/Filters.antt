-- ===== src/Sessions/History/Filters.antt =====
-- Which records a page of history holds.
use Prim.Native.Nat.{◌%◌, ◌^◌}
use mathlib.Core.Path.{subst}
use nisix.Common.{
  ℕ, ◌≤◌, ◌<◌, ◌≡◌, refl, ◌⊎◌, inl, inr, Bool, true, false, ◌&&◌, Option, none, some, List, [], ◌∷◌,
  ltb, leb, ◌+◌, ◌-◌, length, drop, ◌↔◌, if◌then◌else◌, is_nil, All, All-take, All-drop, arith,
  Bool-cases, some_injective, Option-cases,
}
use nisix.Common.Text.{Text, eq_text_iff}
use nisix.Sessions.{Entry, MessageRecord}
use nisix.Sessions.Transcript.{Codec, record_of, lines}
use nisix.Sessions.History.{
  HistoryFilter, HistoryPage, passes, collect, page, page_start, page_at, slice, history_page,
}
use nisix.Common.Int.{positive_or, int_limit}

-- What the filter asks of a record: its role, and its time within each bound that is set.
pub record InFilter (f : HistoryFilter) (rec : MessageRecord) : Type 0 where
  pub role : (f.role ≡ []) ⊎ (rec.role ≡ f.role)
  pub from : (f.from ≡ 0) ⊎ (f.from ≤ rec.at)
  pub to : (f.to ≡ 0) ⊎ (rec.at ≤ f.to)
  pub before : (f.before ≡ 0) ⊎ (rec.at < f.before)
  pub after : (f.after ≡ 0) ⊎ (f.after < rec.at)

is_nil→nil : (s : Text) → is_nil s ≡ true → s ≡ []
is_nil→nil [] h = refl
is_nil→nil (c ∷ s) h = cc

-- The loop keeps a record exactly if it is in the filter.
passes_iff : (f : HistoryFilter) (rec : MessageRecord) → (passes f rec ≡ true) ↔ InFilter f rec
unfolding passes
passes_iff f rec = (
  λ h. record {
    role = ground (arith, is_nil→nil f.role, eq_text_iff rec.role f.role);
    from = ground arith;
    to = ground arith;
    before = ground arith;
    after = ground arith;
  },
  λ h. ground (arith, is_nil→nil f.role, eq_text_iff rec.role f.role),
)

collect-InFilter :
    (c : Codec) (e : Entry) (f : HistoryFilter) (ls : List Text)
    → All (InFilter f) (collect c e f ls)
unfolding collect
collect-InFilter c e f [] = tt
collect-InFilter c e f (line ∷ rest) = elim (Option-cases (record_of c e line)) [
  | inl missing ↦ rw missing (collect-InFilter c e f rest)
  | inr (rec, found) ↦ elim (Bool-cases (passes f rec)) [
    | inl good ↦ rw (found, good) ((passes_iff f rec).0 good, collect-InFilter c e f rest)
    | inr bad ↦ rw (found, bad) (collect-InFilter c e f rest)
  ]
]

page_at-All :
    (P : MessageRecord → Type 0) (start limit end : ℕ) (out : List MessageRecord) (p : HistoryPage)
    → All P out
    → page_at start limit out end ≡ some p
    → All P p.messages
unfolding slice
page_at-All P start limit end out p h e =
    elim (Bool-cases (leb start end && leb end (length out))) [
      | inl within ↦
          (let g = rw within at e in
            subst (λ (q : HistoryPage). All P q.messages) (some_injective g)
              (All-take P (end - start) (drop start out) (All-drop P start out h)))
      | inr outside ↦ absurd (let g = rw outside at e in cc)
    ]

page-All :
    (P : MessageRecord → Type 0) (f : HistoryFilter) (out : List MessageRecord) (p : HistoryPage)
    → All P out
    → page f out ≡ some p
    → All P p.messages
unfolding page
page-All P f out p h e = go (leb int_limit sum) (sum_end) e
  where
    start : ℕ
    start = page_start f.cursor (positive_or f.limit 50) (length out)

    sum : ℕ
    sum = (start + positive_or f.limit 50) % 2 ^ 64

    sum_end : ℕ
    sum_end = if ltb (length out) sum then length out else sum

    go :
        (b : Bool) (end : ℕ)
        → (if b then none else page_at start (positive_or f.limit 50) out end) ≡ some p
        → All P p.messages
    go true end e' = cc
    go false end e' = page_at-All P start (positive_or f.limit 50) end out p h e'

-- Every message of a page is in the filter: it has the role asked for, and its time is within each
-- bound that is set, `from` and `to` included, `before` and `after` excluded.
pub history_page-InFilter :
    (c : Codec) (e : Entry) (f : HistoryFilter) (file : Option Text) (p : HistoryPage)
    → history_page c e f file ≡ some p
    → All (InFilter f) p.messages
unfolding history_page
history_page-InFilter c e f none p h =
    subst (λ (q : HistoryPage). All (InFilter f) q.messages) (some_injective h) tt
history_page-InFilter c e f (some b) p h =
    page-All (InFilter f) f _ p (collect-InFilter c e f (lines b)) h
