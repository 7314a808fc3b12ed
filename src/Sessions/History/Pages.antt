-- ===== src/Sessions/History/Pages.antt =====
-- The bounds of a page, and reading a whole history page by page.
use Prim.Native.Nat.{◌%◌, ◌^◌, min}
use mathlib.Core.List.{append-nil}
use nisix.Common.{
  ℕ, zero, suc, ◌+◌, ◌-◌, ◌≤◌, ◌<◌, ◌≡◌, ◌≢◌, refl, sym, ap, ◌∙◌, inl, inr, true, false, ◌&&◌,
  Option, none, some, List, [], ◌∷◌, ◌++◌, ltb, leb, if◌then◌else◌, length, take, drop, is_nil,
  length-take, length-drop, take-append-drop, take-length-take, take_all, drop-drop, arith,
  Bool-cases, ltb→lt,
}
use nisix.Common.Text.{Text}
use nisix.Common.Int.{positive_or, positive_or-pos, int_limit}
use nisix.Common.Decimal.{itoa, atoi-itoa, itoa-ne-nil, trim_space-itoa}
use nisix.Sessions.{MessageRecord}
use nisix.Sessions.History.{HistoryFilter, HistoryPage, page_start, page_at, slice, page}

page_start-le : (cursor : Text) (limit total : ℕ) → page_start cursor limit total ≤ total
unfolding page_start
page_start-le cursor limit total = ground arith

-- The limit that a filter asks for, 50 where it asks for none.
abbrev pub limit_of : HistoryFilter → ℕ
limit_of f = positive_or f.limit 50

page_end : ℕ → ℕ → ℕ → ℕ
page_end start limit total = min (start + limit) total

page_end_bounds :
    (start limit total : ℕ)
    → start ≤ total
    → (start ≤ page_end start limit total)
      × (page_end start limit total ≤ total)
      × (page_end start limit total < total → page_end start limit total ≡ start + limit)
unfolding page_end
page_end_bounds start limit total h = (omega arith, omega arith, λ lt. omega arith)

page_end-lem :
    (start limit total : ℕ)
    → total + limit < int_limit
    → start ≤ total
    → (leb int_limit ((start + limit) % 2 ^ 64) ≡ false)
      × ((if ltb total ((start + limit) % 2 ^ 64) then total else (start + limit) % 2 ^ 64)
          ≡ page_end start limit total)
unfolding page_end
page_end-lem start limit total h le =
    let same : (start + limit) % 2 ^ 64 ≡ start + limit = omega arith in
    rw same (ground arith, ground arith)

-- The page from a start within the records on.
expected_page : ℕ → ℕ → List MessageRecord → HistoryPage
expected_page start limit out = record {
  messages = take (page_end start limit (length out) - start) (drop start out);
  next_cursor =
      if ltb (page_end start limit (length out)) (length out)
      then itoa (page_end start limit (length out))
      else [];
  prev_cursor = if ltb 0 start then itoa (start - limit) else [];
  total = length out;
}

page_at-lem :
    (start limit : ℕ) (out : List MessageRecord)
    → start ≤ length out
    → page_at start limit out (page_end start limit (length out))
      ≡ some (expected_page start limit out)
unfolding slice expected_page
page_at-lem start limit out h =
    let (low, high, full) = page_end_bounds start limit (length out) h in
    let fits : (leb start (page_end start limit (length out))
          && leb (page_end start limit (length out)) (length out))
        ≡ true =
      ground arith in
    rw fits refl

page_lem :
    (f : HistoryFilter) (out : List MessageRecord)
    → length out + limit_of f < int_limit
    → page f out
      ≡ some (expected_page (page_start f.cursor (limit_of f) (length out)) (limit_of f) out)
unfolding page
page_lem f out h =
    let (fits, end) =
      page_end-lem (page_start f.cursor (limit_of f) (length out)) (limit_of f) (length out) h
        (page_start-le f.cursor (limit_of f) (length out)) in
    rw (fits, end)
      (page_at-lem (page_start f.cursor (limit_of f) (length out)) (limit_of f) out
        (page_start-le f.cursor (limit_of f) (length out)))

length-page :
    (start limit : ℕ) (out : List MessageRecord)
    → length (expected_page start limit out).messages ≡ min limit (length out - start)
unfolding page_end expected_page
length-page start limit out =
    let n = length-take (min (start + limit) (length out) - start) (drop start out) in
    let m = length-drop start out in omega arith

next_cursor-page :
    (start limit : ℕ) (out : List MessageRecord)
    → length out ≤ start + limit
    → (expected_page start limit out).next_cursor ≡ []
unfolding page_end expected_page
next_cursor-page start limit out h =
    let last : ltb (min (start + limit) (length out)) (length out) ≡ false = ground arith in
    rw last refl

-- For a transcript and a limit that together stay below 2^63 there is always a page, since the slice is within
-- its bounds. The page counts all the records that passed; it holds, without a gap, the records from where the
-- cursor says, as many as the limit or else all that are left, and names no next cursor where none is left.
pub page_bounds :
    (f : HistoryFilter) (out : List MessageRecord)
    → length out + limit_of f < int_limit
    → (p : HistoryPage) × (page f out ≡ some p)
      × (p.total ≡ length out)
      × (length p.messages
          ≡ min (limit_of f) (length out - page_start f.cursor (limit_of f) (length out)))
      × (p.messages
          ≡ take (length p.messages) (drop (page_start f.cursor (limit_of f) (length out)) out))
      × (length out ≤ page_start f.cursor (limit_of f) (length out) + limit_of f
          → p.next_cursor ≡ [])
unfolding expected_page
page_bounds f out h = (
  _,
  page_lem f out h,
  refl,
  length-page _ (limit_of f) out,
  sym (take-length-take _ _),
  next_cursor-page _ (limit_of f) out,
)

is_nil-itoa : (s : ℕ) → is_nil (itoa s) ≡ false
is_nil-itoa s = go (itoa s) (itoa-ne-nil s)
  where
    go : (t : Text) → t ≢ [] → is_nil t ≡ false
    go [] h = absurd (h refl)
    go (c ∷ t) h = refl

page_start-itoa :
    (s limit total : ℕ) → s ≤ total → total < int_limit → page_start (itoa s) limit total ≡ s
unfolding page_start
page_start-itoa s limit total le h =
    rw (trim_space-itoa s, is_nil-itoa s, atoi-itoa s (omega arith)) (ground arith)

-- A client that asks for pages from a cursor on, each with the cursor that the page before named, and
-- stops where a page names none. The first argument bounds the number of its requests; none is a client
-- that was stopped by this bound, or had no answer.
next_pages : (Text → Option (List MessageRecord)) → Text → Option (List MessageRecord)
next_pages rest [] = some []
next_pages rest (c ∷ cs) = rest (c ∷ cs)

behind : List MessageRecord → Option (List MessageRecord) → Option (List MessageRecord)
behind messages none = none
behind messages (some later) = some (messages ++ later)

gather : (Text → Option (List MessageRecord)) → Option HistoryPage → Option (List MessageRecord)
gather rest none = none
gather rest (some p) = behind p.messages (next_pages rest p.next_cursor)

pub follow : ℕ → HistoryFilter → List MessageRecord → Option (List MessageRecord)
follow zero f out = none
follow (suc k) f out = gather (λ cursor. follow k (record f { cursor = cursor }) out) (page f out)

next_pages-filled :
    (rest : Text → Option (List MessageRecord)) (t : Text) → t ≢ [] → next_pages rest t ≡ rest t
unfolding next_pages
next_pages-filled rest [] h = absurd (h refl)
next_pages-filled rest (c ∷ cs) h = refl

next_pages-empty : (rest : Text → Option (List MessageRecord)) → next_pages rest [] ≡ some []
unfolding next_pages
next_pages-empty rest = refl

rest_of_page :
    (s end : ℕ) (out : List MessageRecord)
    → s ≤ end
    → take (end - s) (drop s out) ++ drop end out ≡ drop s out
rest_of_page s end out h =
    let e : end ≡ s + (end - s) = omega arith in
    ap (λ (l : List MessageRecord). take (end - s) (drop s out) ++ l)
      (ap (λ (k : ℕ). drop k out) e ∙ sym (drop-drop (end - s) s out))
    ∙ take-append-drop (end - s) (drop s out)

page-itoa :
    (s : ℕ) (f : HistoryFilter) (out : List MessageRecord)
    → length out + limit_of f < int_limit
    → s ≤ length out
    → page (record f { cursor = itoa s }) out ≡ some (expected_page s (limit_of f) out)
page-itoa s f out h le =
    page_lem (record f { cursor = itoa s }) out h
    ∙ ap (λ (t : ℕ). some (expected_page t (limit_of f) out))
        (page_start-itoa s (limit_of f) (length out) le (omega arith))

follow-eq-drop :
    (k s : ℕ) (f : HistoryFilter) (out : List MessageRecord)
    → length out + limit_of f < int_limit
    → s ≤ length out
    → length out - s < k
    → follow k (record f { cursor = itoa s }) out ≡ some (drop s out)
unfolding follow gather behind expected_page
follow-eq-drop zero s f out h le fuel = absurd (omega arith)
follow-eq-drop (suc k) s f out h le fuel =
    let total = length out in
    let limit = limit_of f in
    let end = page_end s limit total in
    let (low, high, full) = page_end_bounds s limit total le in
    rw (page-itoa s f out h le) (elim (Bool-cases (ltb end total)) [
      | inl more ↦
          (let later = follow-eq-drop k end f out h high (
              let m = ltb→lt end total more in
              let p = positive_or-pos f.limit 50 (omega arith) in let e = full m in omega arith) in
            rw (more, next_pages-filled _ (itoa end) (itoa-ne-nil end), later)
              (ap some (rest_of_page s end out low)))
      | inr last ↦
          rw (last, next_pages-empty)
            (ap some (
              append-nil _
              ∙ take_all (end - s) (drop s out) (let l = length-drop s out in ground arith)))
    ])

-- Reading a history page by page from cursor 0, each page at the cursor that the page before named,
-- gives every record that passed the filter once, in the order of the transcript; and it ends: at most one
-- request more than there are records meets a page that names no cursor.
pub follow_all :
    (f : HistoryFilter) (out : List MessageRecord)
    → length out + limit_of f < int_limit
    → follow (length out + 1) (record f { cursor = itoa 0 }) out ≡ some out
follow_all f out h = follow-eq-drop (length out + 1) 0 f out h (omega arith) (omega arith)
