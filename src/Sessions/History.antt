-- ===== src/Sessions/History.antt =====
-- internal/sessions/manager.go: HistoryPageFiltered, on the bytes of a transcript.
pub mod Filters
pub mod Pages
use Prim.Native.Nat.{min}
use nisix.Common.{
  ℕ, ◌+◌, ◌-◌, ◌%◌, ◌^◌, Bool, true, false, ◌&&◌, ◌||◌, not, Option, none, some, List, [], ◌∷◌,
  ◌==◌, ltb, leb, if◌then◌else◌, length, take, drop, is_nil,
}
use nisix.Common.Text.{Text, trim_space, eq_text}
use nisix.Common.Int.{ℤ, pos, negsuc, positive_or, int_limit}
use nisix.Common.Decimal.{itoa, atoi}
use nisix.Sessions.{Entry, MessageRecord}
use nisix.Sessions.Transcript.{Codec, record_of, lines}

-- A time of 0 is Go's zero time: no bound.
pub record HistoryFilter : Type 0 where
  pub limit : ℤ
  pub role : Text
  pub from : ℕ
  pub to : ℕ
  pub before : ℕ
  pub after : ℕ
  pub cursor : Text

pub record HistoryPage : Type 0 where
  pub messages : List MessageRecord
  pub next_cursor : Text
  pub prev_cursor : Text
  pub total : ℕ

-- The guards of the loop, in order; each that holds skips the record.
unfoldable pub passes : HistoryFilter → MessageRecord → Bool
passes f rec =
    if not (is_nil f.role) && not (eq_text rec.role f.role)
    then false
    else if not (f.from == 0) && ltb rec.at f.from
    then false
    else if not (f.to == 0) && ltb f.to rec.at
    then false
    else if not (f.before == 0) && not (ltb rec.at f.before)
    then false
    else if not (f.after == 0) && not (ltb f.after rec.at)
    then false
    else true

abbrev keep : HistoryFilter → Option MessageRecord → List MessageRecord → List MessageRecord
keep f none rest = rest
keep f (some rec) rest = if passes f rec then rec ∷ rest else rest

-- The loop over the lines.
unfoldable pub collect : Codec → Entry → HistoryFilter → List Text → List MessageRecord
collect c entry f [] = []
collect c entry f (line ∷ rest) = keep f (record_of c entry line) (collect c entry f rest)

abbrev parsed_start : Option ℤ → ℕ
parsed_start none = 0
parsed_start (some (pos n)) = n
parsed_start (some (negsuc n)) = 0

-- `start` after the cursor, the default and both clamps.
unfoldable pub page_start : Text → ℕ → ℕ → ℕ
page_start cursor limit total =
    let trimmed = trim_space cursor in
    let first =
      if not (is_nil trimmed)
      then parsed_start (atoi trimmed)
      else if ltb limit total
      then total - limit
      else 0 in
    if ltb total first then total else first

-- out[start:end]; none where the indices are not in their order within the length.
unfoldable pub slice : List MessageRecord → ℕ → ℕ → Option (List MessageRecord)
slice out start end =
    if leb start end && leb end (length out)
    then some (take (end - start) (drop start out))
    else none

abbrev pub page_with :
    ℕ → ℕ → List MessageRecord → ℕ → Option (List MessageRecord) → Option HistoryPage
page_with start limit out end none = none
page_with start limit out end (some messages) = some (record {
  messages = messages;
  next_cursor = if ltb end (length out) then itoa end else [];
  prev_cursor = if ltb 0 start then itoa (start - limit) else [];
  total = length out;
})

abbrev pub page_at : ℕ → ℕ → List MessageRecord → ℕ → Option HistoryPage
page_at start limit out end = page_with start limit out end (slice out start end)

-- The page of the records that passed, none where slicing panics. `start + limit` is a sum of int: where it
-- passes 2^63 it is negative, and no clamp applies.
unfoldable pub page : HistoryFilter → List MessageRecord → Option HistoryPage
page f out =
    let limit = positive_or f.limit 50 in
    let start = page_start f.cursor limit (length out) in
    let sum = (start + limit) % 2 ^ 64 in
    if leb int_limit sum
    then none
    else page_at start limit out (if ltb (length out) sum then length out else sum)

abbrev pub no_messages : HistoryPage
no_messages = record { messages = []; next_cursor = []; prev_cursor = []; total = 0 }

-- The page of a transcript; no file is no messages.
unfoldable pub history_page : Codec → Entry → HistoryFilter → Option Text → Option HistoryPage
unfolding collect
history_page c entry f none = some no_messages
history_page c entry f (some b) = page f (collect c entry f (lines b))
