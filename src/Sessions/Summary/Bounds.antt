-- ===== src/Sessions/Summary/Bounds.antt =====
-- How long the summary can grow.
use Prim.Native.Nat.{max}
use nisix.Common.{
  ℕ, ◌+◌, ◌-◌, ◌≤◌, ◌<◌, inl, inr, Option, none, some, ◌∷◌, ◌++◌, ltb, leb, ◌==◌, if◌then◌else◌,
  length, take, drop, length-append, length-take, length-drop, arith, Bool-cases,
}
use nisix.Common.Text.{Text, codes, index_byte}
use nisix.Sessions.{ContextMessage}
use nisix.Sessions.Budget.{Budget}
use nisix.Sessions.Summary.{
  summary_role, compact_conversation_text, summary_line, from_index, keep_tail, with_marker,
  append_conversation_summary,
}

abbrev compacted_cases : Text → ℕ → Text
compacted_cases t n =
    if n == 0
    then t
    else if leb (length t) n
    then t
    else if leb n 3
    then take n t
    else take (n - 3) t ++ codes "..."

length-compacted_cases : (t : Text) (n : ℕ) → 0 < n → length (compacted_cases t n) ≤ n
length-compacted_cases t n h =
    ground
      (arith, length-take n t, length-take (n - 3) t, length-append (take (n - 3) t) (codes "..."))

length-compact : (text : Text) (n : ℕ) → 0 < n → length (compact_conversation_text text n) ≤ n
unfolding compact_conversation_text
length-compact text n h = length-compacted_cases _ n h

length-summary_role : (role : Text) → length (summary_role role) ≤ 9
unfolding summary_role
length-summary_role role = ground arith

-- A line is its label, of at most 13 bytes, and the compacted text.
length-summary_line :
    (msg : ContextMessage) (b : Budget)
    → 0 < b.summary_line_max_chars
    → length (summary_line msg b) ≤ 13 + b.summary_line_max_chars
unfolding summary_line
length-summary_line msg b h =
    let text = compact_conversation_text msg.text b.summary_line_max_chars in
    omega (
      arith,
      length-append (summary_role msg.role) (codes ": " ++ text),
      length-summary_role msg.role,
      length-compact msg.text b.summary_line_max_chars h,
    )

length-from_index : (keep : Text) (o : Option ℕ) → length (from_index keep o) ≤ length keep
length-from_index keep none = omega arith
length-from_index keep (some i) = ground (arith, length-drop (i + 1) keep)

length-keep_tail : (keep : Text) (n : ℕ) → length (keep_tail keep n) ≤ n
unfolding keep_tail
length-keep_tail keep n = elim (Bool-cases (ltb n (length keep))) [
  | inl e ↦
      let tail = drop (length keep - n) keep in
      rw e (
        omega
          (arith, length-from_index tail (index_byte tail 10), length-drop (length keep - n) keep))
  | inr e ↦ rw e (ground arith)
]

length-with_marker : (keep : Text) (n : ℕ) → length (with_marker keep n) ≤ max n 23
unfolding with_marker
length-with_marker keep n = ground (arith, length-keep_tail keep (n - 23 - 1))

-- A summary is never longer than the budget, or than one line with its label where that is longer,
-- or than the marker of a trimmed summary, which has 23 bytes.
pub length-append_conversation_summary :
    (existing : Text) (msg : ContextMessage) (b : Budget)
    → 0 < b.summary_line_max_chars
    → length (append_conversation_summary existing msg b)
      ≤ max b.summary_max_chars (max 23 (13 + b.summary_line_max_chars))
unfolding append_conversation_summary
length-append_conversation_summary existing msg b h = ground (
  arith,
  length-summary_line msg b h,
  length-with_marker (keep_tail (existing ++ (10 ∷ summary_line msg b)) b.summary_max_chars)
      b.summary_max_chars,
)
