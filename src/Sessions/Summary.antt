-- ===== src/Sessions/Summary.antt =====
-- internal/sessions/manager.go: the rolling summary of messages that have left the window.
pub mod Bounds
use Prim.Native.Nat.{max}
use nisix.Common.{
  ℕ, ◌+◌, ◌-◌, ◌≤◌, ◌<◌, ◌≡◌, Bool, true, false, ◌&&◌, Option, none, some, List, [], ◌∷◌, ◌++◌, ltb,
  leb, ◌==◌, if◌then◌else◌, length, take, drop, is_nil,
}
use nisix.Common.Text.{Text, codes, trim_space, to_lower, fields, join, index_byte, eq_text}
use nisix.Common.Decimal.{itoa}
use nisix.Sessions.{Entry, ContextMessage}
use nisix.Sessions.Budget.{Budget}

unfoldable pub summary_role : Text → Text
summary_role role =
    if eq_text (to_lower (trim_space role)) (codes "assistant")
    then codes "Assistant"
    else codes "User"

unfoldable pub compact_conversation_text : Text → ℕ → Text
compact_conversation_text text max_len =
    let compacted = join (codes " ") (fields (trim_space text)) in
    if max_len == 0
    then compacted
    else if leb (length compacted) max_len
    then compacted
    else if leb max_len 3
    then take max_len compacted
    else take (max_len - 3) compacted ++ codes "..."

-- fmt.Sprintf("- %s: %s", …)
unfoldable pub summary_line : ContextMessage → Budget → Text
unfolding summary_role compact_conversation_text
summary_line msg budget =
    codes "- "
    ++ (summary_role msg.role
        ++ (codes ": " ++ compact_conversation_text msg.text budget.summary_line_max_chars))

abbrev from_index : Text → Option ℕ → Text
from_index keep none = keep
from_index keep (some i) = if ltb (i + 1) (length keep) then drop (i + 1) keep else keep

-- The last `n` bytes of a text that is longer, without the line that the cut leaves incomplete,
-- unless that is all there is.
unfoldable pub keep_tail : Text → ℕ → Text
keep_tail keep n =
    if ltb n (length keep)
    then (let tail = drop (length keep - n) keep in from_index tail (index_byte tail 10))
    else keep

abbrev pub marker : Text
marker = codes "[older summary trimmed]"

-- The marker in front of what there is room for. `budget.SummaryMaxChars - len(marker) - 1` may be
-- negative in the source, which tests it against 0 as the model does.
unfoldable pub with_marker : Text → ℕ → Text
unfolding keep_tail
with_marker keep max_chars =
    if leb (length keep + length marker + 1) max_chars
    then marker ++ (10 ∷ keep)
    else let max_keep = max_chars - length marker - 1 in
      if leb max_keep 0 then marker else marker ++ (10 ∷ keep_tail keep max_keep)

unfoldable pub append_conversation_summary : Text → ContextMessage → Budget → Text
unfolding summary_line keep_tail with_marker
append_conversation_summary existing msg budget =
    let line = summary_line msg budget in
    if is_nil (trim_space existing)
    then line
    else (let summary = existing ++ (10 ∷ line) in
        if leb (length summary) budget.summary_max_chars
        then summary
        else with_marker (keep_tail summary budget.summary_max_chars) budget.summary_max_chars)

unfoldable pub render_conversation_summary : Entry → Text
render_conversation_summary entry =
    if entry.summarized_messages == 0
    then []
    else if is_nil (trim_space entry.conversation_summary)
    then []
    else codes "Earlier conversation covered "
      ++ (itoa entry.summarized_messages
          ++ (codes " messages. Rolling notes:" ++ (10 ∷ trim_space entry.conversation_summary)))
