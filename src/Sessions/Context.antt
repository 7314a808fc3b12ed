-- ===== src/Sessions/Context.antt =====
-- internal/sessions/manager.go: the window of recent messages, and the state rebuilt from messages.
pub mod Window
use nisix.Common.{
  ℕ, ◌+◌, ◌≡◌, Bool, true, false, ◌&&◌, ◌||◌, not, List, [], ◌∷◌, ◌++◌, ltb, if◌then◌else◌, length,
  is_nil,
}
use nisix.Common.Text.{Text, codes, trim_space, to_lower, eq_text}
use nisix.Sessions.{Entry, ContextMessage, context_state_version}
use nisix.Sessions.Budget.{Budget, context_state_signature}
use nisix.Sessions.Summary.{append_conversation_summary}

unfoldable pub is_context_message : Text → Text → Text → Bool
is_context_message role text event_type =
    let event = trim_space event_type in
    let who = to_lower (trim_space role) in
    if not (is_nil event) && not (eq_text event (codes "message"))
    then false
    else if eq_text who (codes "user") || eq_text who (codes "assistant")
    then not (is_nil (trim_space text))
    else false

unfoldable pub context_message : Text → Text → ContextMessage
context_message role text = record { role = to_lower (trim_space role); text = trim_space text }

-- The append at the end of applyContextMessage, the message not empty. The window is never empty
-- where its first message is promoted, as the limit is positive; the source would panic.
unfoldable pub push_message : Entry → List ContextMessage → ContextMessage → Budget → Entry
push_message entry [] msg budget = record entry { recent_messages = msg ∷ [] }
push_message entry (promoted ∷ recent) msg budget =
    if ltb (length (promoted ∷ recent)) budget.history_limit
    then record entry { recent_messages = promoted ∷ recent ++ msg ∷ [] }
    else record entry {
      recent_messages = recent ++ msg ∷ [];
      summarized_messages = entry.summarized_messages + 1;
      conversation_summary = append_conversation_summary entry.conversation_summary promoted budget;
    }

unfoldable pub apply_context_message : Entry → Text → Text → Budget → Entry
unfolding context_message push_message
apply_context_message entry role text budget =
    let msg = context_message role text in
    if is_nil msg.text then entry else push_message entry entry.recent_messages msg budget

-- The reset at the start of rebuildContextStateLocked.
unfoldable pub reset_context : Budget → Entry → Entry
reset_context budget entry = record entry {
  context_state_version = context_state_version;
  context_state_sig = context_state_signature budget;
  summarized_messages = 0;
  conversation_summary = [];
  recent_messages = [];
}
