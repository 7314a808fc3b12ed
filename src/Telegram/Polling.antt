-- ===== src/Telegram/Polling.antt =====
-- internal/channels/telegram.go: the loop of RunPolling over the updates of one answer.
pub mod Gates
pub mod Offsets
use nisix.Common.{
  ℕ, ◌+◌, Bool, true, false, ◌&&◌, not, Option, none, some, List, [], ◌∷◌, ltb, leb, if◌then◌else◌,
  is_nil,
}
use nisix.Common.Text.{Text, codes, trim_space}
use nisix.Common.Int.{ℤ, pos, negsuc}
use nisix.Common.Decimal.{format_int}
use nisix.Domain.{InboundMessage, OutboundMessage}
use nisix.Telegram.{Adapter, TelegramMessage, TelegramUser, TelegramUpdate, map_telegram_chat_type}
use nisix.Telegram.Dedupe.{is_duplicate_update}
use nisix.Telegram.Limits.{allow_by_rate_limit, allowed_by_allowlist}
use nisix.Telegram.Mentions.{
  is_help_or_start_command, help_text, accept_by_mention_policy, sanitize_text,
}

-- What the loop does with an update: nothing, a help message, or a call of onInbound.
pub data Action : Type 0 where
  ignore : Action
  help : OutboundMessage → Action
  inbound : InboundMessage → Action

abbrev pub is_from_bot : Option TelegramUser → Bool
is_from_bot none = false
is_from_bot (some u) = u.is_bot

unfoldable pub thread_of : ℤ → Text
thread_of (pos ℕ.zero) = []
thread_of (pos (ℕ.suc n)) = format_int (pos (ℕ.suc n))
thread_of (negsuc n) = []

unfoldable pub user_of : TelegramMessage → Option TelegramUser → Text
user_of msg none = format_int msg.chat.id
user_of msg (some u) = format_int u.id

-- The end of the loop's body, once the rate limit and the allowlist let a message through.
unfoldable pub act : Adapter → TelegramMessage → Text → ℕ → Action
act t msg user_id now =
    let text = trim_space msg.text in
    let chat_id = format_int msg.chat.id in
    let thread_id = thread_of msg.message_thread_id in
    let clean = sanitize_text t msg.chat.type text in
    if t.enable_help_commands && is_help_or_start_command t text
    then help (record {
      channel = codes "telegram";
      account_id = [];
      target_id = chat_id;
      thread_id = thread_id;
      session_key = [];
      text = help_text t;
    })
    else if not (accept_by_mention_policy t msg.chat.type text)
    then ignore
    else if is_nil clean
    then ignore
    else inbound (record {
      channel = codes "telegram";
      account_id = t.account_id;
      peer_id = chat_id;
      peer_type = map_telegram_chat_type msg.chat.type;
      user_id = user_id;
      text = clean;
      thread_id = thread_id;
      run_id = [];
      at = now;
    })

-- The checks from the rate limit on.
unfoldable pub limited : Adapter × Bool → TelegramMessage → Text → ℕ → Adapter × Action
limited (t, false) msg user_id now = (t, ignore)
limited (t, true) msg user_id now =
    if allowed_by_allowlist t (format_int msg.chat.id) user_id
    then (t, act t msg user_id now)
    else (t, ignore)

unfoldable pub handle_message : Adapter → TelegramMessage → ℕ → Adapter × Action
unfolding limited
handle_message t msg now =
    let user_id = user_of msg msg.from in
    if is_from_bot msg.from
    then (t, ignore)
    else if is_nil (trim_space msg.text)
    then (t, ignore)
    else limited (allow_by_rate_limit t user_id now) msg user_id now

unfoldable pub deduped : Adapter × Bool → Option TelegramMessage → ℕ → Adapter × Action
unfolding handle_message
deduped (t, true) msg now = (t, ignore)
deduped (t, false) none now = (t, ignore)
deduped (t, false) (some msg) now = handle_message t msg now

-- One round of the loop.
unfoldable pub handle_update : Adapter → TelegramUpdate → ℕ → Adapter × Action
unfolding deduped
handle_update t upd now = deduped (is_duplicate_update t upd.update_id) upd.message now

-- `if upd.UpdateID >= offset { offset = upd.UpdateID + 1 }`
unfoldable pub next_offset : ℕ → ℤ → ℕ
next_offset offset (negsuc n) = offset
next_offset offset (pos n) = if leb offset n then n + 1 else offset

-- The error of a call of onInbound ends the loop.
abbrev pub fails : (InboundMessage → Bool) → Action → Bool
fails on_inbound ignore = false
fails on_inbound (help m) = false
fails on_inbound (inbound m) = not (on_inbound m)

-- The loop over the updates, each handled at its own time; the actions in order.
unfoldable pub handle_updates :
    (InboundMessage → Bool) → Adapter → ℕ → List (TelegramUpdate × ℕ) → Adapter × ℕ × List Action
unfolding next_offset
handle_updates on_inbound t offset [] = (t, offset, [])
handle_updates on_inbound t offset ((upd, now) ∷ rest) =
    let (t', action) = handle_update t upd now in
    let offset' = next_offset offset upd.update_id in
    let later = handle_updates on_inbound t' offset' rest in
    if fails on_inbound action
    then (t', offset', action ∷ [])
    else (later.0, later.1, action ∷ later.2)
