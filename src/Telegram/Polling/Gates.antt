-- ===== src/Telegram/Polling/Gates.antt =====
-- What an update has passed when it reaches onInbound, and which updates the next offset leaves out.
use nisix.Common.{
  ℕ, ◌≡◌, refl, sym, ap, ◌∙◌, inl, inr, Bool, true, false, ◌&&◌, Option, none, some, [], ◌==◌,
  is_nil, Bool-cases, some_injective,
}
use nisix.Common.Text.{Text, trim_space}
use nisix.Common.Decimal.{format_int}
use nisix.Common.Dict
use nisix.Domain.{InboundMessage}
use nisix.Telegram.{Adapter, TelegramMessage, TelegramUpdate}
use nisix.Telegram.Dedupe.{is_duplicate_update}
use nisix.Telegram.Limits.{too_soon, allow_by_rate_limit, allowed_by_allowlist}
use nisix.Telegram.Mentions.{
  is_help_or_start_command, help_text, accept_by_mention_policy, sanitize_text,
}
use nisix.Telegram.Polling.{
  Action, ignore, help, inbound, is_from_bot, user_of, act, limited, handle_message, deduped,
  handle_update,
}

-- The adapter without what it remembers of earlier updates.
abbrev settings : Adapter → Adapter
settings t = record t { last_inbound_by_user = []; seen_update_order = []; seen_update_set = [] }

-- What a message has passed when it is handed on as `m`.
pub record Admitted (t : Adapter) (msg : TelegramMessage) (now : ℕ) (m : InboundMessage)
    : Type 0 where
  pub from_user : is_from_bot msg.from ≡ false
  pub not_limited : (allow_by_rate_limit t (user_of msg msg.from) now).1 ≡ true
  pub on_allowlist : allowed_by_allowlist t (format_int msg.chat.id) (user_of msg msg.from) ≡ true
  pub mentioned : accept_by_mention_policy t msg.chat.type (trim_space msg.text) ≡ true
  pub text_is : m.text ≡ sanitize_text t msg.chat.type (trim_space msg.text)
  pub not_empty : is_nil m.text ≡ false
  pub account_id_is : m.account_id ≡ t.account_id
  pub peer_id_is : m.peer_id ≡ format_int msg.chat.id

abbrev message_of : Action → Option InboundMessage
message_of ignore = none
message_of (help m) = none
message_of (inbound m) = some m

act-inbound :
    (t : Adapter) (msg : TelegramMessage) (user_id : Text) (now : ℕ) (m : InboundMessage)
    → message_of (act t msg user_id now) ≡ some m
    → (accept_by_mention_policy t msg.chat.type (trim_space msg.text) ≡ true)
      × (m.text ≡ sanitize_text t msg.chat.type (trim_space msg.text))
      × (is_nil (sanitize_text t msg.chat.type (trim_space msg.text)) ≡ false)
      × (m.account_id ≡ t.account_id)
      × (m.peer_id ≡ format_int msg.chat.id)
unfolding act
act-inbound t msg user_id now m e =
    elim (Bool-cases (t.enable_help_commands && is_help_or_start_command t (trim_space msg.text))) [
      | inl asks ↦ let none_left = rw asks at e in absurd (cc)
      | inr other ↦
          elim (Bool-cases (accept_by_mention_policy t msg.chat.type (trim_space msg.text))) [
            | inr unmentioned ↦ let none_left = rw (other, unmentioned) at e in absurd (cc)
            | inl accepted ↦
                elim (Bool-cases (is_nil (sanitize_text t msg.chat.type (trim_space msg.text)))) [
                  | inl empty ↦ let none_left = rw (other, accepted, empty) at e in absurd (cc)
                  | inr full ↦
                      let same = some_injective (rw (other, accepted, full) at e) in
                      (
                        accepted,
                        ap (λ (x : InboundMessage). x.text) (sym same),
                        full,
                        ap (λ (x : InboundMessage). x.account_id) (sym same),
                        ap (λ (x : InboundMessage). x.peer_id) (sym same),
                      )
                ]
          ]
    ]

allow-same :
    (t : Adapter) (user_id : Text) (now : ℕ)
    → settings (allow_by_rate_limit t user_id now).0 ≡ settings t
unfolding allow_by_rate_limit
allow-same t user_id now = elim (Bool-cases (t.min_user_interval == 0)) [
  | inl off ↦ rw off refl
  | inr on ↦
      rw on
        (elim (Bool-cases
          (too_soon t.min_user_interval now (Dict.get t.last_inbound_by_user user_id))) [
            | inl soon ↦ rw soon refl
            | inr late ↦ rw late refl
          ])
]

-- What the checks say depends on the settings alone.
allowed-settings :
    (t : Adapter) (chat_id user_id : Text)
    → allowed_by_allowlist (settings t) chat_id user_id ≡ allowed_by_allowlist t chat_id user_id
unfolding allowed_by_allowlist
allowed-settings t chat_id user_id = refl

act-settings :
    (t : Adapter) (msg : TelegramMessage) (user_id : Text) (now : ℕ)
    → act (settings t) msg user_id now ≡ act t msg user_id now
unfolding act sanitize_text accept_by_mention_policy is_help_or_start_command help_text
act-settings t msg user_id now = refl

limited-inbound :
    (r : Adapter × Bool) (t : Adapter) (msg : TelegramMessage) (user_id : Text) (now : ℕ)
    (m : InboundMessage)
    → settings r.0 ≡ settings t
    → message_of (limited r msg user_id now).1 ≡ some m
    → (r.1 ≡ true)
      × (allowed_by_allowlist t (format_int msg.chat.id) user_id ≡ true)
      × (message_of (act t msg user_id now) ≡ some m)
unfolding limited
limited-inbound (t', false) t msg user_id now m s e = absurd (cc)
limited-inbound (t', true) t msg user_id now m s e =
    elim (Bool-cases (allowed_by_allowlist t' (format_int msg.chat.id) user_id)) [
      | inl allowed ↦
          let same =
            sym (allowed-settings t (format_int msg.chat.id) user_id)
            ∙ ap (λ (a : Adapter). allowed_by_allowlist a (format_int msg.chat.id) user_id) (sym s)
            ∙ allowed-settings t' (format_int msg.chat.id) user_id in
          let acts =
            sym (act-settings t msg user_id now)
            ∙ ap (λ (a : Adapter). act a msg user_id now) (sym s)
            ∙ act-settings t' msg user_id now in
          (refl, same ∙ allowed, ap message_of acts ∙ (rw allowed at e))
      | inr refused ↦ let none_left = rw refused at e in absurd (cc)
    ]

handle_message-inbound :
    (t : Adapter) (msg : TelegramMessage) (now : ℕ) (m : InboundMessage)
    → message_of (handle_message t msg now).1 ≡ some m
    → Admitted t msg now m
unfolding handle_message
handle_message-inbound t msg now m e = elim (Bool-cases (is_from_bot msg.from)) [
  | inl bot ↦ let none_left = rw bot at e in absurd (cc)
  | inr person ↦ elim (Bool-cases (is_nil (trim_space msg.text))) [
    | inl empty ↦ let none_left = rw (person, empty) at e in absurd (cc)
    | inr full ↦
        let user_id = user_of msg msg.from in
        let (passes, allowed, acts) =
          limited-inbound (allow_by_rate_limit t user_id now) t msg user_id now m
            (allow-same t user_id now) (rw (person, full) at e) in
        let (accepted, text_is, not_empty, account, peer) = act-inbound t msg user_id now m acts in
        record {
          from_user = person;
          not_limited = passes;
          on_allowlist = allowed;
          mentioned = accepted;
          text_is = text_is;
          not_empty = ap is_nil text_is ∙ not_empty;
          account_id_is = account;
          peer_id_is = peer;
        }
  ]
]

deduped-inbound :
    (r : Adapter × Bool) (found : Option TelegramMessage) (now : ℕ) (m : InboundMessage)
    → (deduped r found now).1 ≡ inbound m
    → (r.1 ≡ false) × ((msg : TelegramMessage) × (found ≡ some msg) × Admitted r.0 msg now m)
unfolding deduped
deduped-inbound (t, true) found now m e = absurd (cc)
deduped-inbound (t, false) none now m e = absurd (cc)
deduped-inbound (t, false) (some msg) now m e =
    (refl, (msg, refl, handle_message-inbound t msg now m (ap message_of e)))

-- An update that is handed on as an inbound message is none of the remembered duplicates, has a message
-- that is not a bot's, and this message, seen by the adapter that has noted the update, passes the rate
-- limit, the allowlist and the mention policy; the text handed on is the message's without the bot's
-- mentions, it is not empty, and the account and the peer are the adapter's and the chat's.
pub handle_update-Admitted :
    (t : Adapter) (upd : TelegramUpdate) (now : ℕ) (m : InboundMessage)
    → (handle_update t upd now).1 ≡ inbound m
    → ((is_duplicate_update t upd.update_id).1 ≡ false)
      × ((msg : TelegramMessage) × (upd.message ≡ some msg)
          × Admitted (is_duplicate_update t upd.update_id).0 msg now m)
unfolding handle_update
handle_update-Admitted t upd now m e =
    deduped-inbound (is_duplicate_update t upd.update_id) upd.message now m e
