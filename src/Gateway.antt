-- ===== src/Gateway.antt =====
-- internal/gateway/server.go: handleInbound, from the token to the replies. The runtime is the parameter
-- `run`; it gives its events in order, each with what the environment does while it is handled. The
-- logger and the observer are left out.
pub mod Replies
pub mod Accounts
pub mod Ws
use nisix.Common.{
  ℕ, Bool, true, false, ◌||◌, Option, none, some, List, [], ◌∷◌, ◌++◌, ◌==◌, if◌then◌else◌, is_nil,
}
use nisix.Common.Text.{Text, codes, eq_text, trim_space}
use nisix.Domain.{
  InboundMessage, OutboundMessage, Route, ConversationMessage, RunRequest, AgentEvent, ToolCall,
  Usage, ChatType, direct, group, channel,
}
use nisix.Router.{Resolver, resolve}
use nisix.Security.{Principal, authenticate}
use nisix.Hub.{MultiHub, send}
use nisix.Sessions.{Entry, AppendOptions, ToolCallRecord, UsageRecord}
use nisix.Sessions.Transcript.{Codec}
use nisix.Sessions.Store.{Store}
use nisix.Sessions.Manager
use nisix.Sessions.Manager.{Manager, Io, Result, ok, err, touch, model_context, append_with_options}

pub record Server (Sender : Type 0) : Type 0 where
  pub resolver : Resolver
  pub hub : MultiHub Sender
  pub token : Text

-- What a call changes: the sessions, if there are any, and the messages handed to the hub.
pub record World (St : Type 0) : Type 0 where
  pub sessions : Option (Manager St)
  pub sent : List OutboundMessage

pub data Outcome : Type 0 where
  done unauthorized peer_required agent_error send_error : Outcome
  session_error : Manager.Error → Outcome

unfoldable pub map_agent_event_type : Text → Text
map_agent_event_type kind =
    let k = trim_space kind in
    if eq_text k (codes "tool")
    then codes "tool_call"
    else if eq_text k (codes "block")
    then codes "message_chunk"
    else if eq_text k (codes "final")
    then codes "message"
    else codes "event"

abbrev pub map_tool_call : Option ToolCall → Option ToolCallRecord
map_tool_call none = none
map_tool_call (some v) = some (record {
  name = v.name;
  input = v.input;
  output = v.output;
  error = v.error;
  status = v.status;
})

abbrev pub map_usage : Option Usage → Option UsageRecord
map_usage none = none
map_usage (some v) = some (record {
  input_tokens = v.input_tokens;
  output_tokens = v.output_tokens;
  total_tokens = v.total_tokens;
})

-- Its two arguments
unfoldable pub first_non_empty : Text → Text → Text
first_non_empty a b = if is_nil (trim_space a) then (if is_nil (trim_space b) then [] else b) else a

abbrev pub chat_type_name : ChatType → Text
chat_type_name direct = codes "direct"
chat_type_name group = codes "group"
chat_type_name channel = codes "channel"

-- The options of the user's message.
unfoldable pub input_options : InboundMessage → AppendOptions
input_options msg = record {
  event_type = codes "message";
  run_id = trim_space msg.run_id;
  kind = codes "input";
  provider = codes "runtime";
  aborted = false;
  tool_call = none;
  usage = none;
  metadata =
      (codes "channel", msg.channel)
      ∷ (codes "accountId", msg.account_id)
      ∷ (codes "peerId", msg.peer_id)
      ∷ (codes "peerType", chat_type_name msg.peer_type)
      ∷ (codes "userId", msg.user_id)
      ∷ (codes "threadId", msg.thread_id)
      ∷ [];
}

unfoldable pub event_options : InboundMessage → AgentEvent → AppendOptions
event_options msg evt = record {
  event_type = map_agent_event_type evt.kind;
  run_id = first_non_empty (trim_space evt.run_id) (trim_space msg.run_id);
  kind = evt.kind;
  provider = evt.provider;
  aborted = evt.aborted;
  tool_call = map_tool_call evt.tool_call;
  usage = map_usage evt.usage;
  metadata = [];
}

unfoldable pub reply : InboundMessage → Route → Text → OutboundMessage
reply msg route text = record {
  channel = msg.channel;
  account_id = msg.account_id;
  target_id = msg.peer_id;
  thread_id = msg.thread_id;
  session_key = route.session_key;
  text = text;
}

-- A message without a time gets the present one.
unfoldable pub timed : ℕ → InboundMessage → InboundMessage
timed now msg = record msg { at = if msg.at == 0 then now else msg.at }

-- A session as it is opened: its entry if there are sessions, the history and the summary for the model.
pub record Session : Type 0 where
  pub entry : Option Entry
  pub history : List ConversationMessage
  pub summary : Text

abbrev pub no_session : Session
no_session = record { entry = none; history = []; summary = [] }

-- What the environment does in the three operations that open a session.
pub record OpenIo : Type 0 where
  pub touch : Io
  pub context : Io
  pub append : Io

-- An operation on the sessions and what follows it.
abbrev pub then_do {ℓ κ} :
    {M : Type 0} {A : Type ℓ} {B : Type κ} → M × Result A → (M → A → M × Result B) → M × Result B
then_do (m, err e) next = (m, err e)
then_do (m, ok a) next = next m a

module _ {St : Type 0} (S : Store St) (C : Codec) where
  -- Touch, ModelContext, and the append of the user's message.
  unfoldable pub open_session :
      OpenIo → Manager St → Route → InboundMessage → Manager St × Result Session
  open_session io m route msg =
      then_do (touch S C io.touch m route.session_key route.agent_id) (λ m1 e.
        then_do (model_context S C io.context m1 route.session_key) (λ m2 context.
          then_do
            (append_with_options S C io.append m2 e (codes "user") msg.text (input_options msg))
            (λ m3 _.
              (m3, ok (record { entry = some e; history = context.0; summary = context.1 })))))

  abbrev pub appended : Manager St × Result (Unit {0}) → Option (Manager St) × Option Outcome
  appended (m, err e) = (some m, some (session_error e))
  appended (m, ok _) = (some m, none)

  -- The append of a reply, if there are sessions; the answer is the error.
  unfoldable pub append_reply :
      Io
      → InboundMessage
      → AgentEvent
      → Option Entry
      → Option (Manager St)
      → Option (Manager St) × Option Outcome
  append_reply io msg evt entry none = (none, none)
  append_reply io msg evt none (some m) = (some m, none)
  append_reply io msg evt (some e) (some m) =
      appended (append_with_options S C io m e (codes "assistant") evt.text (event_options msg evt))

  -- What follows the hub's answer to a reply.
  unfoldable pub after_send {κ} :
      {E : Type κ}
      → Io
      → InboundMessage
      → AgentEvent
      → Option Entry
      → World St
      → Option E
      → World St × Option Outcome
  unfolding append_reply
  after_send io msg evt entry w (some e) = (w, some send_error)
  after_send io msg evt entry w none =
      let (sessions, stop) = append_reply io msg evt entry w.sessions in
      (record w { sessions = sessions }, stop)

  module _ {κ} {Sender : Type 0} {E : Type κ} (deliver : Sender → OutboundMessage → Option E)
      (run : RunRequest → List (AgentEvent × Io)) where
    -- The body of the loop over the events; an outcome ends the loop.
    unfoldable pub handle_event :
        Server Sender
        → InboundMessage
        → Route
        → Option Entry
        → World St
        → AgentEvent
        → Io
        → World St × Option Outcome
    unfolding after_send
    handle_event s msg route entry w evt io =
        let out = reply msg route evt.text in
        let w' = record w { sent = w.sent ++ out ∷ [] } in
        if evt.failed
        then (w, some agent_error)
        else if is_nil evt.text
        then (w, none)
        else after_send io msg evt entry w' (send deliver s.hub out)

    abbrev pub or_go_on : World St → Option Outcome → World St × Outcome → World St × Outcome
    or_go_on w (some stop) later = (w, stop)
    or_go_on w none later = later

    unfoldable pub handle_events :
        Server Sender
        → InboundMessage
        → Route
        → Option Entry
        → World St
        → List (AgentEvent × Io)
        → World St × Outcome
    unfolding handle_event
    handle_events s msg route entry w [] = (w, done)
    handle_events s msg route entry w ((evt, io) ∷ rest) =
        let (w', stop) = handle_event s msg route entry w evt io in
        or_go_on w' stop (handle_events s msg route entry w' rest)

    -- The run of the agent in a session.
    unfoldable pub run_agent :
        Server Sender → InboundMessage → Route → World St → Session → World St × Outcome
    run_agent s msg route w session = handle_events s msg route session.entry w (
        run (record {
          agent_id = route.agent_id;
          session_key = route.session_key;
          run_id = msg.run_id;
          message = msg;
          history = session.history;
          conversation_summary = session.summary;
        }))

    unfoldable pub with_session :
        Server Sender
        → InboundMessage
        → Route
        → World St
        → Manager St × Result Session
        → World St × Outcome
    unfolding run_agent
    with_session s msg route w (m, err e) = (record w { sessions = some m }, session_error e)
    with_session s msg route w (m, ok session) =
        run_agent s msg route (record w { sessions = some m }) session

    unfoldable pub routed :
        Server Sender
        → OpenIo
        → InboundMessage
        → Route
        → World St
        → Option (Manager St)
        → World St × Outcome
    unfolding with_session open_session
    routed s io msg route w none = run_agent s msg route w no_session
    routed s io msg route w (some m) = with_session s msg route w (open_session io m route msg)

    abbrev pub authorized : World St → Option Principal → World St × Outcome → World St × Outcome
    authorized w none rest = (w, unauthorized)
    authorized w (some p) rest = rest

    unfoldable pub handle_inbound :
        Server Sender → ℕ → OpenIo → World St → Text → InboundMessage → World St × Outcome
    unfolding routed timed
    handle_inbound s now io w token msg =
        let at_now = timed now msg in
        authorized w (authenticate s.token token) (
          if is_nil msg.channel || is_nil msg.peer_id
          then (w, peer_required)
          else routed s io at_now (resolve s.resolver at_now) w w.sessions)
