-- ===== src/Tests/Replying.antt =====
-- internal/gateway/server.go on a concrete message.
use nisix.Common.{◌≡◌, ◌⊎◌, refl, Bool, true, false, Option, none, some, List, [], ◌∷◌}
use nisix.Common.Text.{codes, eq_text, trim_space, to_lower}
use nisix.Common.Decimal.{itoa}
use nisix.Sessions.Budget.{context_state_signature}
use nisix.Sessions.Context.{is_context_message, apply_context_message}
use nisix.Common.Dict
use nisix.Domain.{InboundMessage, OutboundMessage, RunRequest, AgentEvent, direct}
use nisix.Router.{new_route, session_key, resolve, resolve_from}
use nisix.Security.{authenticate}
use nisix.Hub.{new_multi_hub, choose, send}
use nisix.Sessions.Transcript
use nisix.Sessions.Store.Memory.{get, put, InMemoryStore, in_memory_store}
use nisix.Sessions.Manager.{
  Io, touched, touch, is_fresh, ensure_context_state, record_for, nothing_to_append, update_context,
  model_context, append_with_options,
}
use nisix.Gateway.{
  Server, World, OpenIo, map_agent_event_type, input_options, event_options, reply, timed,
  open_session, append_reply, after_send, handle_event, handle_events, run_agent, routed,
  handle_inbound,
}
use nisix.Gateway.Replies.{Refuses, Accepts, handle_inbound-Sends}

abbrev pub good : Io
good = record {
  mkdir = true;
  open_file = true;
  short_write = none;
  read = true;
  save = true;
  now = 9;
  unix_nano = 9;
}

abbrev pub opens : OpenIo
opens = record { touch = good; context = good; append = good }

abbrev pub codec : Transcript.Codec
codec = record { marshal = λ rec. some (codes "{}"); unmarshal = λ line. none }

abbrev pub world : World InMemoryStore
world = record {
  sessions = some (record {
    store = record { entries = [] };
    files = [];
    budget = record { history_limit = 2; summary_max_chars = 100; summary_line_max_chars = 20 };
  });
  sent = [];
}

abbrev pub server : Server (Unit {0})
server = record {
  resolver = record { bindings = []; default_id = codes "main" };
  hub = new_multi_hub (some tt);
  token = codes "secret";
}

abbrev pub ping : InboundMessage
ping = record {
  channel = codes "CLI";
  account_id = [];
  peer_id = codes "local";
  peer_type = direct;
  user_id = codes "me";
  text = codes "ping";
  thread_id = [];
  run_id = [];
  at = 0;
}

abbrev pong : AgentEvent
pong = record {
  kind = codes "final";
  run_id = [];
  session_key = [];
  text = codes "pong";
  provider = [];
  tool_call = none;
  usage = none;
  done = true;
  aborted = false;
  failed = false;
}

abbrev pub deliver : Unit {0} → OutboundMessage → Option Bool
deliver s msg = none

abbrev agent : RunRequest → List (AgentEvent × Io)
agent request = (record pong { text = [] }, good) ∷ (pong, good) ∷ []

handle_inbound_test :
    (handle_inbound in_memory_store codec deliver agent server 9 opens world
      (codes "secret")
      ping).0.sent
    ≡ record {
      channel = codes "CLI";
      account_id = [];
      target_id = codes "local";
      thread_id = [];
      session_key = codes "agent:main:cli:default:dm:local";
      text = codes "pong";
    }
      ∷ []
unfolding handle_inbound authenticate resolve resolve_from new_route session_key timed routed
    open_session run_agent handle_events handle_event after_send append_reply send choose reply
    touch touched model_context append_with_options eq_text trim_space get put Dict.get Dict.put
    Dict.remove to_lower ensure_context_state is_fresh context_state_signature itoa
    nothing_to_append is_context_message record_for input_options update_context new_multi_hub
    event_options map_agent_event_type apply_context_message
handle_inbound_test = refl

handle_inbound-Sends_example :
    Refuses in_memory_store codec deliver agent server world (codes "secret") ping (
      handle_inbound in_memory_store codec deliver agent server 9 opens world (codes "secret") ping)
    ⊎ Accepts in_memory_store codec deliver agent server 9 opens world (codes "secret") ping (
        handle_inbound in_memory_store codec deliver agent server 9 opens world
          (codes "secret")
          ping)
handle_inbound-Sends_example =
    handle_inbound-Sends in_memory_store codec deliver agent server 9 opens world (codes "secret")
      ping
