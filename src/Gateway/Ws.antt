-- ===== src/Gateway/Ws.antt =====
-- internal/gateway/ws.go and internal/protocol/frames.go: one web-socket connection. Params are decoded by
-- encoding/json, the parameter `Decoder`. The methods other than connect, chat.send and chat.abort
-- leave the connection's state as it is; their answer is the parameter `serve`.
pub mod Handshake
pub mod Abort
use nisix.Common.{
  ℕ, ◌+◌, ◌%◌, ◌^◌, ◌≡◌, ◌⊎◌, inl, inr, Bool, true, false, ◌&&◌, ◌||◌, not, Option, none, some,
  List, [], ◌∷◌, ◌++◌, ltb, if◌then◌else◌, is_nil, take, drop, map,
}
use nisix.Common.Text.{Text, codes, eq_text, trim_space, to_lower}
use nisix.Common.Sets.{member}
use nisix.Common.Dict
use nisix.Common.Dict.{Dict}
use nisix.Common.Int.{ℤ, pos, negsuc}
use nisix.Common.Decimal.{itoa}
use nisix.Domain.{ChatType, direct, group, channel, InboundMessage, Route}
use nisix.Router.{Resolver, resolve}
use nisix.Security.{Principal, authenticate}

abbrev pub current_protocol : ℤ
current_protocol = pos 1

pub record RequestFrame (P : Type 0) : Type 0 where
  pub type : Text
  pub id : Text
  pub method : Text
  pub params : P

pub record ConnectParams : Type 0 where
  pub min_protocol : ℤ
  pub max_protocol : ℤ
  pub token : Text

pub record ChatSendParams : Type 0 where
  pub channel : Text
  pub account_id : Text
  pub peer_id : Text
  pub peer_type : Text
  pub user_id : Text
  pub thread_id : Text
  pub text : Text

pub record ChatAbortParams : Type 0 where
  pub run_id : Text
  pub session_key : Text

-- decodeParams at the three kinds of params; `none` is an error.
pub record Decoder (P : Type 0) : Type 0 where
  pub connect : P → Option ConnectParams
  pub chat_send : P → Option ChatSendParams
  pub chat_abort : P → Option ChatAbortParams

-- A response frame: its id, and what it says.
pub data Answer : Type 0 where
  hello : Answer
  accepted aborted : Text → Text → Answer
  served : Text → Answer
  error : Text → Answer

-- The variables of the handler. A run maps to its session's key; `cancelled` are the runs whose context was
-- cancelled; `pending` are the runs whose goroutine has not begun, and `started` those that have, with
-- the token that was the session's when they did, the latest first.
pub record Connection : Type 0 where
  pub is_open : Bool
  pub connected : Bool
  pub session_token : Text
  pub tick_started : Bool
  pub run_counter : ℕ
  pub active_runs : Dict Text
  pub cancelled : List Text
  pub pending : List Text
  pub started : List (Text × Text)

unfoldable pub new_connection : Connection
new_connection = record {
  is_open = true;
  connected = false;
  session_token = [];
  tick_started = false;
  run_counter = 0;
  active_runs = [];
  cancelled = [];
  pending = [];
  started = [];
}

-- What the environment does during a request: whether the answer is written, the clock, and where the
-- iteration over the map of runs starts.
pub record Io : Type 0 where
  pub written : Bool
  pub now : ℕ
  pub unix_nano : ℕ
  pub turn : ℕ

unfoldable pub validate_request : {P : Type 0} → RequestFrame P → Bool
validate_request f = eq_text f.type (codes "req") && (not (is_nil f.id) && not (is_nil f.method))

unfoldable pub parse_peer_type : Text → ChatType
parse_peer_type v =
    let t = to_lower (trim_space v) in
    if eq_text t (codes "group")
    then group
    else if eq_text t (codes "channel")
    then channel
    else direct

-- A return from the handler cancels the context of the connection, and with it that of every active run.
unfoldable pub close : Connection → Connection
close c = record c {
  is_open = false;
  cancelled = map (λ (r : Text × Text). r.0) c.active_runs ++ c.cancelled;
}

-- An answer that cannot be written ends the handler; an error that cannot be written does not.
unfoldable pub send_res : Io → Connection → Text → Answer → Connection × List (Text × Answer)
unfolding close
send_res io c id answer = if io.written then (c, (id, answer) ∷ []) else (close c, [])

unfoldable pub send_err : Io → Connection → Text → Text → Connection × List (Text × Answer)
send_err io c id code = (c, if io.written then (id, error code) ∷ [] else [])

abbrev pub above : ℤ → ℤ → Bool
above (pos a) (pos b) = ltb b a
above (pos a) (negsuc b) = true
above (negsuc a) (pos b) = false
above (negsuc a) (negsuc b) = ltb a b

abbrev pub greeted :
    Io → Connection → Connection × List (Text × Answer) → Connection × List (Text × Answer)
greeted io c (c', out) = (if io.written then record c' { tick_started = true } else c', out)

abbrev pub authenticated :
    Io → Connection → Text → ConnectParams → Option Principal → Connection × List (Text × Answer)
authenticated io c id p none = send_err io c id (codes "UNAUTHENTICATED")
authenticated io c id p (some who) =
    let c' = record c { session_token = p.token; connected = true } in
    greeted io c' (send_res io c' id hello)

-- connect
unfoldable pub connect :
    Text → Io → Connection → Text → Option ConnectParams → Connection × List (Text × Answer)
unfolding send_res send_err
connect token io c id none = send_err io c id (codes "INVALID_REQUEST")
connect token io c id (some p) =
    if above p.min_protocol current_protocol || above current_protocol p.max_protocol
    then send_err io c id (codes "PROTOCOL_MISMATCH")
    else authenticated io c id p (authenticate token p.token)

unfoldable pub next_run_id : Io → Connection → Text
next_run_id io c = codes "run-" ++ (itoa io.unix_nano ++ (45 ∷ itoa ((c.run_counter + 1) % 2 ^ 64)))

unfoldable pub inbound_of : Io → Text → ChatSendParams → InboundMessage
unfolding parse_peer_type
inbound_of io run_id p = record {
  channel = trim_space p.channel;
  account_id = trim_space p.account_id;
  peer_id = trim_space p.peer_id;
  peer_type = parse_peer_type p.peer_type;
  user_id = trim_space p.user_id;
  text = trim_space p.text;
  thread_id = trim_space p.thread_id;
  run_id = run_id;
  at = io.now;
}

unfoldable pub without : List Text → Text → List Text
without [] a = []
without (x ∷ xs) a = let rest = without xs a in if eq_text x a then rest else x ∷ rest

-- The start of a run's goroutine, which reads the session's token.
unfoldable pub start_run : Connection → Text → Connection
unfolding without
start_run c run_id =
    if member c.pending run_id
    then record c {
      pending = without c.pending run_id;
      started = (run_id, c.session_token) ∷ c.started;
    }
    else c

-- The end of a run's goroutine.
unfoldable pub unregister_run : Connection → Text → Connection
unregister_run c run_id = record c { active_runs = Dict.remove c.active_runs run_id }

-- chat.send: the run is registered before the answer; one that cannot be answered is taken back.
unfoldable pub chat_send :
    Resolver → Io → Connection → Text → Option ChatSendParams → Connection × List (Text × Answer)
unfolding send_err next_run_id inbound_of unregister_run close
chat_send r io c id none = send_err io c id (codes "INVALID_REQUEST")
chat_send r io c id (some p) =
    let run_id = next_run_id io c in
    let route = resolve r (inbound_of io run_id p) in
    let registered = record c {
      run_counter = (c.run_counter + 1) % 2 ^ 64;
      active_runs = Dict.put c.active_runs run_id route.session_key;
    } in
    if io.written
    then (
      record registered { pending = run_id ∷ c.pending },
      (id, accepted run_id route.session_key) ∷ [],
    )
    else (
      close (unregister_run (record registered { cancelled = run_id ∷ c.cancelled }) run_id),
      [],
    )

-- The first run of a session; the iteration over the map may start anywhere.
unfoldable pub find_session : Dict Text → Text → Option (Text × Text)
find_session [] key = none
find_session ((run_id, k) ∷ runs) key =
    let rest = find_session runs key in if eq_text k key then some (run_id, k) else rest

abbrev pub with_id : Text → Option Text → Option (Text × Text)
with_id rid none = none
with_id rid (some key) = some (rid, key)

unfoldable pub find_run_to_abort : Io → Dict Text → ChatAbortParams → Option (Text × Text)
unfolding find_session
find_run_to_abort io runs p =
    let rid = trim_space p.run_id in
    let key = trim_space p.session_key in
    if not (is_nil rid)
    then with_id rid (Dict.get runs rid)
    else if is_nil key
    then none
    else find_session (drop io.turn runs ++ take io.turn runs) key

abbrev pub abort_found :
    Io → Connection → Text → Option (Text × Text) → Connection × List (Text × Answer)
abort_found io c id none = send_err io c id (codes "NOT_FOUND")
abort_found io c id (some (run_id, key)) =
    send_res io (record c { cancelled = run_id ∷ c.cancelled }) id (aborted run_id key)

-- chat.abort
unfoldable pub chat_abort :
    Io → Connection → Text → Option ChatAbortParams → Connection × List (Text × Answer)
unfolding send_res send_err find_run_to_abort
chat_abort io c id none = send_err io c id (codes "INVALID_REQUEST")
chat_abort io c id (some p) = abort_found io c id (find_run_to_abort io c.active_runs p)

-- The answer of another method: its result, or an error's code.
abbrev pub answered : Io → Connection → Text → Text ⊎ Text → Connection × List (Text × Answer)
answered io c id (inl result) = send_res io c id (served result)
answered io c id (inr code) = send_err io c id code

module _ {P : Type 0} (decode : Decoder P) (serve : Text → P → Text ⊎ Text) (r : Resolver)
    (token : Text) where
  -- One round of the loop over the requests.
  unfoldable pub handle_request :
      Io → Connection → RequestFrame P → Connection × List (Text × Answer)
  unfolding connect chat_send chat_abort
  handle_request io c req =
      if not (validate_request req)
      then send_err io c req.id (codes "INVALID_REQUEST")
      else if not c.connected && not (eq_text req.method (codes "connect"))
      then (close c, (send_err io c req.id (codes "UNAUTHENTICATED")).1)
      else if eq_text req.method (codes "connect")
      then connect token io c req.id (decode.connect req.params)
      else if eq_text req.method (codes "chat.send")
      then chat_send r io c req.id (decode.chat_send req.params)
      else if eq_text req.method (codes "chat.abort")
      then chat_abort io c req.id (decode.chat_abort req.params)
      else answered io c req.id (serve req.method req.params)

  -- A step of a connection: a request while it is open, the end of its requests, or the
  -- start or the end of a run, at any time.
  pub data Step : Connection → Connection → Type 0 where
    request :
        {c c' : Connection} (io : Io) (req : RequestFrame P)
        → c.is_open ≡ true
        → (handle_request io c req).0 ≡ c'
        → Step c c'
    hangs_up : {c c' : Connection} → close c ≡ c' → Step c c'
    run_starts : {c c' : Connection} (run_id : Text) → start_run c run_id ≡ c' → Step c c'
    run_ends : {c c' : Connection} (run_id : Text) → unregister_run c run_id ≡ c' → Step c c'

  pub data Reachable : Connection → Type 0 where
    opened : Reachable new_connection
    after : {c c' : Connection} → Reachable c → Step c c' → Reachable c'
