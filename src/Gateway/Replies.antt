-- ===== src/Gateway/Replies.antt =====
-- The replies to an inbound message: which ones are sent, in which order, and to whom.
use mathlib.Core.Path.{subst}
use mathlib.Core.List.{append_assoc, append-nil}
use nisix.Common.{
  ℕ, suc, ◌≤◌, ◌≡◌, refl, sym, ap, ◌∙◌, ◌⊎◌, inl, inr, true, false, ◌||◌, Option, none, some, List,
  [], ◌∷◌, ◌++◌, if◌then◌else◌, is_nil, length, take, arith, Bool-cases, Option-cases,
}
use nisix.Common.Text.{Text}
use nisix.Domain.{InboundMessage, OutboundMessage, Route, RunRequest, AgentEvent}
use nisix.Router.{resolve}
use nisix.Security.{Principal, authenticate}
use nisix.Hub.{send}
use nisix.Sessions.{Entry}
use nisix.Sessions.Transcript.{Codec}
use nisix.Sessions.Store.{Store}
use nisix.Sessions.Manager
use nisix.Sessions.Manager.{Manager, Io, Result, ok, err}
use nisix.Gateway.{
  Server, World, Outcome, done, unauthorized, peer_required, session_error, reply, Session,
  no_session, OpenIo, open_session, appended, append_reply, after_send, handle_event, or_go_on,
  handle_events, run_agent, with_session, routed, timed, handle_inbound,
}

-- The replies that the events call for: one for each event with a text.
pub replies : {X : Type 0} → InboundMessage → Route → List (AgentEvent × X) → List OutboundMessage
replies msg route [] = []
replies msg route ((evt, io) ∷ rest) =
    let later = replies msg route rest in
    if is_nil evt.text then later else reply msg route evt.text ∷ later

-- The messages that go out: the first of the replies, all of them if the call ends well.
pub record Sends (before after expected : List OutboundMessage) (outcome : Outcome) : Type 0 where
  pub count : ℕ
  pub sent_is : after ≡ before ++ take count expected
  pub all : outcome ≡ done → length expected ≤ count

Sends-none :
    {before expected : List OutboundMessage} {outcome : Outcome}
    → (outcome ≡ done → ⊥)
    → Sends before before expected outcome
Sends-none {before} {expected} h = record {
  count = 0;
  sent_is = sym (append-nil before);
  all = λ e. absurd (h e);
}

Sends-one :
    {before after expected : List OutboundMessage} {outcome : Outcome} (out : OutboundMessage)
    → Sends (before ++ out ∷ []) after expected outcome
    → Sends before after (out ∷ expected) outcome
Sends-one {before} {after} {expected} out h = record {
  count = suc h.count;
  sent_is = h.sent_is ∙ append_assoc before (out ∷ []) (take h.count expected);
  all = λ e. (let le = h.all e in omega arith);
}

module _ {St : Type 0} (S : Store St) (C : Codec) where
  -- What a reply leaves: the messages are those that were sent, and the call does not end well by it.
  record Stops (sent : List OutboundMessage) (r : World St × Option Outcome) : Type 0 where
    same : r.0.sent ≡ sent
    not_done : r.1 ≡ some done → ⊥

  append_reply-not_done :
      (io : Io) (msg : InboundMessage) (evt : AgentEvent) (entry : Option Entry)
      (m : Option (Manager St))
      → (append_reply S C io msg evt entry m).1 ≡ some done
      → ⊥
  unfolding append_reply
  append_reply-not_done io msg evt entry none e = cc
  append_reply-not_done io msg evt none (some m) e = cc
  append_reply-not_done io msg evt (some entry) (some m) e = appended_not_done _ e
    where
      appended_not_done : (r : Manager St × Result (Unit {0})) → (appended S C r).1 ≡ some done → ⊥
      appended_not_done (m, err x) e = cc
      appended_not_done (m, ok x) e = cc

  after_send-Stops {κ} :
      {E : Type κ} (io : Io) (msg : InboundMessage) (evt : AgentEvent) (entry : Option Entry)
      (w : World St) (answer : Option E)
      → Stops w.sent (after_send S C io msg evt entry w answer)
  unfolding after_send
  after_send-Stops io msg evt entry w none = record {
    same = refl;
    not_done = append_reply-not_done io msg evt entry w.sessions;
  }
  after_send-Stops io msg evt entry w (some e) = record { same = refl; not_done = λ e. cc }

  module _ {κ} {Sender : Type 0} {E : Type κ} (deliver : Sender → OutboundMessage → Option E)
      (run : RunRequest → List (AgentEvent × Io)) where
    go_on-Sends :
        (before : List OutboundMessage) (out : OutboundMessage) (expected : List OutboundMessage)
        (r : World St × Option Outcome) (later : World St × Outcome)
        → Stops (before ++ out ∷ []) r
        → Sends r.0.sent later.0.sent expected later.1
        → Sends before
            (or_go_on S C deliver run r.0 r.1 later).0.sent
            (out ∷ expected)
            (or_go_on S C deliver run r.0 r.1 later).1
    go_on-Sends before out expected (w, none) later stops h =
        Sends-one out
          (subst (λ (b : List OutboundMessage). Sends b later.0.sent expected later.1) stops.same h)
    go_on-Sends before out expected (w, some stop) later stops h = record {
      count = 1;
      sent_is = stops.same;
      all = λ e. absurd (stops.not_done (ap some e));
    }

    handle_events-Sends :
        (s : Server Sender) (msg : InboundMessage) (route : Route) (entry : Option Entry)
        (w : World St) (events : List (AgentEvent × Io))
        → Sends w.sent
            (handle_events S C deliver run s msg route entry w events).0.sent
            (replies msg route events)
            (handle_events S C deliver run s msg route entry w events).1
    unfolding handle_events handle_event replies
    handle_events-Sends s msg route entry w [] = record {
      count = 0;
      sent_is = sym (append-nil w.sent);
      all = λ e. omega arith;
    }
    handle_events-Sends s msg route entry w ((evt, io) ∷ rest) = elim (Bool-cases evt.failed) [
      | inl failed ↦ simp failed (Sends-none (λ e. cc))
      | inr good ↦ elim (Bool-cases (is_nil evt.text)) [
        | inl silent ↦ simp (good, silent) (handle_events-Sends s msg route entry w rest)
        | inr speaks ↦
            simp (good, speaks)
              (let out = reply msg route evt.text in
                let r =
                  after_send S C io msg evt entry (record w { sent = w.sent ++ out ∷ [] })
                    (send deliver s.hub out) in
                go_on-Sends w.sent out (replies msg route rest) r
                  (handle_events S C deliver run s msg route entry r.0 rest)
                  (after_send-Stops io msg evt entry _ (send deliver s.hub out))
                  (handle_events-Sends s msg route entry r.0 rest))
      ]
    ]

    -- The events of a call: those of the agent's run in the session, if it is opened.
    pub runs_of : InboundMessage → Route → Session → List (AgentEvent × Io)
    runs_of msg route session = run (record {
      agent_id = route.agent_id;
      session_key = route.session_key;
      run_id = msg.run_id;
      message = msg;
      history = session.history;
      conversation_summary = session.summary;
    })

    -- The session of a call: what opening it gives, or the empty one if the gateway keeps no sessions.
    abbrev pub IsSession : OpenIo → Route → InboundMessage → Option (Manager St) → Session → Type 0
    IsSession io route msg none session = session ≡ no_session
    IsSession io route msg (some m) session = (open_session S C io m route msg).1 ≡ ok session

    -- What a call sends in a session.
    pub record Handles (s : Server Sender) (io : OpenIo) (w : World St) (msg : InboundMessage)
        (r : World St × Outcome) : Type 0 where
      pub session : Session
      pub session_is : IsSession io (resolve s.resolver msg) msg w.sessions session
      pub sends :
          Sends w.sent r.0.sent
            (replies msg (resolve s.resolver msg) (runs_of msg (resolve s.resolver msg) session))
            r.1

    -- A call whose session cannot be opened.
    pub record Fails (w : World St) (r : World St × Outcome) : Type 0 where
      pub reason : Manager.Error
      pub reported : r.1 ≡ session_error reason
      pub nothing_sent : r.0.sent ≡ w.sent

    run_agent-Sends :
        (s : Server Sender) (w : World St) (m : Option (Manager St)) (msg : InboundMessage)
        (session : Session)
        → let r =
            run_agent S C deliver run s msg
              (resolve s.resolver msg)
              (record w { sessions = m })
              session in
          Sends w.sent r.0.sent
            (replies msg (resolve s.resolver msg) (runs_of msg (resolve s.resolver msg) session))
            r.1
    unfolding run_agent runs_of
    run_agent-Sends s w m msg session =
        handle_events-Sends s msg (resolve s.resolver msg) session.entry (record w { sessions = m })
          (runs_of msg (resolve s.resolver msg) session)

    with_session-Handles :
        (s : Server Sender) (io : OpenIo) (w : World St) (msg : InboundMessage) (m : Manager St)
        (o : Manager St × Result Session)
        → w.sessions ≡ some m
        → (open_session S C io m (resolve s.resolver msg) msg).1 ≡ o.1
        → Handles s io w msg (with_session S C deliver run s msg (resolve s.resolver msg) w o)
          ⊎ Fails w (with_session S C deliver run s msg (resolve s.resolver msg) w o)
    unfolding with_session
    with_session-Handles s io w msg m (m', err e) at_w same =
        inr (record { reason = e; reported = refl; nothing_sent = refl })
    with_session-Handles s io w msg m (m', ok session) at_w same = inl (record {
      session = session;
      session_is =
          subst (λ (k : Option (Manager St)). IsSession io (resolve s.resolver msg) msg k session)
            (sym at_w) same;
      sends = run_agent-Sends s w (some m') msg session;
    })

    routed-Handles :
        (s : Server Sender) (io : OpenIo) (w : World St) (msg : InboundMessage)
        (m : Option (Manager St))
        → w.sessions ≡ m
        → Handles s io w msg (routed S C deliver run s io msg (resolve s.resolver msg) w m)
          ⊎ Fails w (routed S C deliver run s io msg (resolve s.resolver msg) w m)
    unfolding routed
    routed-Handles s io w msg none at_w = inl (record {
      session = no_session;
      session_is =
          subst
            (λ (k : Option (Manager St)). IsSession io (resolve s.resolver msg) msg k no_session)
            (sym at_w) refl;
      sends = run_agent-Sends s w w.sessions msg no_session;
    })
    routed-Handles s io w msg (some m) at_w =
        with_session-Handles s io w msg m (open_session S C io m (resolve s.resolver msg) msg) at_w
          refl

    -- A call that changes nothing.
    pub record Refuses (s : Server Sender) (w : World St) (token : Text) (msg : InboundMessage)
        (r : World St × Outcome) : Type 0 where
      pub unchanged : r.0 ≡ w
      pub reason :
          ((authenticate s.token token ≡ none) × (r.1 ≡ unauthorized))
          ⊎ (((is_nil msg.channel || is_nil msg.peer_id) ≡ true) × (r.1 ≡ peer_required))

    -- A call that goes on.
    pub record Accepts (s : Server Sender) (now : ℕ) (io : OpenIo) (w : World St) (token : Text)
        (msg : InboundMessage) (r : World St × Outcome) : Type 0 where
      pub principal : Principal
      pub authenticated : authenticate s.token token ≡ some principal
      pub has_peer : (is_nil msg.channel || is_nil msg.peer_id) ≡ false
      pub handles : Handles s io w (timed now msg) r ⊎ Fails w r

    -- A call with a token that is refused, or with no channel or no peer, changes nothing and sends
    -- nothing. Any other call, whose message gets the time if it has none, either cannot open the session of
    -- the message's route, which it reports, and sends nothing; or it opens it, and hands to the hub, in
    -- order, the replies to the first of the events with a text of the agent's run in that session, each
    -- addressed to the message's channel, account, peer and thread, and to all of them if it ends well.
    pub handle_inbound-Sends :
        (s : Server Sender) (now : ℕ) (io : OpenIo) (w : World St) (token : Text)
        (msg : InboundMessage)
        → Refuses s w token msg (handle_inbound S C deliver run s now io w token msg)
          ⊎ Accepts s now io w token msg (handle_inbound S C deliver run s now io w token msg)
    unfolding handle_inbound
    handle_inbound-Sends s now io w token msg = elim (Option-cases (authenticate s.token token)) [
      | inl refused ↦ simp refused (inl (record { unchanged = refl; reason = inl (refused, refl) }))
      | inr (p, accepted) ↦ elim (Bool-cases (is_nil msg.channel || is_nil msg.peer_id)) [
        | inl missing ↦
            simp (accepted, missing)
              (inl (record { unchanged = refl; reason = inr (missing, refl) }))
        | inr peer ↦
            simp (accepted, peer)
              (inr (record {
                principal = p;
                authenticated = accepted;
                has_peer = peer;
                handles = routed-Handles s io w (timed now msg) w.sessions refl;
              }))
      ]
    ]
