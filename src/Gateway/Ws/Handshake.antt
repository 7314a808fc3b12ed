-- ===== src/Gateway/Ws/Handshake.antt =====
-- No run starts before the handshake, and every run has a token that was accepted.
use mathlib.Core.Path.{subst}
use nisix.Common.{
  ◌+◌, ◌%◌, ◌^◌, ◌≡◌, refl, ap, ◌⊎◌, inl, inr, true, false, ◌&&◌, ◌||◌, not, Option, none, some,
  List, [], ◌∷◌, if◌then◌else◌, All, arith, Bool-cases, Option-cases,
}
use nisix.Common.Text.{Text, codes, eq_text}
use nisix.Common.Sets.{member}
use nisix.Common.Dict
use nisix.Router.{Resolver, resolve}
use nisix.Security.{authenticate}
use nisix.Gateway.Ws.{
  RequestFrame, ConnectParams, ChatSendParams, ChatAbortParams, Decoder, Answer, hello, aborted,
  served, Connection, new_connection, Io, validate_request, close, send_res, send_err, above,
  current_protocol, greeted, connect, next_run_id, inbound_of, unregister_run, start_run, chat_send,
  find_run_to_abort, chat_abort, answered, handle_request, Step, request, hangs_up, run_starts,
  run_ends, Reachable, opened, after,
}

-- A token that the gateway accepts.
abbrev pub IsAccepted : Text → Text → Type 0
IsAccepted token given = authenticate token given ≡ none → ⊥

-- The state of a connection: without the handshake there is no run, and with it the token is accepted;
-- every run that was started has an accepted token.
pub record IsSafe (token : Text) (c : Connection) : Type 0 where
  pub idle : c.connected ≡ false → (c.active_runs ≡ []) × (c.pending ≡ [])
  pub greeted_token : c.connected ≡ true → IsAccepted token c.session_token
  pub runs : All (λ (run : Text × Text). IsAccepted token run.1) c.started

module _ (token : Text) where
  close-IsSafe : (c : Connection) → IsSafe token c → IsSafe token (close c)
  unfolding close
  close-IsSafe c h = record { idle = h.idle; greeted_token = h.greeted_token; runs = h.runs }

  send_res-IsSafe :
      (io : Io) (c : Connection) (id : Text) (answer : Answer)
      → IsSafe token c
      → IsSafe token (send_res io c id answer).0
  unfolding send_res
  send_res-IsSafe io c id answer h = elim (Bool-cases io.written) [
    | inl written ↦ simp written h
    | inr lost ↦ simp lost (close-IsSafe c h)
  ]

  unregister-IsSafe :
      (c : Connection) (run_id : Text) → IsSafe token c → IsSafe token (unregister_run c run_id)
  unfolding unregister_run Dict.remove
  unregister-IsSafe c run_id h = record {
    idle = λ e. (ap (λ (m : Dict.Dict Text). Dict.remove m run_id) (h.idle e).0, (h.idle e).1);
    greeted_token = h.greeted_token;
    runs = h.runs;
  }

  start_run-IsSafe :
      (c : Connection) (run_id : Text) → IsSafe token c → IsSafe token (start_run c run_id)
  unfolding start_run member
  start_run-IsSafe c run_id h = elim (Bool-cases (member c.pending run_id)) [
    | inr other ↦ simp other h
    | inl waits ↦ elim (Bool-cases c.connected) [
      | inr before ↦
          let empty = (h.idle before).1 in let none_waits = rw empty at waits in absurd (cc)
      | inl greets ↦ simp waits (record {
        idle = λ e. absurd (cc);
        greeted_token = h.greeted_token;
        runs = (h.greeted_token greets, h.runs);
      })
    ]
  ]

  greeted-IsSafe :
      (io : Io) (c c' : Connection) (out : List (Text × Answer))
      → IsSafe token c'
      → IsSafe token (greeted io c (c', out)).0
  greeted-IsSafe io c c' out h = elim (Bool-cases io.written) [
    | inl written ↦
        simp written (record { idle = h.idle; greeted_token = h.greeted_token; runs = h.runs })
    | inr lost ↦ simp lost h
  ]

  connect-IsSafe :
      (io : Io) (c : Connection) (id : Text) (p : Option ConnectParams)
      → IsSafe token c
      → IsSafe token (connect token io c id p).0
  unfolding connect send_err
  connect-IsSafe io c id none h = h
  connect-IsSafe io c id (some p) h =
      elim (Bool-cases
        (above p.min_protocol current_protocol || above current_protocol p.max_protocol)) [
          | inl mismatch ↦ simp mismatch h
          | inr fits ↦ elim (Option-cases (authenticate token p.token)) [
            | inl refused ↦ simp (fits, refused) h
            | inr (who, accepts) ↦
                let c' = record c { session_token = p.token; connected = true } in
                let greets : IsSafe token c' = record {
                  idle = λ e. absurd (cc);
                  greeted_token = λ _ refused. cc;
                  runs = h.runs;
                } in
                simp (fits, accepts)
                  (greeted-IsSafe io c' (send_res io c' id hello).0 (send_res io c' id hello).1
                    (send_res-IsSafe io c' id hello greets))
          ]
        ]

  -- chat.send comes after the handshake.
  chat_send-IsSafe :
      (r : Resolver) (io : Io) (c : Connection) (id : Text) (p : Option ChatSendParams)
      → c.connected ≡ true
      → IsSafe token c
      → IsSafe token (chat_send r io c id p).0
  unfolding chat_send send_err
  chat_send-IsSafe r io c id none greets h = h
  chat_send-IsSafe r io c id (some p) greets h = elim (Bool-cases io.written) [
    | inl written ↦
        simp written
          (record { idle = λ e. absurd (cc); greeted_token = h.greeted_token; runs = h.runs })
    | inr lost ↦
        let run_id = next_run_id io c in
        let registered = record c {
          run_counter = (c.run_counter + 1) % 2 ^ 64;
          active_runs =
              Dict.put c.active_runs run_id (resolve r (inbound_of io run_id p)).session_key;
          cancelled = run_id ∷ c.cancelled;
        } in
        simp lost (
          close-IsSafe (unregister_run registered run_id) (
            unregister-IsSafe registered run_id
              (record { idle = λ e. absurd (cc); greeted_token = h.greeted_token; runs = h.runs })))
  ]

  chat_abort-IsSafe :
      (io : Io) (c : Connection) (id : Text) (p : Option ChatAbortParams)
      → IsSafe token c
      → IsSafe token (chat_abort io c id p).0
  unfolding chat_abort send_err
  chat_abort-IsSafe io c id none h = h
  chat_abort-IsSafe io c id (some p) h =
      elim (Option-cases (find_run_to_abort io c.active_runs p)) [
        | inl missing ↦ simp missing h
        | inr ((run_id, key), found) ↦ simp found (
            send_res-IsSafe io (record c { cancelled = run_id ∷ c.cancelled }) id
              (aborted run_id key)
              (record { idle = h.idle; greeted_token = h.greeted_token; runs = h.runs }))
      ]

  answered-IsSafe :
      (io : Io) (c : Connection) (id : Text) (a : Text ⊎ Text)
      → IsSafe token c
      → IsSafe token (answered io c id a).0
  unfolding send_err
  answered-IsSafe io c id (inl result) h = send_res-IsSafe io c id (served result) h
  answered-IsSafe io c id (inr code) h = h

module _ {P : Type 0} (decode : Decoder P) (serve : Text → P → Text ⊎ Text) (r : Resolver)
    (token : Text) where
  after_handshake-IsSafe :
      (io : Io) (c : Connection) (req : RequestFrame P)
      → c.connected ≡ true
      → IsSafe token c
      → IsSafe token
          (if eq_text req.method (codes "chat.send")
            then chat_send r io c req.id (decode.chat_send req.params)
            else if eq_text req.method (codes "chat.abort")
            then chat_abort io c req.id (decode.chat_abort req.params)
            else answered io c req.id (serve req.method req.params)).0
  after_handshake-IsSafe io c req greets h =
      elim (Bool-cases (eq_text req.method (codes "chat.send"))) [
        | inl sends ↦
            rw sends (chat_send-IsSafe token r io c req.id (decode.chat_send req.params) greets h)
        | inr other ↦ elim (Bool-cases (eq_text req.method (codes "chat.abort"))) [
          | inl aborts ↦
              rw (other, aborts)
                (chat_abort-IsSafe token io c req.id (decode.chat_abort req.params) h)
          | inr rest ↦
              rw (other, rest) (answered-IsSafe token io c req.id (serve req.method req.params) h)
        ]
      ]

  handle_request-IsSafe :
      (io : Io) (c : Connection) (req : RequestFrame P)
      → IsSafe token c
      → IsSafe token (handle_request decode serve r token io c req).0
  unfolding handle_request send_err
  handle_request-IsSafe io c req h = elim (Bool-cases (validate_request req)) [
    | inr invalid ↦ rw invalid h
    | inl valid ↦
        elim (Bool-cases (not c.connected && not (eq_text req.method (codes "connect")))) [
          | inl unready ↦ rw (valid, unready) (close-IsSafe token c h)
          | inr ready ↦ elim (Bool-cases (eq_text req.method (codes "connect"))) [
            | inl greets ↦
                rw (valid, ready, greets)
                  (connect-IsSafe token io c req.id (decode.connect req.params) h)
            | inr other ↦
                let greeted_before : c.connected ≡ true = ground arith in
                rw (valid, ready, other) (after_handshake-IsSafe io c req greeted_before h)
          ]
        ]
  ]

  Step-IsSafe :
      {c c' : Connection} → Step decode serve r token c c' → IsSafe token c → IsSafe token c'
  Step-IsSafe (request {c} io req is_open same) h =
      subst (IsSafe token) same (handle_request-IsSafe io c req h)
  Step-IsSafe (hangs_up {c} same) h = subst (IsSafe token) same (close-IsSafe token c h)
  Step-IsSafe (run_starts {c} run_id same) h =
      subst (IsSafe token) same (start_run-IsSafe token c run_id h)
  Step-IsSafe (run_ends {c} run_id same) h =
      subst (IsSafe token) same (unregister-IsSafe token c run_id h)

  -- In every state that a connection reaches, by requests of any kind, a hang-up, and runs that start and end at
  -- any time, there is no run without a successful connect, and every run that was started has a token that
  -- the gateway accepts.
  pub Reachable-IsSafe : {c : Connection} → Reachable decode serve r token c → IsSafe token c
  unfolding new_connection
  Reachable-IsSafe opened = record {
    idle = λ e. (refl, refl);
    greeted_token = λ e. absurd (cc);
    runs = tt;
  }
  Reachable-IsSafe (after steps step) = Step-IsSafe step (Reachable-IsSafe steps)
