-- ===== src/Sessions/Manager/Reads.antt =====
-- Touch and ModelContext.
use nisix.Common.{
  ◌-◌, ◌≤◌, ◌<◌, ◌≡◌, refl, ap, ◌∙◌, inl, inr, true, false, not, Option, none, some, List, [], ◌∷◌,
  if◌then◌else◌, is_nil, length, drop, All, All-drop, map, select, arith, Bool-cases,
}
use nisix.Common.Text.{Text, trim_space, eq_text}
use nisix.Common.TextLaws.{trim_space_idem}
use nisix.Common.Dict
use nisix.Domain.{ConversationMessage}
use nisix.Sessions.{Entry, ContextMessage}
use nisix.Sessions.Budget.{Budget}
use nisix.Sessions.Summary.{render_conversation_summary}
use nisix.Sessions.Context.{context_message}
use nisix.Sessions.Context.Window.{contexts, IsWindow}
use nisix.Sessions.Transcript.{Codec, rebuild, lines}
use nisix.Sessions.Transcript.Rebuild.{transcript_messages, rebuild-IsWindow, pairs}
use nisix.Sessions.Store.{Store}
use nisix.Sessions.Manager.{
  Manager, Io, Result, ok, touched, touch, is_fresh, ensure_context_state, context_of,
  model_context,
}
use nisix.Sessions.Manager.Append.{messages, rebuild-ok, put_ok}

abbrev HasText : ContextMessage → Type 0
HasText msg = is_nil (trim_space msg.text) ≡ false

contexts-HasText : (ms : List (Text × Text)) → All HasText (contexts ms)
unfolding contexts context_message
contexts-HasText [] = tt
contexts-HasText ((role, text) ∷ ms) = elim (Bool-cases (is_nil (trim_space text))) [
  | inl blank ↦ rw blank (contexts-HasText ms)
  | inr full ↦ rw full (rw trim_space_idem full, contexts-HasText ms)
]

transcript-HasText :
    (c : Codec) (e : Entry) (file : Option Text) → All HasText (transcript_messages c e file)
unfolding transcript_messages
transcript-HasText c e none = tt
transcript-HasText c e (some b) = contexts-HasText (pairs c e (lines b))

select-HasText :
    (ms : List ContextMessage)
    → All HasText ms
    → select (λ (m : ContextMessage). not (is_nil (trim_space m.text))) ms ≡ ms
unfolding select
select-HasText [] h = refl
select-HasText (m ∷ ms) (p, h) =
    rw p (ap (λ (l : List ContextMessage). m ∷ l) (select-HasText ms h))

abbrev pub conversation : ContextMessage → ConversationMessage
conversation msg = record { role = msg.role; text = msg.text }

module _ {St : Type 0} (S : Store St) (C : Codec) where
  abbrev all_messages : Manager St → Entry → List ContextMessage
  all_messages m e = messages S C m e

  -- The context of an entry whose window is that of its messages.
  context_of-window :
      (b : Budget) (e : Entry) (all : List ContextMessage)
      → All HasText all
      → IsWindow b all e
      → (context_of S C e).0 ≡ map conversation (drop (length all - b.history_limit) all)
  context_of-window b e all texts w = ap (map conversation) (
      ap (select (λ (m : ContextMessage). not (is_nil (trim_space m.text)))) w.recent
      ∙ select-HasText _ (All-drop HasText (length all - b.history_limit) all texts))

  render-none : (e : Entry) → e.summarized_messages ≡ 0 → render_conversation_summary e ≡ []
  unfolding render_conversation_summary
  render-none e h = rw h

  -- What ModelContext returns, for the messages of a transcript.
  pub record Returned (b : Budget) (all : List ContextMessage)
      (r : Result (List ConversationMessage × Text)) : Type 0 where
    pub history : List ConversationMessage
    pub summary : Text
    pub succeeds : r ≡ ok (history, summary)
    pub newest : history ≡ map conversation (drop (length all - b.history_limit) all)
    pub short : length all ≤ b.history_limit → summary ≡ []

  Returned-window :
      (b : Budget) (e : Entry) (all : List ContextMessage)
      → All HasText all
      → IsWindow b all e
      → Returned b all (ok (context_of S C e))
  Returned-window b e all texts w = record {
    history = (context_of S C e).0;
    summary = (context_of S C e).1;
    succeeds = refl;
    newest = context_of-window b e all texts w;
    short = λ h. render-none e (let c = w.counted in omega arith);
  }

  ensure-stale :
      (io : Io) (m : Manager St) (e : Entry)
      → io.read ≡ true
      → (S.put io.save m.store (rebuild C m.budget e (Dict.get m.files e.session_id))).1 ≡ true
      → is_fresh m.budget e ≡ false
      → (ensure_context_state S C io m e).1
        ≡ ok (rebuild C m.budget e (Dict.get m.files e.session_id))
  unfolding ensure_context_state
  ensure-stale io m e read saved stale = rw (stale, rebuild-ok S C io m e read, saved)

  ensure-fresh :
      (io : Io) (m : Manager St) (e : Entry)
      → is_fresh m.budget e ≡ true
      → (ensure_context_state S C io m e).1 ≡ ok e
  unfolding ensure_context_state
  ensure-fresh io m e fresh = rw fresh

  model_context_result :
      (io : Io) (m : Manager St) (k : Text) (e e' : Entry)
      → S.get m.store k ≡ some e
      → (ensure_context_state S C io m e).1 ≡ ok e'
      → (model_context S C io m k).1 ≡ ok (context_of S C e')
  unfolding model_context
  model_context_result io m k e e' at_key h = rw (at_key, h)

  -- If the session is known, the transcript can be read and the store saves, and a stored context that
  -- counts as made under the present budget is that of the transcript, then ModelContext returns the
  -- last messages of the transcript, at most as many as the budget allows, and no summary if all of
  -- them fit. The stored context may be stale: it is rebuilt first.
  pub model_context-newest :
      (io : Io) (m : Manager St) (k : Text) (e : Entry)
      → 0 < m.budget.history_limit
      → S.get m.store k ≡ some e
      → io.read ≡ true
      → io.save ≡ true
      → (is_fresh m.budget e ≡ true → IsWindow m.budget (messages S C m e) e)
      → Returned m.budget (messages S C m e) (model_context S C io m k).1
  model_context-newest io m k e positive at_key read save fresh_window =
      elim (Bool-cases (is_fresh m.budget e)) [
        | inl fresh ↦
            rw (model_context_result io m k e e at_key (ensure-fresh io m e fresh))
              (Returned-window m.budget e _ (transcript-HasText C e _) (fresh_window fresh))
        | inr stale ↦
            let file = Dict.get m.files e.session_id in
            let built = rebuild C m.budget e file in
            rw
              (model_context_result io m k e built at_key
                (ensure-stale io m e read (put_ok S C io m.store built save) stale))
              (Returned-window m.budget built _ (transcript-HasText C e file)
                (rebuild-IsWindow C m.budget e file positive))
      ]

  -- A store keeps each entry under its own key.
  abbrev pub IsKeyed : St → Type 0
  IsKeyed s = (k : Text) (e : Entry) → S.get s k ≡ some e → e.session_key ≡ k

  touched-session_key :
      (io : Io) (b : Budget) (k agent : Text) (o : Option Entry)
      → ((e : Entry) → o ≡ some e → e.session_key ≡ k)
      → (touched io b k agent o).session_key ≡ k
  unfolding touched
  touched-session_key io b k agent none h = refl
  touched-session_key io b k agent (some e) h = h e refl

  -- Touch returns the entry that is then stored under the key: the one that was there, with its
  -- session, its agent and its context unchanged, or else a new one. Other keys keep their entries.
  pub touch_lem :
      (io : Io) (m : Manager St) (k agent : Text)
      → IsKeyed m.store
      → io.save ≡ true
      → ((touch S C io m k agent).1 ≡ ok (touched io m.budget k agent (S.get m.store k)))
        × ((j : Text)
            → S.get (touch S C io m k agent).0.store j ≡ (
                if eq_text k j
                then some (touched io m.budget k agent (S.get m.store k))
                else S.get m.store j))
  unfolding touch
  touch_lem io m k agent keyed save =
      let e = touched io m.budget k agent (S.get m.store k) in
      let at_key = touched-session_key io m.budget k agent (S.get m.store k) (keyed k) in
      rw (put_ok S C io m.store e save) (refl, λ j. rw (S.get-put, at_key))
