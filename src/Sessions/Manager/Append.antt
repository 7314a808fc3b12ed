-- ===== src/Sessions/Manager/Append.antt =====
-- Appending a context message: the state that is kept step by step against the transcript.
use mathlib.Core.Path.{subst}
use mathlib.Core.List.{append_assoc}
use nisix.Common.{
  ℕ, ◌<◌, ◌≡◌, refl, sym, ap, ◌∙◌, inr, Bool, true, false, none, some, List, [], ◌∷◌, ◌++◌, is_nil,
  arith,
}
use nisix.Common.Text.{Text, trim_space, eq_text_refl}
use nisix.Common.Dict
use nisix.Common.Dict.{Dict, get-put}
use nisix.Sessions.{Entry, AppendOptions, ContextMessage}
use nisix.Sessions.Budget.{Budget}
use nisix.Sessions.Context.{is_context_message, context_message, apply_context_message}
use nisix.Sessions.Context.Window.{IsWindow, apply-IsWindow, apply-session_key, apply-session_id}
use nisix.Sessions.Transcript.{Codec, rebuild}
use nisix.Sessions.Transcript.Rebuild.{
  transcript_messages, transcript_messages-entry, transcript_messages-append, rebuild-IsWindow,
  rebuild-session_id, rebuild-session_key, IsComplete, Writes, bytes_of,
}
use nisix.Sessions.Store.{Store}
use nisix.Sessions.Manager.{
  Manager, Io, Result, ok, record_for, nothing_to_append, is_fresh, rebuild_context_state,
  ensure_context_state, update_context, append_with_options,
}

-- Every system call of an append succeeds.
pub record AllSucceed (io : Io) : Type 0 where
  pub mkdir : io.mkdir ≡ true
  pub open_file : io.open_file ≡ true
  pub write : io.short_write ≡ none
  pub read : io.read ≡ true
  pub save : io.save ≡ true

nonblank :
    (role text event : Text)
    → is_context_message role text event ≡ true
    → is_nil (trim_space text) ≡ false
unfolding is_context_message
nonblank role text event h = ground arith

nonblank_message :
    (role text event : Text)
    → is_context_message role text event ≡ true
    → is_nil (context_message role text).text ≡ false
unfolding context_message
nonblank_message role text event h = nonblank role text event h

record_for-event :
    (io : Io) (e : Entry) (role text : Text) (opts : AppendOptions)
    → is_nil (record_for io e role text opts).event_type ≡ false
unfolding record_for
record_for-event io e role text opts = ground arith

-- The time of the last update is no part of the context.
retimed :
    {b : Budget} {all : List ContextMessage} {e : Entry} (t : ℕ)
    → IsWindow b all e
    → IsWindow b all (record e { updated_at = t })
retimed t w = record { recent = w.recent; counted = w.counted; summary = w.summary }

module _ {St : Type 0} (S : Store St) (C : Codec) where
  -- The messages of the transcript of an entry's session.
  abbrev pub messages : Manager St → Entry → List ContextMessage
  messages m e = transcript_messages C e (Dict.get m.files e.session_id)

  -- The stored context of a session is that of its transcript.
  pub record IsCoherent (m : Manager St) (e : Entry) : Type 0 where
    pub stored : S.get m.store e.session_key ≡ some e
    pub window : IsWindow m.budget (messages m e) e
    pub complete : IsComplete (bytes_of (Dict.get m.files e.session_id))

  -- The manager once a line is written.
  abbrev after_write : Manager St → Entry → Text → Manager St
  after_write m e line =
      let b = bytes_of (Dict.get m.files e.session_id) in
      record m {
        files = Dict.put (Dict.put m.files e.session_id b) e.session_id (b ++ (line ++ 10 ∷ []));
      }

  append-written :
      (io : Io) (m : Manager St) (e : Entry) (role text : Text) (opts : AppendOptions) (line : Text)
      → AllSucceed io
      → is_context_message role text (record_for io e role text opts).event_type ≡ true
      → C.marshal (record_for io e role text opts) ≡ some line
      → append_with_options S C io m e role text opts
        ≡ update_context S C io (after_write m e line) e role text
  unfolding append_with_options nothing_to_append
  append-written io m e role text opts line good in_context enc =
      rw (nonblank role text _ in_context, enc, good.mkdir, good.open_file, good.write)
        (unfold record_for in rw in_context)

  pub put_ok : (io : Io) (s : St) (e : Entry) → io.save ≡ true → (S.put io.save s e).1 ≡ true
  put_ok io s e save = subst (λ (b : Bool). (S.put b s e).1 ≡ true) (sym save) (S.put_succeeds s e)

  -- The entry after a message.
  abbrev after_message : Io → Budget → Entry → Text → Text → Entry
  after_message io b e role text = record (apply_context_message e role text b) {
    updated_at = io.now;
  }

  update-fresh :
      (io : Io) (m : Manager St) (entry latest : Entry) (role text : Text)
      → AllSucceed io
      → S.get m.store entry.session_key ≡ some latest
      → is_fresh m.budget latest ≡ true
      → update_context S C io m entry role text ≡ (
        record m { store = (S.put io.save m.store (after_message io m.budget latest role text)).0 },
        ok tt,
      )
  unfolding update_context ensure_context_state
  update-fresh io m entry latest role text good at_key fresh =
      rw (at_key, fresh, put_ok io m.store (after_message io m.budget latest role text) good.save)

  pub rebuild-ok :
      (io : Io) (m : Manager St) (e : Entry)
      → io.read ≡ true
      → rebuild_context_state S C io m e ≡ ok (rebuild C m.budget e (Dict.get m.files e.session_id))
  unfolding rebuild_context_state
  rebuild-ok io m e good = ground arith

  update-stale :
      (io : Io) (m : Manager St) (entry latest : Entry) (role text : Text)
      → AllSucceed io
      → S.get m.store entry.session_key ≡ some latest
      → is_fresh m.budget latest ≡ false
      → update_context S C io m entry role text ≡ (
        let built = rebuild C m.budget latest (Dict.get m.files latest.session_id) in
            record m {
              store =
                  (S.put io.save
                    (S.put io.save m.store built).0
                    (after_message io m.budget built role text)).0;
            },
        ok tt,
      )
  unfolding update_context ensure_context_state
  update-stale io m entry latest role text good at_key stale =
      let built = rebuild C m.budget latest (Dict.get m.files latest.session_id) in
      rw (
        at_key,
        stale,
        rebuild-ok io m latest good.read,
        put_ok io m.store built good.save,
        put_ok io (S.put io.save m.store built).0 (after_message io m.budget built role text)
            good.save,
      )

  files_at :
      (m : Manager St) (entry e' : Entry) (line : Text)
      → e'.session_id ≡ entry.session_id
      → Dict.get (after_write m entry line).files e'.session_id
        ≡ some (bytes_of (Dict.get m.files entry.session_id) ++ (line ++ 10 ∷ []))
  files_at m entry e' line id = rw (id, get-put, eq_text_refl)

  -- The transcript of the session after a line.
  messages-after :
      (io : Io) (m : Manager St) (s : St) (entry latest e' : Entry) (role text : Text)
      (opts : AppendOptions) (line : Text)
      → latest.session_id ≡ entry.session_id
      → e'.session_id ≡ entry.session_id
      → IsComplete (bytes_of (Dict.get m.files latest.session_id))
      → is_context_message role text (record_for io entry role text opts).event_type ≡ true
      → Writes C (record_for io entry role text opts) line
      → messages (record (after_write m entry line) { store = s }) e'
        ≡ messages m latest ++ context_message role text ∷ []
  messages-after io m s entry latest e' role text opts line id id' whole in_context w =
      ap (transcript_messages C e') (files_at m entry e' line id')
      ∙ transcript_messages-entry C e' latest _
      ∙ unfold record_for in
        transcript_messages-append C latest (Dict.get m.files entry.session_id)
          (record_for io entry role text opts) line (rw id at whole) w in_context
          (record_for-event io entry role text opts) (nonblank_message role text _ in_context)
        ∙ ap
            (λ (k : Text).
              transcript_messages C latest (Dict.get m.files k) ++ context_message role text ∷ [])
            (sym id)

  IsComplete-after :
      (m : Manager St) (entry e' : Entry) (line : Text)
      → e'.session_id ≡ entry.session_id
      → IsComplete (bytes_of (Dict.get (after_write m entry line).files e'.session_id))
  IsComplete-after m entry e' line id = rw (files_at m entry e' line id) (
      inr
        (bytes_of (Dict.get m.files entry.session_id) ++ line, sym (append_assoc _ line (10 ∷ []))))

  -- What an append of a context message leaves.
  pub record Appended (m : Manager St) (r : Manager St × Result (Unit {0})) (latest : Entry)
      (role text : Text) : Type 0 where
    pub succeeds : r.1 ≡ ok tt
    pub entry : Entry
    pub same_key : entry.session_key ≡ latest.session_key
    pub coherent : IsCoherent r.0 entry
    pub grown : messages r.0 entry ≡ messages m latest ++ context_message role text ∷ []

  -- If the stored context of a session is that of its transcript and was made under the present
  -- budget, then an append of a context message, with every system call good, keeps it so: the
  -- transcript has the message at its end, and the stored context is again that of the transcript.
  pub append-IsCoherent :
      (io : Io) (m : Manager St) (entry latest : Entry) (role text : Text) (opts : AppendOptions)
      (line : Text)
      → AllSucceed io
      → 0 < m.budget.history_limit
      → latest.session_key ≡ entry.session_key
      → latest.session_id ≡ entry.session_id
      → IsCoherent m latest
      → is_fresh m.budget latest ≡ true
      → is_context_message role text (record_for io entry role text opts).event_type ≡ true
      → Writes C (record_for io entry role text opts) line
      → Appended m (append_with_options S C io m entry role text opts) latest role text
  append-IsCoherent io m entry latest role text opts line good positive key id coh fresh in_context
        w =
      subst (λ (r : Manager St × Result (Unit {0})). Appended m r latest role text)
        (sym (
          append-written io m entry role text opts line good in_context w.marshalled
          ∙ update-fresh io (after_write m entry line) entry latest role text good
              (rw (← key) coh.stored) fresh))
        (let e' = after_message io m.budget latest role text in
          let id' : e'.session_id ≡ entry.session_id =
            apply-session_id m.budget latest role text ∙ id in
          let grown =
            messages-after io m (S.put io.save m.store e').0 entry latest e' role text opts line id
              id' coh.complete in_context w in
          let at_key : S.get (S.put io.save m.store e').0 e'.session_key ≡ some e' =
            rw (S.get-put, eq_text_refl) in
          record {
            succeeds = refl;
            entry = e';
            same_key = apply-session_key m.budget latest role text;
            coherent = record {
              stored = at_key;
              window = rw grown (
                  retimed io.now (
                    apply-IsWindow m.budget positive (messages m latest) latest role text
                      (nonblank_message role text _ in_context) coh.window));
              complete = IsComplete-after m entry e' line id';
            };
            grown = grown;
          })

  -- What an append leaves that rebuilds the context first.
  pub record AppendedTwice (m : Manager St) (r : Manager St × Result (Unit {0})) (latest : Entry)
      (role text : Text) : Type 0 where
    pub succeeds : r.1 ≡ ok tt
    pub entry : Entry
    pub same_key : entry.session_key ≡ latest.session_key
    pub stored : S.get r.0.store entry.session_key ≡ some entry
    pub grown : messages r.0 entry ≡ messages m latest ++ context_message role text ∷ []
    pub window :
        IsWindow m.budget
          (messages m latest ++ context_message role text ∷ context_message role text ∷ [])
          entry

  -- If the stored context was made under another budget, an append of a context message rebuilds it
  -- from the transcript, which has the message already, and applies the message once more: the
  -- stored context is that of a transcript with the message twice, though the transcript has it once.
  pub append-stale :
      (io : Io) (m : Manager St) (entry latest : Entry) (role text : Text) (opts : AppendOptions)
      (line : Text)
      → AllSucceed io
      → 0 < m.budget.history_limit
      → latest.session_id ≡ entry.session_id
      → S.get m.store entry.session_key ≡ some latest
      → IsComplete (bytes_of (Dict.get m.files latest.session_id))
      → is_fresh m.budget latest ≡ false
      → is_context_message role text (record_for io entry role text opts).event_type ≡ true
      → Writes C (record_for io entry role text opts) line
      → AppendedTwice m (append_with_options S C io m entry role text opts) latest role text
  append-stale io m entry latest role text opts line good positive id at_key whole stale in_context
        w =
      subst (λ (r : Manager St × Result (Unit {0})). AppendedTwice m r latest role text)
        (sym (
          append-written io m entry role text opts line good in_context w.marshalled
          ∙ update-stale io (after_write m entry line) entry latest role text good at_key stale))
        (let file = Dict.get (after_write m entry line).files latest.session_id in
          let built = rebuild C m.budget latest file in
          let e' = after_message io m.budget built role text in
          let msg = context_message role text in
          let built_id : built.session_id ≡ latest.session_id =
            rebuild-session_id C m.budget latest file in
          let built_key : built.session_key ≡ latest.session_key =
            rebuild-session_key C m.budget latest file in
          let id' : e'.session_id ≡ entry.session_id =
            apply-session_id m.budget built role text ∙ built_id ∙ id in
          let s1 = (S.put io.save m.store built).0 in
          let after : transcript_messages C latest file ≡ messages m latest ++ msg ∷ [] =
            messages-after io m s1 entry latest latest role text opts line id id whole in_context
              w in
          let twice : IsWindow m.budget ((messages m latest ++ msg ∷ []) ++ msg ∷ []) e' =
            retimed io.now (
              apply-IsWindow m.budget positive (messages m latest ++ msg ∷ []) built role text
                (nonblank_message role text _ in_context)
                (rw (← after) (rebuild-IsWindow C m.budget latest file positive))) in
          record {
            succeeds = refl;
            entry = e';
            same_key = apply-session_key m.budget built role text ∙ built_key;
            stored = rw (S.get-put, eq_text_refl);
            grown =
                messages-after io m (S.put io.save s1 e').0 entry latest e' role text opts line id
                  id' whole in_context w;
            window = rw append_assoc at twice;
          })
