-- ===== src/Sessions/Manager.antt =====
-- internal/sessions/manager.go: Manager, over any store (the parameter `S`) and any encoding of the
-- records (the parameter `C`). An operation gets what the environment decides: which system calls
-- succeed, and what the clock shows. Of the directory of transcripts the model keeps the bytes of
-- each file, under its session id.
pub mod Append
pub mod Reads
use nisix.Common.{
  ℕ, ◌+◌, Bool, true, false, ◌&&◌, ◌||◌, not, Option, none, some, List, [], ◌∷◌, ◌++◌, ◌==◌,
  if◌then◌else◌, take, is_nil, select, map,
}
use nisix.Common.Text.{Text, codes, trim_space, eq_text}
use nisix.Common.Dict
use nisix.Common.Dict.{Dict}
use nisix.Common.Decimal.{itoa}
use nisix.Domain.{ConversationMessage}
use nisix.Sessions.{
  Entry, MessageRecord, AppendOptions, ContextMessage, context_state_version, transcript_schema_v2,
  is_none,
}
use nisix.Sessions.Budget.{Budget, ContextBudget, normalize_context_budget, context_state_signature}
use nisix.Sessions.Summary.{render_conversation_summary}
use nisix.Sessions.Context.{is_context_message, apply_context_message}
use nisix.Sessions.Transcript.{Codec, rebuild}
use nisix.Sessions.Transcript.Rebuild.{bytes_of}
use nisix.Sessions.Store.{Store}
use nisix.Sessions.History.{HistoryFilter, HistoryPage, history_page}

pub data Error : Type 0 where
  file_error encode_error store_error key_not_found : Error

pub data Result {ℓ} (A : Type ℓ) : Type ℓ where
  ok : A → Result A
  err : Error → Result A

pub record Manager (St : Type 0) : Type 0 where
  pub store : St
  pub files : Dict Text
  pub budget : Budget

pub record Io : Type 0 where
  -- os.MkdirAll, os.OpenFile
  pub mkdir : Bool
  pub open_file : Bool
  -- the number of bytes written before Write failed, none if it did not
  pub short_write : Option ℕ
  -- reading a file that exists
  pub read : Bool
  -- the system calls of a store's save
  pub save : Bool
  pub now : ℕ
  pub unix_nano : ℕ

abbrev pub found {ℓ} : {A : Type ℓ} → Option A → Bool
found o = not (is_none o)

-- Put's error.
abbrev pub stored {ℓ κ} : {St : Type ℓ} {A : Type κ} → St × Bool → A → St × Result A
stored (s, true) a = (s, ok a)
stored (s, false) a = (s, err store_error)

module _ {St : Type 0} where
  abbrev pub with_store {ℓ} : {A : Type ℓ} → Manager St → St × Result A → Manager St × Result A
  with_store m (s, r) = (record m { store = s }, r)

  unfoldable pub set_context_budget : Manager St → ContextBudget → Manager St
  set_context_budget m budget = record m { budget = normalize_context_budget budget }

-- The record that AppendWithOptions writes.
unfoldable pub record_for : Io → Entry → Text → Text → AppendOptions → MessageRecord
record_for io entry role text opts =
    let given = trim_space opts.event_type in
    let event_type = if is_nil given then codes "message" else given in
    record {
      schema_version = transcript_schema_v2;
      type = if eq_text event_type (codes "message") then codes "message" else codes "event";
      event_type = event_type;
      role = role;
      session_id = entry.session_id;
      session_key = entry.session_key;
      agent_id = entry.agent_id;
      run_id = trim_space opts.run_id;
      kind = trim_space opts.kind;
      provider = trim_space opts.provider;
      text = text;
      aborted = opts.aborted;
      tool_call = opts.tool_call;
      usage = opts.usage;
      metadata = opts.metadata;
      at = io.now;
    }

-- The early return of AppendWithOptions.
unfoldable pub nothing_to_append : Text → AppendOptions → Bool
nothing_to_append text opts =
    is_nil (trim_space text)
    && (is_none opts.tool_call && (is_none opts.usage && is_nil opts.metadata))

unfoldable pub is_fresh : Budget → Entry → Bool
is_fresh b entry =
    entry.context_state_version == context_state_version
    && eq_text entry.context_state_sig (context_state_signature b)

new_entry : Io → Budget → Text → Text → Entry
new_entry io budget session_key agent_id = record {
  session_key = session_key;
  session_id = codes "sess-" ++ itoa io.unix_nano;
  agent_id = agent_id;
  updated_at = io.now;
  context_state_version = context_state_version;
  context_state_sig = context_state_signature budget;
  summarized_messages = 0;
  conversation_summary = [];
  recent_messages = [];
}

-- The entry that Touch stores.
unfoldable pub touched : Io → Budget → Text → Text → Option Entry → Entry
unfolding new_entry
touched io budget session_key agent_id none = new_entry io budget session_key agent_id
touched io budget session_key agent_id (some e) = record e { updated_at = io.now }

module _ {St : Type 0} (S : Store St) (C : Codec) where
  unfoldable pub touch : Io → Manager St → Text → Text → Manager St × Result Entry
  touch io m session_key agent_id =
      let e = touched io m.budget session_key agent_id (S.get m.store session_key) in
      with_store m (stored (S.put io.save m.store e) e)

  -- rebuildContextStateLocked
  unfoldable pub rebuild_context_state : Io → Manager St → Entry → Result Entry
  rebuild_context_state io m entry =
      let file = Dict.get m.files entry.session_id in
      if found file && not io.read then err file_error else ok (rebuild C m.budget entry file)

  abbrev store_rebuilt : Io → Manager St → Result Entry → Manager St × Result Entry
  store_rebuilt io m (err e) = (m, err e)
  store_rebuilt io m (ok e) = with_store m (stored (S.put io.save m.store e) e)

  -- ensureContextStateLocked
  unfoldable pub ensure_context_state : Io → Manager St → Entry → Manager St × Result Entry
  ensure_context_state io m entry =
      if is_fresh m.budget entry
      then (m, ok entry)
      else store_rebuilt io m (rebuild_context_state io m entry)

  abbrev latest_or : Option Entry → Entry → Entry
  latest_or none e = e
  latest_or (some e') e = e'

  abbrev put_applied : Io → Text → Text → Manager St × Result Entry → Manager St × Result (Unit {0})
  put_applied io role text (m, err e) = (m, err e)
  put_applied io role text (m, ok e) =
      let updated = record (apply_context_message e role text m.budget) { updated_at = io.now } in
      with_store m (stored (S.put io.save m.store updated) tt)

  -- The end of AppendWithOptions, once the line is written.
  unfoldable pub update_context :
      Io → Manager St → Entry → Text → Text → Manager St × Result (Unit {0})
  update_context io m entry role text =
      put_applied io role text
        (ensure_context_state io m (latest_or (S.get m.store entry.session_key) entry))

  -- The write of a line to a file, and what follows it.
  abbrev written :
      Io
      → Manager St
      → Entry
      → MessageRecord
      → Text
      → Option Text
      → Option ℕ
      → Manager St × Result (Unit {0})
  written io m entry rec b none short = (m, err encode_error)
  written io m entry rec b (some line) (some n) = (
    record m { files = Dict.put m.files entry.session_id (b ++ take n (line ++ 10 ∷ [])) },
    err file_error,
  )
  written io m entry rec b (some line) none =
      let m' = record m { files = Dict.put m.files entry.session_id (b ++ (line ++ 10 ∷ [])) } in
      if is_context_message rec.role rec.text rec.event_type
      then update_context io m' entry rec.role rec.text
      else (m', ok tt)

  -- AppendWithOptions
  unfoldable pub append_with_options :
      Io → Manager St → Entry → Text → Text → AppendOptions → Manager St × Result (Unit {0})
  append_with_options io m entry role text opts =
      let rec = record_for io entry role text opts in
      let b = bytes_of (Dict.get m.files entry.session_id) in
      let opened = record m { files = Dict.put m.files entry.session_id b } in
      if nothing_to_append text opts
      then (m, ok tt)
      else if not (io.mkdir && io.open_file)
      then (m, err file_error)
      else written io opened entry rec b (C.marshal rec) io.short_write

  abbrev pub context_of : Entry → List ConversationMessage × Text
  context_of entry = (
    map
        (λ (msg : ContextMessage).
          let r : ConversationMessage = record { role = msg.role; text = msg.text } in r)
        (select (λ (msg : ContextMessage). not (is_nil (trim_space msg.text)))
          entry.recent_messages),
    render_conversation_summary entry,
  )

  abbrev context_result :
      Manager St × Result Entry → Manager St × Result (List ConversationMessage × Text)
  context_result (m, err e) = (m, err e)
  context_result (m, ok e) = (m, ok (context_of e))

  abbrev model_context_of :
      Io → Manager St → Option Entry → Manager St × Result (List ConversationMessage × Text)
  model_context_of io m none = (m, err key_not_found)
  model_context_of io m (some e) = context_result (ensure_context_state io m e)

  -- ModelContext
  unfoldable pub model_context :
      Io → Manager St → Text → Manager St × Result (List ConversationMessage × Text)
  model_context io m session_key = model_context_of io m (S.get m.store session_key)

  abbrev page_of : Io → Manager St → HistoryFilter → Option Entry → Result (Option HistoryPage)
  page_of io m filter none = err key_not_found
  page_of io m filter (some e) =
      let file = Dict.get m.files e.session_id in
      if found file && not io.read then err file_error else ok (history_page C e filter file)

  -- HistoryPageFiltered; a panic is `ok none`.
  unfoldable pub history_page_filtered :
      Io → Manager St → Text → HistoryFilter → Result (Option HistoryPage)
  history_page_filtered io m session_key filter = page_of io m filter (S.get m.store session_key)
