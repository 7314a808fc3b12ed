-- ===== src/Sessions/Transcript.antt =====
-- internal/sessions/manager.go: a transcript, one JSON record to a line, and the context state that is
-- rebuilt from it. encoding/json is the parameter `Codec`.
pub mod Rebuild
use nisix.Common.{
  ℕ, ◌+◌, ◌≡◌, Bool, true, false, ◌&&◌, ◌||◌, not, Option, none, some, List, [], ◌∷◌, ◌++◌, ◌==◌,
  if◌then◌else◌, length, is_nil,
}
use nisix.Common.Text.{Text, codes, trim_space, split_byte, eq_text}
use nisix.Sessions.{Entry, MessageRecord, is_none, transcript_schema_v2}
use nisix.Sessions.Budget.{Budget}
use nisix.Sessions.Context.{is_context_message, apply_context_message, reset_context}

-- json.Marshal and json.Unmarshal at MessageRecord; `none` is an error.
pub record Codec : Type 0 where
  pub marshal : MessageRecord → Option Text
  pub unmarshal : Text → Option MessageRecord

abbrev pub if_empty : Text → Text → Text
if_empty [] d = d
if_empty (c ∷ s) d = c ∷ s

abbrev pub default_event : Text → Text
default_event type = if eq_text type (codes "event") then codes "event" else codes "message"

-- The fields that only records of schema 2 have.
unfoldable pub has_v2_fields : MessageRecord → Bool
has_v2_fields rec =
    not (is_nil rec.run_id)
    || (not (is_nil rec.kind)
        || (not (is_nil rec.provider)
            || (not (is_none rec.tool_call)
                || (not (is_none rec.usage)
                    || (not (is_nil rec.metadata)
                        || not (eq_text rec.event_type (codes "message")))))))

unfoldable pub default_schema : MessageRecord → MessageRecord
unfolding has_v2_fields
default_schema rec =
    if rec.schema_version == 0
    then record rec { schema_version = if has_v2_fields rec then transcript_schema_v2 else 1 }
    else rec

unfoldable pub normalize_message_record : MessageRecord → Entry → MessageRecord
unfolding default_schema
normalize_message_record rec entry =
    let type = if_empty rec.type (codes "message") in
    default_schema (record rec {
      session_id = if_empty rec.session_id entry.session_id;
      session_key = if_empty rec.session_key entry.session_key;
      agent_id = if_empty rec.agent_id entry.agent_id;
      type = type;
      event_type = if_empty rec.event_type (default_event type);
    })

abbrev normalized : Option MessageRecord → Entry → Option MessageRecord
normalized none entry = none
normalized (some rec) entry = some (normalize_message_record rec entry)

-- What a line of the file gives: nothing for a blank line or one that is no record.
unfoldable pub record_of : Codec → Entry → Text → Option MessageRecord
record_of c entry raw =
    let line = trim_space raw in if is_nil line then none else normalized (c.unmarshal line) entry

-- bytes.Split(b, []byte{'\n'})
unfoldable pub lines : Text → List Text
lines b = split_byte 10 b

abbrev pub rebuild_step : Budget → Entry → Option MessageRecord → Entry
rebuild_step budget acc none = acc
rebuild_step budget acc (some rec) =
    if is_context_message rec.role rec.text rec.event_type
    then apply_context_message acc rec.role rec.text budget
    else acc

-- The loop of rebuildContextStateLocked.
unfoldable pub rebuild_lines : Codec → Entry → Budget → Entry → List Text → Entry
rebuild_lines c entry budget acc [] = acc
rebuild_lines c entry budget acc (line ∷ rest) =
    rebuild_lines c entry budget (rebuild_step budget acc (record_of c entry line)) rest

-- The state rebuilt from the bytes of a transcript; `none` is a file that does not exist.
unfoldable pub rebuild : Codec → Budget → Entry → Option Text → Entry
unfolding rebuild_lines
rebuild c budget entry none = reset_context budget entry
rebuild c budget entry (some b) =
    rebuild_lines c entry budget (reset_context budget entry) (lines b)
