-- ===== src/Sessions.antt =====
-- internal/sessions: the records that the session manager and its stores keep.
-- Times are nanoseconds since Go's zero time. A tool call's input and output are any JSON values, kept
-- as their text.
pub mod Budget
pub mod Summary
pub mod Context
pub mod Transcript
pub mod History
pub mod Store
pub mod Manager
use nisix.Common.{ℕ, Bool, Option, none, some, List, []}
use nisix.Common.Text.{Text}
use nisix.Common.Dict.{Dict}

pub record ContextMessage : Type 0 where
  pub role : Text
  pub text : Text

pub record Entry : Type 0 where
  pub session_key : Text
  pub session_id : Text
  pub agent_id : Text
  pub updated_at : ℕ
  pub context_state_version : ℕ
  pub context_state_sig : Text
  pub summarized_messages : ℕ
  pub conversation_summary : Text
  pub recent_messages : List ContextMessage

pub record ToolCallRecord : Type 0 where
  pub name : Text
  pub input : Text
  pub output : Text
  pub error : Text
  pub status : Text

pub record UsageRecord : Type 0 where
  pub input_tokens : ℕ
  pub output_tokens : ℕ
  pub total_tokens : ℕ

pub record MessageRecord : Type 0 where
  pub schema_version : ℕ
  pub type : Text
  pub event_type : Text
  pub role : Text
  pub session_id : Text
  pub session_key : Text
  pub agent_id : Text
  pub run_id : Text
  pub kind : Text
  pub provider : Text
  pub text : Text
  pub aborted : Bool
  pub tool_call : Option ToolCallRecord
  pub usage : Option UsageRecord
  pub metadata : Dict Text
  pub at : ℕ

pub record AppendOptions : Type 0 where
  pub event_type : Text
  pub run_id : Text
  pub kind : Text
  pub provider : Text
  pub aborted : Bool
  pub tool_call : Option ToolCallRecord
  pub usage : Option UsageRecord
  pub metadata : Dict Text

abbrev pub transcript_schema_v2 : ℕ
transcript_schema_v2 = 2

abbrev pub context_state_version : ℕ
context_state_version = 1

abbrev pub is_none {ℓ} : {A : Type ℓ} → Option A → Bool
is_none none = Bool.true
is_none (some a) = Bool.false
