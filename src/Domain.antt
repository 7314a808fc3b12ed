-- ===== src/Domain.antt =====
-- internal/domain/types.go: the messages and routes that the components exchange.
-- `At`, `Meta` and the fields that only pass through are left out of a record where no component
-- of the model reads them.
use nisix.Common.{ℕ, Bool, Option, List}
use nisix.Common.Text.{Text}

pub data ChatType : Type 0 where
  direct group channel : ChatType

pub record InboundMessage : Type 0 where
  pub channel : Text
  pub account_id : Text
  pub peer_id : Text
  pub peer_type : ChatType
  pub user_id : Text
  pub text : Text
  pub thread_id : Text
  pub run_id : Text
  -- nanoseconds since Go's zero time
  pub at : ℕ

pub record OutboundMessage : Type 0 where
  pub channel : Text
  pub account_id : Text
  pub target_id : Text
  pub thread_id : Text
  pub session_key : Text
  pub text : Text

pub record Route : Type 0 where
  pub agent_id : Text
  pub session_key : Text
  pub matched_by : Text
  pub channel : Text
  pub account_id : Text

pub record ConversationMessage : Type 0 where
  pub role : Text
  pub text : Text

pub record AgentIdentity : Type 0 where
  pub name : Text
  pub avatar : Text
  pub emoji : Text

pub record RunRequest : Type 0 where
  pub agent_id : Text
  pub session_key : Text
  pub run_id : Text
  pub message : InboundMessage
  pub history : List ConversationMessage
  pub conversation_summary : Text

-- A tool call's input and output are any JSON values, kept as their text.
pub record ToolCall : Type 0 where
  pub name : Text
  pub input : Text
  pub output : Text
  pub error : Text
  pub status : Text

pub record Usage : Type 0 where
  pub input_tokens : ℕ
  pub output_tokens : ℕ
  pub total_tokens : ℕ

-- `failed` says that Err is not nil.
pub record AgentEvent : Type 0 where
  pub kind : Text
  pub run_id : Text
  pub session_key : Text
  pub text : Text
  pub provider : Text
  pub tool_call : Option ToolCall
  pub usage : Option Usage
  pub done : Bool
  pub aborted : Bool
  pub failed : Bool
