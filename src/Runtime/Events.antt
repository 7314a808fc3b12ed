-- ===== src/Runtime/Events.antt =====
-- internal/agentruntime/runtime.go: the events of !slow, of !tool, and of a model's answer.
use nisix.Common.{
  ℕ, zero, suc, ◌+◌, Bool, true, false, Option, none, some, List, [], ◌∷◌, ◌++◌, if◌then◌else◌,
  is_nil,
}
use nisix.Common.Text.{Text, codes, eq_text, trim_space, cut}
use nisix.Common.Decimal.{itoa}
use nisix.Domain.{AgentEvent, ToolCall}
use nisix.ToolPolicy.{allowed}
use nisix.Tools.Registry.{Registry, ToolResult, result, tool_error, execute}
use nisix.Runtime.Services.{Runtime, Outside, Generated, generated, model_error}
use nisix.Runtime.Lines.{Call, no_call, call, bad_input, parse_tool_call}

-- An event of the run without a tool call.
abbrev pub event : Text → Text → Text → Text → Text → Bool → Bool → AgentEvent
event kind run_id session_key text provider done aborted = record {
  kind = kind;
  run_id = run_id;
  session_key = session_key;
  text = text;
  provider = provider;
  tool_call = none;
  usage = none;
  done = done;
  aborted = aborted;
  failed = false;
}

module _ (run_id session_key : Text) where
  abbrev pub final : Text → Text → AgentEvent
  final text provider = event (codes "final") run_id session_key text provider true false

  abbrev pub aborted_event : AgentEvent
  aborted_event = event (codes "final") run_id session_key (codes "run aborted") [] true true

  abbrev pub tool_event : Text → Option ToolCall → AgentEvent
  tool_event text tool_call =
      record (event (codes "tool") run_id session_key text (codes "tool") false false) {
        tool_call = tool_call;
      }

abbrev no_input : Text
no_input = codes "{}"

abbrev pub shown_result : Outside → Text → Text → Text
shown_result o name out = codes "tool " ++ name ++ codes " result: " ++ o.shown out

abbrev pub run_slow_from : Outside → Text → Text → Text → ℕ → ℕ → List AgentEvent
run_slow_from o run_id session_key payload i zero =
    final run_id session_key (codes "slow run complete") [] ∷ []
run_slow_from o run_id session_key payload i (suc left) =
    let rest = run_slow_from o run_id session_key payload (i + 1) left in
    if o.cancelled i
    then aborted_event run_id session_key ∷ []
    else event (codes "block") run_id session_key
        (codes "chunk " ++ itoa (i + 1) ++ codes ": " ++ payload) [] false false
      ∷ rest

abbrev payload_of : Option (Text × Text) → Text
payload_of none = codes "processing"
payload_of (some (a, b)) = if is_nil (trim_space b) then codes "processing" else trim_space b

-- !slow: twenty blocks, unless the context is done before one.
unfoldable pub run_slow : Outside → Text → Text → Text → List AgentEvent
run_slow o run_id session_key text =
    run_slow_from o run_id session_key (payload_of (cut 32 text)) 0 20

abbrev pub tool_events : Outside → Text → Text → Text → ToolResult → List AgentEvent
tool_events o run_id session_key name (tool_error e) =
    record (final run_id session_key (codes "tool error: " ++ e) (codes "tool")) {
      tool_call = some (record {
        name = name;
        input = no_input;
        output = [];
        error = e;
        status = codes "error";
      });
    }
    ∷ []
tool_events o run_id session_key name (result out) =
    tool_event run_id session_key (shown_result o name out) (
      some (record {
        name = name;
        input = no_input;
        output = out;
        error = [];
        status = codes "success";
      }))
    ∷ final run_id session_key (codes "done") []
    ∷ []

-- The call of an allowed tool. Without a registry, Execute panics on the nil pointer: no events.
abbrev pub executed_tool : Outside → Text → Text → Text → Option Registry → Option (List AgentEvent)
executed_tool o run_id session_key name none = none
executed_tool o run_id session_key name (some reg) =
    some (tool_events o run_id session_key name (execute reg name no_input))

-- !tool NAME; none is a panic.
unfoldable pub run_tool : Runtime → Outside → Text → Text → Text → Option (List AgentEvent)
run_tool r o run_id session_key name =
    if allowed r.policy name
    then executed_tool o run_id session_key name r.tools
    else some (final run_id session_key (codes "tool blocked by policy") (codes "tool") ∷ [])

abbrev pub final_text : Outside → Text → Text → Text
final_text o name out =
    let or_encoded : Text = elim (o.marshal out) [ none ↦ shown_result o name out | some e ↦ e ] in
    if eq_text name (codes "time_now")
    then elim (o.now_field out) [ none ↦ or_encoded | some now ↦ codes "Server time now: " ++ now ]
    else or_encoded

abbrev pub event_if : Text → Text → Text → ToolCall → List AgentEvent
event_if run_id session_key text c =
    if is_nil (trim_space text) then [] else tool_event run_id session_key text (some c) ∷ []

abbrev pub executed_events : Outside → Text → Text → Text → Text → ToolResult → List AgentEvent
executed_events o run_id session_key name input (tool_error e) =
    final run_id session_key (codes "tool error: " ++ e) (codes "tool") ∷ []
executed_events o run_id session_key name input (result out) =
    event_if run_id session_key (shown_result o name out)
      (record { name = name; input = input; output = out; error = []; status = codes "success" })
    ++ final run_id session_key (final_text o name out) (codes "tool") ∷ []

-- The call of an allowed tool in maybeExecuteGeneratedToolCall, which looks for the registry.
abbrev pub registry_execute : Option Registry → Text → Text → ToolResult
registry_execute none name input = tool_error (codes "tools registry is not configured")
registry_execute (some reg) name input = execute reg name input

-- maybeExecuteGeneratedToolCall on what parseToolCallFromGeneratedText found, with the events that Run makes
-- of its answer. The event of a call that is blocked or fails has no text, so that it is not sent.
unfoldable pub generated_events : Runtime → Outside → Text → Text → Text → Call → List AgentEvent
generated_events r o run_id session_key text no_call =
    final run_id session_key text (codes "model") ∷ []
generated_events r o run_id session_key text (bad_input e) =
    final run_id session_key (codes "tool error: " ++ e) (codes "tool") ∷ []
generated_events r o run_id session_key text (call name input) =
    if allowed r.policy name
    then executed_events o run_id session_key name input (registry_execute r.tools name input)
    else final run_id session_key (codes "tool blocked by policy") (codes "tool") ∷ []

abbrev pub model_events : Runtime → Outside → Text → Text → Generated → List AgentEvent
model_events r o run_id session_key (model_error e) =
    final run_id session_key (codes "model error: " ++ e) (codes "model") ∷ []
model_events r o run_id session_key (generated text) =
    generated_events r o run_id session_key text (parse_tool_call o.decode r.tools text)
