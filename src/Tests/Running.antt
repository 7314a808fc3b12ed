-- ===== src/Tests/Running.antt =====
-- internal/tools and internal/agentruntime on concrete tools and messages.
use nisix.Common.Dict
use nisix.Common.Sorting.{sort_strings}
use nisix.Common.{◌≡◌, refl, true, false, none, some, List, [], ◌∷◌, arith, length}
use nisix.Common.Text.{Text, codes}
use nisix.Common.Int.{pos, positive_or}
use nisix.Domain.{RunRequest, direct}
use nisix.Tools.Registry.{Tool, result, list, names_of, register, new_registry}
use nisix.Tools.Registry.Registered.{run-IsRegistry, IsRegistry}
use nisix.Tools.Registry.Registered
use nisix.Tools.Shell.{
  new_shell_tool, int, duration, resolve_timeout, new_limited_buffer, write, max_shell_output_bytes,
  as_int, seconds,
}
use nisix.Tools.Shell.Output.{write_all, concat, Holds, write_all-Holds_prefix}
use nisix.Tools.Shell.Timeout.{KeepsLimit, resolve_timeout-KeepsLimit}
use nisix.Skills.Loading.{missing}
use nisix.Runtime.Services.{Runtime, State, Outside, generated, decoded}
use nisix.Runtime.Run
use nisix.Runtime.Run.{run_id_of}
use nisix.Runtime.Run.Final.{IsOutcome, run-IsRun}

abbrev pub tool : Text → Tool
tool name = record { name = name; metadata = none; execute = λ input. result (codes "42") }

abbrev tools : List Tool
tools = tool (codes "time_now") ∷ tool (codes "shell") ∷ tool (codes "time_now") ∷ []

list_test : list (Registered.run tools) ≡ codes "shell" ∷ codes "time_now" ∷ []
unfolding list sort_strings names_of Registered.run register Dict.put new_registry
list_test = refl

run-IsRegistry_example : IsRegistry (Registered.run tools) tools
run-IsRegistry_example = run-IsRegistry tools

write_all-Holds_prefix_example :
    Holds
      (positive_or (pos 3) max_shell_output_bytes)
      (concat (codes "ab" ∷ codes "cd" ∷ []))
      (write_all (new_limited_buffer (pos 3)) (codes "ab" ∷ codes "cd" ∷ []))
    × ((write (write_all (new_limited_buffer (pos 3)) (codes "ab" ∷ codes "cd" ∷ [])) (codes "e")).1
        ≡ length (codes "e"))
write_all-Holds_prefix_example =
    write_all-Holds_prefix (pos 3) (codes "ab" ∷ codes "cd" ∷ []) (codes "e")

-- A number of seconds whose nanoseconds overflow is not refused.
overflow_test :
    resolve_timeout (new_shell_tool (codes "w")) (int (pos 18446744074)) ≡ duration (pos 290448384)
unfolding resolve_timeout as_int seconds new_shell_tool
overflow_test = refl

resolve_timeout-KeepsLimit_example : KeepsLimit (new_shell_tool (codes "w")) (int (pos 5))
resolve_timeout-KeepsLimit_example =
    resolve_timeout-KeepsLimit (new_shell_tool (codes "w")) (int (pos 5))
      (unfold new_shell_tool in omega arith)

abbrev runtime : Runtime
runtime = record {
  tools = some (Registered.run tools);
  policy = record { allow = []; deny = codes "shell" ∷ [] };
  mcp = none;
  has_memory = false;
  identity = record { name = codes "Ada"; avatar = []; emoji = [] };
  soul_text = [];
  workspace_dir = [];
  bootstrap = none;
  has_model = true;
  memory_auto_load_scope = [];
  profile_update_mode = [];
  profile_auto_detect = false;
}

abbrev state : State
state = record { profile = none; files = []; skills = none }

abbrev outside : Outside
outside = record {
  io = record {
    can_read = true;
    can_make = true;
    can_write = true;
    torn = none;
    can_rename = true;
    can_stat = true;
    now = 5;
  };
  now = 5;
  skills_root = codes "skills";
  listing = missing;
  list_error = [];
  workspace = λ path. none;
  globbed = [];
  cancelled = λ n. false;
  generate = λ req. generated (codes "tool: shell ( {} )");
  decode = λ s. decoded s;
  shown = λ v. v;
  marshal = λ v. some v;
  now_field = λ v. some v;
}

abbrev request : Text → RunRequest
request text = record {
  agent_id = codes "main";
  session_key = codes "k";
  run_id = codes " r1 ";
  message = record {
    channel = codes "telegram";
    account_id = [];
    peer_id = codes "7";
    peer_type = direct;
    user_id = codes "7";
    text = text;
    thread_id = [];
    run_id = codes "r1";
    at = 0;
  };
  history = [];
  conversation_summary = [];
}

run-IsRun_example :
    IsOutcome runtime
      (run_id_of outside (codes " r1 "))
      (codes "k")
      (Run.run runtime outside state (request (codes "!tool time_now"))).1
run-IsRun_example = run-IsRun runtime outside state (request (codes "!tool time_now"))
