-- ===== src/Runtime/Run.antt =====
-- internal/agentruntime/runtime.go: Run, the events of a run in their order.
pub mod Final
use nisix.Common.{
  ℕ, zero, suc, ◌+◌, Bool, true, false, ◌&&◌, ◌||◌, not, Option, none, some, List, [], ◌∷◌, ◌++◌,
  if◌then◌else◌, is_nil, length,
}
use nisix.Common.Text.{Text, codes, eq_text, equal_fold, trim_space, has_prefix, fields, cut, join}
use nisix.Common.Decimal.{itoa}
use nisix.Domain.{ChatType, direct, group, channel, AgentIdentity, RunRequest, AgentEvent, ToolCall}
use nisix.ToolPolicy.{Policy, allowed}
use nisix.Tools.Registry.{Registry, ToolResult, result, tool_error, execute}
use nisix.Profile.{Proposal}
use nisix.Profile.Service.{Service, maybe_create_proposal}
use nisix.Skills.{Skill}
use nisix.Skills.Explicit.{extract_explicit_invocations}
use nisix.Skills.Loading.{SkillService, load_all, select_for_message}
use nisix.Bootstrap.{ContextBundle, load_context, search}
use nisix.Model.{Request}
use nisix.Runtime.Services.{
  Runtime, State, Outside, Generated, generated, model_error, BootstrapService,
}
use nisix.Runtime.Lines.{Call, no_call, call, bad_input, parse_tool_call}
use nisix.Runtime.Events.{final, aborted_event, run_slow, run_tool, model_events}
use nisix.Runtime.Commands.{handle_command}

abbrev identity_from : AgentIdentity → AgentIdentity → AgentIdentity
identity_from found own = if is_nil (trim_space found.name) then own else found

abbrev soul_from : Text → Text → Text
soul_from found own = if is_nil (trim_space found) then own else found

-- The bundle of the bootstrap service over the runtime's own identity and soul.
unfoldable pub context_of : Runtime → Outside → ContextBundle
context_of r o = elim r.bootstrap [
  | none ↦ record { identity = r.identity; soul_text = r.soul_text; project_prompt = [] }
  | some b ↦
      (let c = load_context o.workspace in
        record {
          identity = identity_from c.identity r.identity;
          soul_text = soul_from c.soul_text r.soul_text;
          project_prompt = c.project_prompt;
        })
]

abbrev is_direct : ChatType → Bool
is_direct direct = true
is_direct group = false
is_direct channel = false

abbrev scope_or_default : Text → Text
scope_or_default s = if is_nil s then codes "dm_only" else s

-- The memory is not searched for a message that is not direct, where the scope is dm_only.
unfoldable pub memory_hits : Runtime → Outside → RunRequest → Text → List Text
memory_hits r o req text =
    if r.has_memory
    then if eq_text (scope_or_default r.memory_auto_load_scope) (codes "dm_only")
        && not (is_direct req.message.peer_type)
      then []
      else search o.workspace o.globbed text
    else []

abbrev unless_empty : Text → Text → Text
unless_empty v s = if is_nil (trim_space v) then [] else s

-- The reply without a model.
unfoldable pub plain_reply : ContextBundle → Text → List Text → Text → Text
plain_reply c skill_context hits text =
    (if is_nil c.identity.name then codes "Assistant" else c.identity.name)
    ++ codes ": "
    ++ text
    ++ (if is_nil hits then [] else codes " (memory hits: " ++ itoa (length hits) ++ codes ")")
    ++ unless_empty c.soul_text (codes " [soul loaded]")
    ++ unless_empty skill_context (codes "\n\n" ++ skill_context)
    ++ unless_empty c.project_prompt (codes "\n\n" ++ c.project_prompt)

abbrev pub model_request : RunRequest → ContextBundle → Text → List Text → Text → Request
model_request req c skill_context hits text = record {
  agent_id = req.agent_id;
  session_key = req.session_key;
  user_text = text;
  history = req.history;
  conversation_summary = req.conversation_summary;
  identity = c.identity;
  soul_text = c.soul_text;
  project_context = c.project_prompt;
  skill_prompt = skill_context;
  memory_hits = hits;
}

-- The part of Run behind the commands of the message, with the context of the skills.
unfoldable pub answer : Runtime → Outside → Text → RunRequest → Text → Text → List AgentEvent
answer r o run_id req text skill_context =
    if o.cancelled 0
    then aborted_event run_id req.session_key ∷ []
    else (let c = context_of r o in
        let hits = memory_hits r o req text in
        if r.has_model
        then model_events r o run_id req.session_key
            (o.generate (model_request req c skill_context hits text))
        else final run_id req.session_key (plain_reply c skill_context hits text) [] ∷ [])

abbrev pub tool_or_answer :
    Runtime → Outside → Text → RunRequest → Text → Text → List Text → Option (List AgentEvent)
tool_or_answer r o run_id req text skill_context (p ∷ name ∷ parts) =
    run_tool r o run_id req.session_key name
tool_or_answer r o run_id req text skill_context _ = some (answer r o run_id req text skill_context)

unfoldable pub dispatch :
    Runtime → Outside → Text → RunRequest → Text → Text → Option (List AgentEvent)
dispatch r o run_id req text skill_context =
    if has_prefix text (codes "!slow ") || eq_text text (codes "!slow")
    then some (run_slow o run_id req.session_key text)
    else if has_prefix text (codes "!tool ")
    then tool_or_answer r o run_id req text skill_context (fields text)
    else some (answer r o run_id req text skill_context)

abbrev found_reason : Text → Skill → Text
found_reason name sk =
    if sk.enabled
    then name ++ codes " unavailable"
    else name ++ codes " blocked (" ++ sk.reason ++ codes ")"

-- Why a skill that is called for is not there.
unfoldable pub reason_of : List Skill → Text → Text
reason_of [] name = name ++ codes " not found"
reason_of (sk ∷ loaded) name =
    let rest = reason_of loaded name in
    if equal_fold sk.name name then found_reason name sk else rest

unfoldable pub reasons : List Skill → List Text → List Text
reasons loaded [] = []
reasons loaded (name ∷ explicit) = reason_of loaded name ∷ reasons loaded explicit

unfoldable pub skill_parts : List Skill → List Text
skill_parts [] = []
skill_parts (sk ∷ selected) =
    (codes "## Skill: " ++ sk.name ++ codes "\n" ++ sk.body) ∷ skill_parts selected

abbrev loaded_or_none : Option (List Skill) → List Skill
loaded_or_none none = []
loaded_or_none (some l) = l

abbrev pub with_selected :
    Runtime
    → Outside
    → Text
    → RunRequest
    → Text
    → List Skill
    → List Text
    → List Skill
    → Option (List AgentEvent)
with_selected r o run_id req text loaded explicit selected =
    if not (is_nil explicit) && is_nil selected
    then some (
        final run_id req.session_key
          (codes "skill request rejected: " ++ join (codes "; ") (reasons loaded explicit)) []
        ∷ [])
    else dispatch r o run_id req text (join (codes "\n\n") (skill_parts selected))

abbrev pub with_skills :
    Runtime
    → Outside
    → Text
    → RunRequest
    → Text
    → State
    → Option SkillService
    → State × Option (List AgentEvent)
with_skills r o run_id req text st none = (st, dispatch r o run_id req text [])
with_skills r o run_id req text st (some s) =
    if is_nil r.workspace_dir
    then (st, dispatch r o run_id req text [])
    else (let (s', loaded) = load_all s o.skills_root o.listing in
        let explicit = extract_explicit_invocations text in
        (
          record st { skills = some s' },
          with_selected r o run_id req text (loaded_or_none loaded) explicit
              (select_for_message s' text explicit),
        ))

abbrev proposal_text : Proposal → Text
proposal_text p =
    p.summary ++ codes "\nProposal ID: " ++ p.id ++ codes "\nApply with: /profile apply " ++ p.id

abbrev pub proposed :
    Runtime
    → Outside
    → Text
    → RunRequest
    → Text
    → State
    → Service × Option Proposal
    → State × Option (List AgentEvent)
proposed r o run_id req text st (s, some p) =
    (record st { profile = some s }, some (final run_id req.session_key (proposal_text p) [] ∷ []))
proposed r o run_id req text st (s, none) =
    with_skills r o run_id req text (record st { profile = some s }) st.skills

abbrev pub with_proposals :
    Runtime
    → Outside
    → Text
    → RunRequest
    → Text
    → State
    → Option Service
    → State × Option (List AgentEvent)
with_proposals r o run_id req text st none = with_skills r o run_id req text st st.skills
with_proposals r o run_id req text st (some s) =
    if r.profile_auto_detect && not (eq_text r.profile_update_mode (codes "explicit"))
    then proposed r o run_id req text st (maybe_create_proposal o.now s req.session_key text)
    else with_skills r o run_id req text st st.skills

abbrev pub replied :
    Runtime
    → Outside
    → Text
    → RunRequest
    → Text
    → State × Option Text
    → State × Option (List AgentEvent)
replied r o run_id req text (st, some response) =
    (st, some (final run_id req.session_key response [] ∷ []))
replied r o run_id req text (st, none) = with_proposals r o run_id req text st st.profile

unfoldable pub run_id_of : Outside → Text → Text
run_id_of o id = if is_nil (trim_space id) then codes "run-" ++ itoa o.now else trim_space id

-- Run: the state that it leaves, and its events; none is a panic.
unfoldable pub run : Runtime → Outside → State → RunRequest → State × Option (List AgentEvent)
run r o st req =
    let text = trim_space req.message.text in
    replied r o (run_id_of o req.run_id) req text (handle_command r o st req.session_key text)
