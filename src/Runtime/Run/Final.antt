-- ===== src/Runtime/Run/Final.antt =====
-- The shape of a run: its events, one after the other, and its end.
use nisix.Common.{
  ℕ, zero, suc, ◌+◌, ◌≡◌, ◌≢◌, refl, inl, inr, true, false, ◌&&◌, ◌||◌, not, Option, none, some,
  List, [], ◌∷◌, is_nil, Bool-cases, some_injective,
}
use nisix.Common.Text.{Text, codes, eq_text, eq_text_iff, trim_space, has_prefix, fields}
use nisix.Domain.{RunRequest, AgentEvent, ToolCall}
use nisix.ToolPolicy.{Policy, allowed}
use nisix.Tools.Registry.{Registry, ToolResult, result, tool_error}
use nisix.Profile.{Proposal}
use nisix.Profile.Service.{Service, maybe_create_proposal}
use nisix.Skills.{Skill}
use nisix.Skills.Loading.{SkillService}
use nisix.Runtime.Services.{Runtime, State, Outside, Generated, generated, model_error}
use nisix.Runtime.Lines.{Call, no_call, call, bad_input, parse_tool_call}
use nisix.Runtime.Commands.{handle_command}
use nisix.Runtime.Events.{
  aborted_event, final, tool_event, shown_result, run_slow_from, run_slow, tool_events,
  executed_tool, run_tool, executed_events, generated_events, model_events,
}
use nisix.Runtime.Run.{
  model_request, context_of, memory_hits, answer, tool_or_answer, dispatch, with_selected,
  with_skills, proposed, with_proposals, replied, run_id_of, run,
}

tool_other : codes "tool" ≢ codes "final"
unfolding eq_text
tool_other h = (let g = (eq_text_iff (codes "tool") (codes "final")).1 h in cc)

block_other : codes "block" ≢ codes "final"
unfolding eq_text
block_other h = (let g = (eq_text_iff (codes "block") (codes "final")).1 h in cc)

module _ (policy : Policy) (run_id session_key : Text) where
  -- An event of the run that carries no error. A tool call that it shows is one that the policy allows.
  pub record IsEvent (e : AgentEvent) : Type 0 where
    pub own_run : e.run_id ≡ run_id
    pub own_session : e.session_key ≡ session_key
    pub good : e.failed ≡ false
    pub gated : (c : ToolCall) → e.tool_call ≡ some c → allowed policy c.name ≡ true

  -- The events of a run: the last one is done and of the kind `final`, and no other is either.
  pub data IsRun : List AgentEvent → Type 0 where
    last : (e : AgentEvent) → IsEvent e → e.done ≡ true → e.kind ≡ codes "final" → IsRun (e ∷ [])
    before :
        (e : AgentEvent) (es : List AgentEvent)
        → IsEvent e
        → e.done ≡ false
        → e.kind ≢ codes "final"
        → IsRun es
        → IsRun (e ∷ es)

  IsRun-final : (text provider : Text) → IsRun (final run_id session_key text provider ∷ [])
  IsRun-final text provider =
      last _ (record { own_run = refl; own_session = refl; good = refl; gated = λ c h. absurd cc })
        refl refl

  IsRun-aborted : IsRun (aborted_event run_id session_key ∷ [])
  IsRun-aborted =
      last _ (record { own_run = refl; own_session = refl; good = refl; gated = λ c h. absurd cc })
        refl refl

  -- A tool call of an allowed tool, and the final event.
  IsRun-tool :
      (text : Text) (c : ToolCall) (end provider : Text)
      → allowed policy c.name ≡ true
      → IsRun
          (tool_event run_id session_key text (some c) ∷ final run_id session_key end provider ∷ [])
  IsRun-tool text c end provider h =
      before _ _
        (record {
          own_run = refl;
          own_session = refl;
          good = refl;
          gated = λ d e. (let same = some_injective e in rw (← same) h);
        })
        refl tool_other (IsRun-final end provider)

-- What a run leads to: its events, or a panic, for which the registry must be missing.
pub data IsOutcome (r : Runtime) (run_id session_key : Text)
    : Option (List AgentEvent) → Type 0 where
  ends :
      (es : List AgentEvent)
      → IsRun r.policy run_id session_key es
      → IsOutcome r run_id session_key (some es)
  panics : r.tools ≡ none → IsOutcome r run_id session_key none

module _ (r : Runtime) (o : Outside) (run_id session_key : Text) where
  run_slow_from-IsRun :
      (payload : Text) (i left : ℕ)
      → IsRun r.policy run_id session_key (run_slow_from o run_id session_key payload i left)
  run_slow_from-IsRun payload i zero = IsRun-final r.policy run_id session_key _ _
  run_slow_from-IsRun payload i (suc left) = elim (Bool-cases (o.cancelled i)) [
    | inl stop ↦ rw stop (IsRun-aborted r.policy run_id session_key)
    | inr go ↦ rw go (
        before _ _
          (record { own_run = refl; own_session = refl; good = refl; gated = λ c h. absurd cc })
          refl block_other (run_slow_from-IsRun payload (i + 1) left))
  ]

  tool_events-IsRun :
      (name : Text) (res : ToolResult)
      → allowed r.policy name ≡ true
      → IsRun r.policy run_id session_key (tool_events o run_id session_key name res)
  tool_events-IsRun name (tool_error e) h =
      last _
        (record {
          own_run = refl;
          own_session = refl;
          good = refl;
          gated = λ d e. (let same = some_injective e in rw (← same) h);
        })
        refl refl
  tool_events-IsRun name (result out) h =
      IsRun-tool r.policy run_id session_key _ _ (codes "done") [] h

  executed_tool-IsOutcome :
      (name : Text) (tools : Option Registry)
      → r.tools ≡ tools
      → allowed r.policy name ≡ true
      → IsOutcome r run_id session_key (executed_tool o run_id session_key name tools)
  executed_tool-IsOutcome name none e h = panics e
  executed_tool-IsOutcome name (some reg) e h = ends _ (tool_events-IsRun name _ h)

  run_tool-IsOutcome :
      (name : Text) → IsOutcome r run_id session_key (run_tool r o run_id session_key name)
  unfolding run_tool
  run_tool-IsOutcome name = elim (Bool-cases (allowed r.policy name)) [
    | inl ok ↦ simp ok (executed_tool-IsOutcome name r.tools refl ok)
    | inr blocked ↦ simp blocked (ends _ (IsRun-final r.policy run_id session_key _ _))
  ]

  executed_events-IsRun :
      (name input : Text) (res : ToolResult)
      → allowed r.policy name ≡ true
      → IsRun r.policy run_id session_key (executed_events o run_id session_key name input res)
  executed_events-IsRun name input (tool_error e) h = IsRun-final r.policy run_id session_key _ _
  executed_events-IsRun name input (result out) h =
      elim (Bool-cases (is_nil (trim_space (shown_result o name out)))) [
        | inl empty ↦ rw empty (IsRun-final r.policy run_id session_key _ _)
        | inr some_text ↦ rw some_text (IsRun-tool r.policy run_id session_key _ _ _ _ h)
      ]

  generated_events-IsRun :
      (text : Text) (c : Call)
      → IsRun r.policy run_id session_key (generated_events r o run_id session_key text c)
  unfolding generated_events
  generated_events-IsRun text no_call = IsRun-final r.policy run_id session_key _ _
  generated_events-IsRun text (bad_input e) = IsRun-final r.policy run_id session_key _ _
  generated_events-IsRun text (call name input) = elim (Bool-cases (allowed r.policy name)) [
    | inl ok ↦ rw ok (executed_events-IsRun name input _ ok)
    | inr blocked ↦ rw blocked (IsRun-final r.policy run_id session_key _ _)
  ]

  model_events-IsRun :
      (g : Generated) → IsRun r.policy run_id session_key (model_events r o run_id session_key g)
  model_events-IsRun (model_error e) = IsRun-final r.policy run_id session_key _ _
  model_events-IsRun (generated text) =
      generated_events-IsRun text (parse_tool_call o.decode r.tools text)

module _ (r : Runtime) (o : Outside) (run_id : Text) (req : RunRequest) (text : Text) where
  answer-IsRun :
      (skill_context : Text)
      → IsRun r.policy run_id req.session_key (answer r o run_id req text skill_context)
  unfolding answer
  answer-IsRun skill_context = elim (Bool-cases (o.cancelled 0)) [
    | inl stop ↦ rw stop (IsRun-aborted r.policy run_id req.session_key)
    | inr go ↦ elim (Bool-cases r.has_model) [
      | inl model ↦
          simp (go, model)
            (model_events-IsRun r o run_id req.session_key (
              o.generate
                (model_request req (context_of r o) skill_context (memory_hits r o req text) text)))
      | inr plain ↦ simp (go, plain) (IsRun-final r.policy run_id req.session_key _ _)
    ]
  ]

  tool_or_answer-IsOutcome :
      (skill_context : Text) (parts : List Text)
      → IsOutcome r run_id req.session_key (tool_or_answer r o run_id req text skill_context parts)
  tool_or_answer-IsOutcome skill_context [] = ends _ (answer-IsRun skill_context)
  tool_or_answer-IsOutcome skill_context (p ∷ []) = ends _ (answer-IsRun skill_context)
  tool_or_answer-IsOutcome skill_context (p ∷ name ∷ parts) =
      run_tool-IsOutcome r o run_id req.session_key name

  dispatch-IsOutcome :
      (skill_context : Text)
      → IsOutcome r run_id req.session_key (dispatch r o run_id req text skill_context)
  unfolding dispatch
  dispatch-IsOutcome skill_context =
      elim (Bool-cases (has_prefix text (codes "!slow ") || eq_text text (codes "!slow"))) [
        | inl slow ↦ simp slow (
            ends (run_slow o run_id req.session_key text)
              (unfold run_slow in run_slow_from-IsRun r o run_id req.session_key _ 0 20))
        | inr fast ↦ elim (Bool-cases (has_prefix text (codes "!tool "))) [
          | inl tool ↦ rw (fast, tool) (tool_or_answer-IsOutcome skill_context (fields text))
          | inr other ↦ simp (fast, other) (ends _ (answer-IsRun skill_context))
        ]
      ]

  with_selected-IsOutcome :
      (loaded : List Skill) (explicit : List Text) (selected : List Skill)
      → IsOutcome r run_id req.session_key
          (with_selected r o run_id req text loaded explicit selected)
  with_selected-IsOutcome loaded explicit selected =
      elim (Bool-cases (not (is_nil explicit) && is_nil selected)) [
        | inl lacking ↦ simp lacking (ends _ (IsRun-final r.policy run_id req.session_key _ _))
        | inr found ↦ rw found (dispatch-IsOutcome _)
      ]

  with_skills-IsOutcome :
      (st : State) (skills : Option SkillService)
      → IsOutcome r run_id req.session_key (with_skills r o run_id req text st skills).1
  with_skills-IsOutcome st none = dispatch-IsOutcome []
  with_skills-IsOutcome st (some s) = elim (Bool-cases (is_nil r.workspace_dir)) [
    | inl nowhere ↦ simp nowhere (dispatch-IsOutcome [])
    | inr there ↦ simp there (with_selected-IsOutcome _ _ _)
  ]

  proposed-IsOutcome :
      (st : State) (p : Service × Option Proposal)
      → IsOutcome r run_id req.session_key (proposed r o run_id req text st p).1
  proposed-IsOutcome st (s, some p) = ends _ (IsRun-final r.policy run_id req.session_key _ _)
  proposed-IsOutcome st (s, none) = with_skills-IsOutcome (record st { profile = some s }) st.skills

  with_proposals-IsOutcome :
      (st : State) (profile : Option Service)
      → IsOutcome r run_id req.session_key (with_proposals r o run_id req text st profile).1
  with_proposals-IsOutcome st none = with_skills-IsOutcome st st.skills
  with_proposals-IsOutcome st (some s) =
      elim (Bool-cases
        (r.profile_auto_detect && not (eq_text r.profile_update_mode (codes "explicit")))) [
          | inl on ↦
              rw on (proposed-IsOutcome st (maybe_create_proposal o.now s req.session_key text))
          | inr off ↦ rw off (with_skills-IsOutcome st st.skills)
        ]

  replied-IsOutcome :
      (h : State × Option Text)
      → IsOutcome r run_id req.session_key (replied r o run_id req text h).1
  replied-IsOutcome (st, some response) = ends _ (IsRun-final r.policy run_id req.session_key _ _)
  replied-IsOutcome (st, none) = with_proposals-IsOutcome st st.profile

-- Every run, whatever the model, the tools and the file system answer and whenever the context is done, gives events of
-- its own run and session, without an error, of which the last one, and no other, is done and of the kind `final`; a
-- tool call that an event shows is one that the policy allows. Only a runtime that has no registry of tools may panic
-- in place of this.
pub run-IsRun :
    (r : Runtime) (o : Outside) (st : State) (req : RunRequest)
    → IsOutcome r (run_id_of o req.run_id) req.session_key (run r o st req).1
unfolding run
run-IsRun r o st req =
    replied-IsOutcome r o (run_id_of o req.run_id) req (trim_space req.message.text)
      (handle_command r o st req.session_key (trim_space req.message.text))
