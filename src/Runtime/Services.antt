-- ===== src/Runtime/Services.antt =====
-- internal/agentruntime/runtime.go: Runtime with its services. A service that is nil is none. What the
-- model, the file system, encoding/json, fmt and the clock answer in a run is an argument.
use nisix.Common.{ℕ, Bool, Option, List}
use nisix.Common.Text.{Text, to_lower, trim_space}
use nisix.Domain.{AgentIdentity}
use nisix.ToolPolicy.{Policy}
use nisix.Tools.Registry.{Registry}
use nisix.Profile
use nisix.Profile.Files.{Files, FileIo}
use nisix.Profile.Service
use nisix.Skills.Loading.{SkillService, Listing}
use nisix.Bootstrap.{Workspace}
use nisix.Model.{Request}

pub record ServerStatus : Type 0 where
  pub name : Text
  pub transport : Text
  pub tool_count : ℕ

pub record StatusSnapshot : Type 0 where
  pub available : Bool
  pub config_file : Text
  pub tool_prefix : Text
  pub registered_tools : ℕ
  pub servers : List ServerStatus

pub record ToolMapping : Type 0 where
  pub local_name : Text
  pub server_name : Text
  pub remote_name : Text
  pub description : Text
  pub transport : Text

pub record McpInspector : Type 0 where
  pub status : StatusSnapshot
  pub tools : List ToolMapping

-- The parts of workspace.Status that a reply shows.
pub record OnboardStatus : Type 0 where
  pub seeded : Bool
  pub onboarding_completed : Bool
  pub bootstrap_exists : Bool

-- What a call that may fail with a text gives.
pub data Outcome {ℓ} (A : Type ℓ) : Type ℓ where
  good : A → Outcome A
  bad : Text → Outcome A

-- bootstrap.Service: LoadContext reads the workspace; the others are kept as their answers.
pub record BootstrapService : Type 0 where
  pub status : Outcome OnboardStatus
  pub complete : Outcome OnboardStatus

pub record Runtime : Type 0 where
  pub tools : Option Registry
  pub policy : Policy
  pub mcp : Option McpInspector
  pub has_memory : Bool
  pub identity : AgentIdentity
  pub soul_text : Text
  pub workspace_dir : Text
  pub bootstrap : Option BootstrapService
  pub has_model : Bool
  pub memory_auto_load_scope : Text
  pub profile_update_mode : Text
  pub profile_auto_detect : Bool

-- What a run may change.
pub record State : Type 0 where
  pub profile : Option Profile.Service.Service
  pub files : Files
  pub skills : Option SkillService

-- A model's answer.
pub data Generated : Type 0 where
  generated : Text → Generated
  model_error : Text → Generated

-- json.Unmarshal into an object: the input, or an error's text.
pub data Decoded : Type 0 where
  decoded : Text → Decoded
  invalid : Text → Decoded

-- The outside of a run. `cancelled` says whether the context is done when the run looks for the
-- nth time.
pub record Outside : Type 0 where
  pub io : FileIo
  -- nanoseconds since the Unix epoch
  pub now : ℕ
  -- the directory of the skills, its content, and the text of an error of the read
  pub skills_root : Text
  pub listing : Listing
  pub list_error : Text
  pub workspace : Workspace
  pub globbed : List Text
  pub cancelled : ℕ → Bool
  pub generate : Request → Generated
  pub decode : Text → Decoded
  -- fmt's %+v of a result
  pub shown : Text → Text
  pub marshal : Text → Option Text
  -- the field "now" of a result that is an object, as %v prints it
  pub now_field : Text → Option Text

-- New trims and lowers the modes.
unfoldable pub new_runtime : Runtime → Runtime
new_runtime r = record r {
  memory_auto_load_scope = to_lower (trim_space r.memory_auto_load_scope);
  profile_update_mode = to_lower (trim_space r.profile_update_mode);
}
