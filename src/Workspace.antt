-- ===== src/Workspace.antt =====
-- internal/workspace/files.go: the files and the onboarding state of a workspace. The answers of the file system,
-- the templates, the time and encoding/json are arguments; os.Stat finds the files that there are.
pub mod Loops
pub mod Kept
pub mod Onboarded
use nisix.Common.{
  ℕ, Bool, true, false, ◌&&◌, ◌||◌, not, Option, none, some, List, [], ◌∷◌, ◌++◌, ◌==◌,
  if◌then◌else◌, is_nil,
}
use nisix.Common.Text.{Text, codes, eq_text}
use nisix.Common.Dict
use nisix.Common.Dict.{Dict}

abbrev pub bootstrap_md : Text
bootstrap_md = codes "BOOTSTRAP.md"

abbrev memory_readme : Text
memory_readme = codes "memory/README.md"

abbrev pub bootstrap_files : List Text
bootstrap_files =
    codes "AGENTS.md"
    ∷ codes "IDENTITY.md"
    ∷ codes "SOUL.md"
    ∷ codes "TOOLS.md"
    ∷ codes "USER.md"
    ∷ codes "MEMORY.md"
    ∷ codes "POLICY.md"
    ∷ codes "ROUTING.md"
    ∷ codes "MODELS.md"
    ∷ bootstrap_md
    ∷ memory_readme
    ∷ codes "skills/README.md"
    ∷ []

pub record OnboardingState : Type 0 where
  pub version : ℕ
  pub seeded_at : Text
  pub onboarding_completed_at : Text

-- encoding/json on an OnboardingState; none is an error.
pub record Codec : Type 0 where
  pub marshal : OnboardingState → Text
  pub unmarshal : Text → Option OnboardingState

-- The directory: its files by their paths, whether there is a directory `memory`, and the file of the state,
-- .nisix/workspace_state.json, which is not among `files`.
pub record Root : Type 0 where
  pub files : Dict Text
  pub memory_dir : Bool
  pub state_file : Option Text

-- What the calls answer. A write that fails may leave a torn file.
pub record Io : Type 0 where
  pub can_read_state : Bool
  pub can_write_state : Bool
  pub can_make : Text → Bool
  pub can_write : Text → Bool
  pub torn : Text → Option Text
  pub can_remove : Bool
  pub template : Text → Option Text
  pub now : Text

abbrev versioned : Option OnboardingState → Option OnboardingState
versioned none = none
versioned (some s) = some (if s.version == 0 then record s { version = 1 } else s)

abbrev pub state_in : Codec → Io → Option Text → Option OnboardingState
state_in c io none = some (record { version = 1; seeded_at = []; onboarding_completed_at = [] })
state_in c io (some b) = if io.can_read_state then versioned (c.unmarshal b) else none

-- readState; none is an error.
unfoldable pub read_state : Codec → Io → Root → Option OnboardingState
read_state c io r = state_in c io r.state_file

-- writeState, and whether it succeeds. The state is written to a file of its own that is renamed.
unfoldable pub write_state : Codec → Io → OnboardingState → Root → Root × Bool
write_state c io st r =
    if io.can_write_state
    then (record r { state_file = some (c.marshal (record st { version = 1 }) ++ 10 ∷ []) }, true)
    else (r, false)

abbrev present : Option Text → Bool
present none = false
present (some s) = true

unfoldable pub exists : Root → Text → Bool
exists r rel = present (Dict.get r.files rel)

unfoldable pub any_exists : Root → List Text → Bool
any_exists r [] = false
any_exists r (rel ∷ rels) = let rest = any_exists r rels in exists r rel || rest

unfoldable pub is_workspace_new : Root → Bool
is_workspace_new r = not (any_exists r bootstrap_files) && not r.memory_dir

-- A text with a newline at its end
unfoldable pub ended : Text → Text
ended [] = 10 ∷ []
ended (c ∷ s) = let rest = ended s in c ∷ (if is_nil s && c == 10 then [] else rest)

abbrev from_template : Option Text → Text
from_template none = 10 ∷ []
from_template (some tb) = ended tb

abbrev pub content_of : Io → Bool → Text → Text
content_of io use_template rel = if use_template then from_template (io.template rel) else 10 ∷ []

abbrev pub write_file : Root → Text → Option Text → Root
write_file r rel none = r
write_file r rel (some s) = record r { files = Dict.put r.files rel s }

abbrev pub make_dir : Root → Text → Root
make_dir r rel = record r { memory_dir = eq_text rel memory_readme || r.memory_dir }

-- ensureFile: whether the file was written; none is an error.
unfoldable pub ensure_file : Io → Bool → Text → Root → Root × Option Bool
ensure_file io use_template rel r =
    if not (io.can_make rel)
    then (r, none)
    else if exists r rel
    then (make_dir r rel, some false)
    else if io.can_write rel
    then (write_file (make_dir r rel) rel (some (content_of io use_template rel)), some true)
    else (write_file (make_dir r rel) rel (io.torn rel), none)

unfoldable pub skipped : OnboardingState → Bool → Text → Bool
skipped st workspace_is_new rel =
    eq_text rel bootstrap_md
    && (not (is_nil st.onboarding_completed_at) || (not workspace_is_new && is_nil st.seeded_at))

abbrev pub next_file :
    (Bool → Root → Root × Option Bool) → Bool → Root × Option Bool → Root × Option Bool
next_file go seeded (r, none) = (r, none)
next_file go seeded (r, some wrote) = go (seeded || wrote) r

-- The loop of EnsureLayout: whether a file was written; none is an error.
unfoldable pub ensure_files :
    Io → Bool → OnboardingState → Bool → List Text → Bool → Root → Root × Option Bool
ensure_files io use_template st new [] seeded r = (r, some seeded)
ensure_files io use_template st new (rel ∷ rels) seeded r =
    if skipped st new rel
    then ensure_files io use_template st new rels seeded r
    else next_file (ensure_files io use_template st new rels) seeded
        (ensure_file io use_template rel r)

abbrev pub mark_seeded : Codec → Io → OnboardingState → Root × Option Bool → Root × Bool
mark_seeded c io st (r, none) = (r, false)
mark_seeded c io st (r, some seeded) =
    if seeded && is_nil st.seeded_at
    then write_state c io (record st { seeded_at = io.now }) r
    else (r, true)

abbrev pub layout_from : Codec → Io → Bool → Root → Option OnboardingState → Root × Bool
layout_from c io use_template r none = (r, false)
layout_from c io use_template r (some st) =
    mark_seeded c io st
      (ensure_files io use_template st (is_workspace_new r) bootstrap_files false r)

-- EnsureLayout, and whether it succeeds
unfoldable pub ensure_layout : Codec → Io → Bool → Root → Root × Bool
ensure_layout c io use_template r = layout_from c io use_template r (read_state c io r)

pub record FileStatus : Type 0 where
  pub file : Text
  pub exists : Bool

pub record Status : Type 0 where
  pub seeded : Bool
  pub onboarding_completed : Bool
  pub bootstrap_exists : Bool
  pub files : List FileStatus

unfoldable pub file_statuses : Root → List Text → List FileStatus
file_statuses r [] = []
file_statuses r (rel ∷ rels) = record { file = rel; exists = exists r rel } ∷ file_statuses r rels

abbrev pub status_from : Root → Option OnboardingState → Option Status
status_from r none = none
status_from r (some st) = some (record {
  seeded = not (is_nil st.seeded_at);
  onboarding_completed = not (is_nil st.onboarding_completed_at);
  bootstrap_exists = exists r bootstrap_md;
  files = file_statuses r bootstrap_files;
})

-- GetStatus; none is an error.
unfoldable pub get_status : Codec → Io → Root → Option Status
get_status c io r = status_from r (read_state c io r)

abbrev pub or_now : Io → Text → Text
or_now io t = if is_nil t then io.now else t

abbrev pub completed : Io → OnboardingState → OnboardingState
completed io st = record {
  version = st.version;
  seeded_at = or_now io st.seeded_at;
  onboarding_completed_at = or_now io st.onboarding_completed_at;
}

abbrev pub removed : Io → Bool → Root → Root
removed io remove_bootstrap r =
    if remove_bootstrap && io.can_remove
    then record r { files = Dict.remove r.files bootstrap_md }
    else r

abbrev pub complete_written : Codec → Io → Bool → Root × Bool → Root × Option Status
complete_written c io remove_bootstrap (r, ok) =
    if ok
    then (removed io remove_bootstrap r, get_status c io (removed io remove_bootstrap r))
    else (r, none)

abbrev pub complete_from : Codec → Io → Bool → Root → Option OnboardingState → Root × Option Status
complete_from c io remove_bootstrap r none = (r, none)
complete_from c io remove_bootstrap r (some st) =
    complete_written c io remove_bootstrap (write_state c io (completed io st) r)

-- CompleteOnboarding; no status is an error.
unfoldable pub complete_onboarding : Codec → Io → Bool → Root → Root × Option Status
complete_onboarding c io remove_bootstrap r =
    complete_from c io remove_bootstrap r (read_state c io r)
