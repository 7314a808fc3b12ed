-- ===== src/Profile/Service.antt =====
-- internal/profile/service.go: reading and changing the profile's files, and proposals of changes. The
-- lock on a path makes each Update one step. ApplyProposal is three steps with none held across them:
-- apply_among has what the other calls do in between as an argument.
pub mod Atomic
pub mod Consent
use nisix.Common.{
  ℕ, Bool, true, false, ◌&&◌, ◌||◌, not, Option, none, some, List, [], ◌∷◌, ◌++◌, map,
  if◌then◌else◌, is_nil,
}
use nisix.Common.Text.{Text, codes, eq_text, trim_space, to_lower, to_upper, cut}
use nisix.Common.Dict
use nisix.Common.Int.{ℤ, pos, positive_or}
use nisix.Common.Sets.{add}
use nisix.Common.Sorting.{sort_strings}
use nisix.Profile.{
  ProfileConfig, GetResult, UpdateRequest, UpdateResult, Proposal, ProfileError, internal,
  proposal_invalid, Answer, done, failed,
}
use nisix.Profile.Validator.{
  default_allowed_files, normalize_mode, normalize_file, validate_file, validate_size,
}
use nisix.Profile.Detect.{detect_high_confidence}
use nisix.Profile.Files.{StoredFile, Files, FileIo, apply_update, preview_update}
use nisix.Profile.Proposals
use nisix.Profile.Proposals.{ProposalStore, new_proposal_store}

pub record Service : Type 0 where
  pub update_mode : Text
  pub auto_detect : Bool
  pub allowed_files : List Text
  pub max_file_bytes : ℤ
  pub proposals : ProposalStore

abbrev allow_name : List Text → Text → List Text
allow_name allow [] = allow
allow_name allow (c ∷ name) = add allow (to_upper (c ∷ name))

unfoldable pub allowed_set : List Text → List Text
unfolding add to_upper normalize_file
allowed_set [] = []
allowed_set (file ∷ files) = allow_name (allowed_set files) (normalize_file file)

abbrev files_or_default : List Text → List Text
files_or_default [] = default_allowed_files
files_or_default (f ∷ files) = f ∷ files

unfoldable pub new_service : ProfileConfig → Service
unfolding allowed_set to_lower trim_space positive_or new_proposal_store
new_service cfg = record {
  update_mode = to_lower (trim_space cfg.update_mode);
  auto_detect = cfg.auto_detect_enabled;
  allowed_files = allowed_set (files_or_default cfg.allowed_files);
  max_file_bytes = pos (positive_or cfg.max_file_bytes 262144);
  proposals = new_proposal_store cfg.proposal_ttl;
}

abbrev read_result : Text → Bool → Option StoredFile → Answer GetResult
read_result name can_read none =
    done (record { file = name; content = []; updated_at = none; writable = true })
read_result name can_read (some f) =
    if can_read
    then done
        (record { file = name; content = f.content; updated_at = some f.modified; writable = true })
    else failed internal

abbrev get_valid : FileIo → Files → Text → Option ProfileError → Answer GetResult
get_valid io files name (some e) = failed e
get_valid io files name none = read_result name io.can_read (Dict.get files name)

unfoldable pub get : FileIo → Service → Files → Text → Answer GetResult
unfolding normalize_file validate_file
get io s files file =
    let name = normalize_file file in get_valid io files name (validate_file name s.allowed_files)

abbrev checked_request : Service → UpdateRequest → Option ProfileError → Answer UpdateRequest
checked_request s req (some e) = failed e
checked_request s req none =
    done
      (record req { file = normalize_file req.file; mode = normalize_mode req.mode s.update_mode })

abbrev or_else : Option ProfileError → Option ProfileError → Option ProfileError
or_else (some e) later = some e
or_else none later = later

-- The request with its name and mode normalised, or the error that refuses it.
unfoldable pub checked : Service → UpdateRequest → Answer UpdateRequest
checked s req = checked_request s req (
    or_else (validate_file (normalize_file req.file) s.allowed_files)
      (validate_size req.content s.max_file_bytes))

abbrev pub update_checked : FileIo → Files → Answer UpdateRequest → Files × Answer UpdateResult
update_checked io files (failed e) = (files, failed e)
update_checked io files (done req) =
    if io.can_make then apply_update io files req.file req else (files, failed internal)

unfoldable pub update : FileIo → Service → Files → UpdateRequest → Files × Answer UpdateResult
update io s files req = update_checked io files (checked s req)

abbrev preview_checked : FileIo → Files → Answer UpdateRequest → Answer Text
preview_checked io files (failed e) = failed e
preview_checked io files (done req) =
    if io.can_make then preview_update io files req.file req else failed internal

unfoldable pub preview : FileIo → Service → Files → UpdateRequest → Answer Text
preview io s files req = preview_checked io files (checked s req)

abbrev propose_valid :
    ℕ → Service → Text → UpdateRequest → Text → Option ProfileError → Service × Option Proposal
propose_valid now s session_key req summary (some e) = (s, none)
propose_valid now s session_key req summary none =
    let (proposals, p) = Proposals.create now s.proposals session_key req summary in
    (record s { proposals = proposals }, some p)

abbrev pub propose : ℕ → Service → Text → Option (UpdateRequest × Text) → Service × Option Proposal
propose now s session_key none = (s, none)
propose now s session_key (some (req, summary)) =
    propose_valid now s session_key req summary (
      or_else (validate_file req.file s.allowed_files) (validate_size req.content s.max_file_bytes))

unfoldable pub maybe_create_proposal : ℕ → Service → Text → Text → Service × Option Proposal
maybe_create_proposal now s session_key text =
    let mode = to_lower (trim_space s.update_mode) in
    if s.auto_detect && (eq_text mode (codes "hybrid") || eq_text mode (codes "auto"))
    then propose now s session_key (detect_high_confidence text)
    else (s, none)

abbrev pub own_proposal : Text → Option Proposal → Option Proposal
own_proposal session_key none = none
own_proposal session_key (some p) =
    if eq_text (trim_space p.session_key) (trim_space session_key) then some p else none

-- The look at a proposal, the first of the three steps of ApplyProposal: none is PROPOSAL_INVALID.
unfoldable pub apply_get : ℕ → Service → Text → Text → Service × Option Proposal
apply_get now s session_key id =
    let (proposals, p) = Proposals.get now s.proposals (trim_space id) in
    (record s { proposals = proposals }, own_proposal session_key p)

-- The last of the three steps, on what Update answered: a success deletes the proposal.
unfoldable pub apply_delete : Service → Text → Answer UpdateResult → Service
apply_delete s id (failed e) = s
apply_delete s id (done r) = record s { proposals = Proposals.delete s.proposals id }

-- What the other calls do between two steps of this one, since no lock is held across them: before Update they
-- may change the service and the files, before the deletion the service.
pub record Others : Type 0 where
  pub before_update : Service → Files → Service × Files
  pub before_delete : Service → Service

abbrev pub apply_updated :
    (Service → Service)
    → Service
    → Text
    → Files × Answer UpdateResult
    → Service × (Files × Answer UpdateResult)
apply_updated before_delete s id (files, answer) =
    (apply_delete (before_delete s) id answer, (files, answer))

-- Update takes the lock of the file for its whole run, so that it is one step.
abbrev pub apply_found :
    FileIo → Others → Files → Service × Option Proposal → Service × (Files × Answer UpdateResult)
apply_found io others files (s, none) = (s, (files, failed proposal_invalid))
apply_found io others files (s, some p) =
    let (t, now_files) = others.before_update s files in
    apply_updated others.before_delete t p.id (update io t now_files p.request)

-- ApplyProposal among other calls; io.now is the time of the look.
unfoldable pub apply_among :
    FileIo → Others → Service → Files → Text → Text → Service × (Files × Answer UpdateResult)
apply_among io others s files session_key id =
    apply_found io others files (apply_get io.now s session_key id)

abbrev pub no_others : Others
no_others = record { before_update = λ s files. (s, files); before_delete = λ s. s }

-- A call of ApplyProposal that no other call meets.
unfoldable pub apply_proposal :
    FileIo → Service → Files → Text → Text → Service × (Files × Answer UpdateResult)
unfolding apply_among
apply_proposal io s files session_key id = apply_among io no_others s files session_key id

abbrev display_parts : Text → Option (Text × Text) → Text
display_parts name none = name
display_parts name (some (stem, ext)) = to_upper stem ++ 46 ∷ to_lower ext

unfoldable pub display_file_name : Text → Text
unfolding trim_space cut to_upper to_lower
display_file_name name = display_parts (trim_space name) (cut 46 (trim_space name))

-- AllowedFiles
unfoldable pub allowed_names : Service → List Text
unfolding display_file_name sort_strings
allowed_names s = sort_strings (map display_file_name s.allowed_files)

unfoldable pub latest_proposal : ℕ → Service → Text → Text → Service × Option Proposal
unfolding normalize_file
latest_proposal now s session_key file =
    let (proposals, p) = Proposals.latest now s.proposals session_key (normalize_file file) in
    (record s { proposals = proposals }, p)
