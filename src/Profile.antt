-- ===== src/Profile.antt =====
-- internal/profile/types.go: the files of the workspace that describe the agent and its user, and the
-- requests to change them. Times are nanoseconds since Go's zero time.
pub mod Validator
pub mod Commands
pub mod Patch
pub mod Diff
pub mod Detect
pub mod Files
pub mod Proposals
pub mod Service
use nisix.Common.{ℕ, Bool, Option, List, String}
use nisix.Common.Text.{Text, codes}
use nisix.Common.Int.{ℤ}

-- UpdateMode is a string; these are its named values.
abbrev pub update_mode_replace : Text
update_mode_replace = codes "replace"

abbrev pub update_mode_append : Text
update_mode_append = codes "append"

abbrev pub update_mode_patch : Text
update_mode_patch = codes "patch"

-- ProposalTTL is in nanoseconds.
pub record ProfileConfig : Type 0 where
  pub update_mode : Text
  pub auto_detect_enabled : Bool
  pub allowed_files : List Text
  pub max_file_bytes : ℤ
  pub proposal_ttl : ℤ

pub record GetResult : Type 0 where
  pub file : Text
  pub content : Text
  -- no time is Go's zero time
  pub updated_at : Option ℕ
  pub writable : Bool

pub record UpdateRequest : Type 0 where
  pub file : Text
  pub content : Text
  pub mode : Text
  pub reason : Text

pub record UpdateResult : Type 0 where
  pub ok : Bool
  pub file : Text
  pub updated_at : ℕ
  pub bytes : ℕ

pub record Proposal : Type 0 where
  pub id : Text
  pub session_key : Text
  pub request : UpdateRequest
  pub summary : Text
  pub created_at : ℕ
  pub expires_at : ℕ

-- The errors FORBIDDEN_FILE, FILE_TOO_LARGE, INTERNAL and PROPOSAL_INVALID.
pub data ProfileError : Type 0 where
  forbidden_file file_too_large internal proposal_invalid : ProfileError

pub data Answer {ℓ} (A : Type ℓ) : Type ℓ where
  done : A → Answer A
  failed : ProfileError → Answer A

pub data CommandKind : Type 0 where
  profile_list profile_show profile_diff profile_set profile_append profile_apply : CommandKind
  onboard_status onboard_done : CommandKind

pub record Command : Type 0 where
  pub kind : CommandKind
  pub file : Text
  pub content : Text
  pub id : Text
