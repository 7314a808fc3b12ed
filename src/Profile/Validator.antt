-- ===== src/Profile/Validator.antt =====
-- internal/profile/validator.go: names of files, modes and sizes.
use nisix.Common.{
  ℕ, Bool, false, ◌||◌, not, Option, none, some, List, [], ◌∷◌, ltb, if◌then◌else◌, is_nil, length,
  ◌==◌,
}
use nisix.Common.Text.{Text, codes, eq_text, trim_space, to_lower, to_upper, split_byte}
use nisix.Common.Cutsets.{trim_right_of}
use nisix.Common.Int.{ℤ, positive_or}
use nisix.Common.Sets.{member}
use nisix.Profile.{
  ProfileError, forbidden_file, file_too_large, update_mode_replace, update_mode_append,
  update_mode_patch,
}

unfoldable pub default_allowed_files : List Text
default_allowed_files =
    codes "IDENTITY.md"
    ∷ codes "SOUL.md"
    ∷ codes "USER.md"
    ∷ codes "TOOLS.md"
    ∷ codes "AGENTS.md"
    ∷ codes "MEMORY.md"
    ∷ []

abbrev mode_or : Text → Text → Text
mode_or [] fallback = to_lower (trim_space fallback)
mode_or (c ∷ v) fallback = c ∷ v

abbrev mode_of : Text → Text
mode_of v =
    if eq_text v update_mode_append
    then update_mode_append
    else if eq_text v update_mode_patch
    then update_mode_patch
    else update_mode_replace

unfoldable pub normalize_mode : Text → Text → Text
unfolding eq_text to_lower trim_space
normalize_mode raw fallback = mode_of (mode_or (to_lower (trim_space raw)) fallback)

abbrev pub is_slash : ℕ → Bool
is_slash c = c == 47

abbrev pub last_of : Text → List Text → Text
last_of d [] = d
last_of d (w ∷ ws) = last_of w ws

abbrev pub or_slash : Text → Text
or_slash [] = 47 ∷ []
or_slash (c ∷ s) = c ∷ s

-- filepath.Base on a path that is not empty, where the separator is the slash.
unfoldable pub base : Text → Text
base path = or_slash (last_of [] (split_byte 47 (trim_right_of is_slash path)))

abbrev pub base_of : Text → Text
base_of [] = []
base_of (c ∷ s) = trim_space (base (c ∷ s))

unfoldable pub normalize_file : Text → Text
normalize_file raw = base_of (trim_space raw)

-- strings.Contains for one byte
unfoldable pub has_byte : ℕ → Text → Bool
has_byte b [] = false
has_byte b (c ∷ s) = c == b || has_byte b s

-- `allow` is the set of the allowed names, in upper case.
unfoldable pub validate_file : Text → List Text → Option ProfileError
unfolding has_byte to_upper member
validate_file name allow =
    if is_nil name
    then some forbidden_file
    else if has_byte 47 name || has_byte 92 name
    then some forbidden_file
    else if not (member allow (to_upper name))
    then some forbidden_file
    else none

unfoldable pub validate_size : Text → ℤ → Option ProfileError
unfolding positive_or
validate_size content max_file_bytes =
    if ltb (positive_or max_file_bytes 262144) (length content) then some file_too_large else none
