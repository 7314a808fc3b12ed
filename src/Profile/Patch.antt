-- ===== src/Profile/Patch.antt =====
-- internal/profile/store.go: the texts that an append and a patch leave. Regular expressions are
-- written out on ASCII text.
pub mod Expand
pub mod Replace
pub mod Lines
pub mod Matchers
pub mod Patched
use nisix.Common.{
  ℕ, ◌-◌, Bool, true, false, ◌||◌, not, Option, none, some, List, [], ◌∷◌, ◌++◌, ◌==◌, leb,
  if◌then◌else◌, is_nil, length, drop,
}
use nisix.Common.Text.{
  Text, codes, eq_text, trim_space, to_lower, to_upper, contains, has_prefix, split_byte, cut,
}
use nisix.Common.Cutsets.{trim_left_of, trim_newlines}
use nisix.Profile.{internal, Answer, done, failed}
use nisix.Profile.Patch.Replace.{Matcher, match_string, replace_all_string}

abbrev joined : Text → Text → Text
joined [] add = add ++ 10 ∷ []
joined (c ∷ cur) [] = c ∷ cur ++ 10 ∷ []
joined (c ∷ cur) (d ∷ add) = c ∷ cur ++ 10 ∷ 10 ∷ d ∷ add ++ 10 ∷ []

unfoldable pub append_text : Text → Text → Text
unfolding trim_newlines trim_space
append_text current extra = joined (trim_newlines current) (trim_space extra)

abbrev pub ends_with_newline : Text → Bool
ends_with_newline [] = false
ends_with_newline (c ∷ []) = c == 10
ends_with_newline (c ∷ d ∷ s) = ends_with_newline (d ∷ s)

unfoldable pub ensure_trailing_newline : Text → Text
ensure_trailing_newline s = if ends_with_newline s then s else s ++ 10 ∷ []

-- \s of a regular expression
abbrev pub is_blank : ℕ → Bool
is_blank c = c == 32 || c == 9 || c == 10 || c == 12 || c == 13

abbrev pub not_newline : ℕ → Bool
not_newline c = not (c == 10)

-- `.*$` matches the rest of a line; this is what stands behind it.
abbrev pub behind_line : Text → Text
behind_line s = trim_left_of not_newline s

-- What stands behind a literal, in any case of letters.
abbrev pub behind_literal : Text → Text → Option Text
behind_literal literal s =
    if has_prefix (to_lower s) (to_lower literal) then some (drop (length literal) s) else none

abbrev pub behind_colon : Text → Option Text
behind_colon [] = none
behind_colon (c ∷ s) = if c == 58 then some (behind_line (trim_left_of is_blank s)) else none

abbrev pub behind_key : Option Text → Option Text
behind_key none = none
behind_key (some s) = behind_colon (trim_left_of is_blank s)

abbrev pub behind_label : Option Text → Option Text
behind_label none = none
behind_label (some s) = some (behind_line s)

abbrev pub length_to : Text → Option Text → Option ℕ
length_to s none = none
length_to s (some rest) = some (length s - length rest)

-- `(?im)^KEY\s*:\s*.*$` and `(?im)^- \*\*KEY:\*\*.*$`
unfoldable pub identity_line : Text → Matcher
unfolding trim_left_of has_prefix to_lower
identity_line key s = length_to s (behind_key (behind_literal key s))

unfoldable pub user_line : Text → Matcher
unfolding trim_left_of has_prefix to_lower
user_line key s = length_to s (behind_label (behind_literal (codes "- **" ++ key ++ codes ":**") s))

abbrev pub fresh_identity : Text → Text → Text
fresh_identity out label =
    if is_nil (trim_space out)
    then label ++ (10 ∷ [])
    else trim_newlines out ++ (10 ∷ (label ++ (10 ∷ [])))

-- One line of a patch that has a key.
unfoldable pub set_identity : Text → Text → Text → Text
unfolding match_string replace_all_string identity_line trim_space trim_newlines
set_identity out key val =
    let label = key ++ codes ": " ++ val in
    if match_string (identity_line key) true out
    then replace_all_string (identity_line key) label true 0 out
    else fresh_identity out label

abbrev pub fresh_user : Text → Text → Text
fresh_user out label =
    if is_nil (trim_space out)
    then codes "# USER" ++ (10 ∷ 10 ∷ codes "## Profile") ++ (10 ∷ (label ++ (10 ∷ [])))
    else if contains (to_lower out) (codes "## profile")
    then trim_newlines out ++ (10 ∷ (label ++ (10 ∷ [])))
    else trim_newlines out ++ (10 ∷ 10 ∷ codes "## Profile") ++ (10 ∷ (label ++ (10 ∷ [])))

unfoldable pub set_user : Text → Text → Text → Text
unfolding match_string replace_all_string user_line trim_space trim_newlines to_lower contains
set_user out key val =
    let label = codes "- **" ++ key ++ codes ":** " ++ val in
    if match_string (user_line key) true out
    then replace_all_string (user_line key) label true 0 out
    else fresh_user out label

-- The key and the value of a trimmed line, where it has a colon behind a key.
abbrev pub keyed : Option (Text × Text) → Option (Text × Text)
keyed none = none
keyed (some (k, v)) = if is_nil (trim_space k) then none else some (trim_space k, trim_space v)

unfoldable pub entry_of : Text → Option (Text × Text)
unfolding trim_space cut
entry_of raw = keyed (cut 58 (trim_space raw))

abbrev pub with_entry : (Text → Text → Text → Text) → Text → Option (Text × Text) → Text
with_entry set out none = out
with_entry set out (some (key, val)) = set out key val

unfoldable pub patch_lines : (Text → Text → Text → Text) → Text → List Text → Text
unfolding entry_of
patch_lines set out [] = out
patch_lines set out (raw ∷ lines) = patch_lines set (with_entry set out (entry_of raw)) lines

abbrev pub set_identity_lower : Text → Text → Text → Text
set_identity_lower out key val = set_identity out (to_lower key) val

unfoldable pub patch_identity : Text → Text → Text
unfolding patch_lines ensure_trailing_newline set_identity to_lower split_byte trim_space
patch_identity current patch =
    ensure_trailing_newline
      (patch_lines set_identity_lower current (split_byte 10 (trim_space patch)))

unfoldable pub patch_user : Text → Text → Text
unfolding patch_lines ensure_trailing_newline set_user split_byte trim_space
patch_user current patch =
    ensure_trailing_newline (patch_lines set_user current (split_byte 10 (trim_space patch)))

unfoldable pub patch_text : Text → Text → Text → Answer Text
unfolding patch_identity patch_user eq_text to_upper trim_space
patch_text file_name current patch =
    let name = to_upper (trim_space file_name) in
    if eq_text name (codes "IDENTITY.MD")
    then done (patch_identity current patch)
    else if eq_text name (codes "USER.MD")
    then done (patch_user current patch)
    else failed internal
