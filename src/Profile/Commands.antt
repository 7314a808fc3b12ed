-- ===== src/Profile/Commands.antt =====
-- internal/profile/commands.go: the commands /profile and /onboard of a message.
pub mod Parsed
use nisix.Common.{
  ℕ, ◌+◌, Bool, true, false, Option, none, some, List, [], ◌∷◌, leb, if◌then◌else◌, length, drop,
  take, is_nil,
}
use nisix.Common.Text.{Text, codes, eq_text, trim_space, to_lower, has_prefix, fields, index_byte}
use nisix.Profile.{
  Command, CommandKind, profile_list, profile_show, profile_diff, profile_set, profile_append,
  profile_apply, onboard_status, onboard_done,
}
use nisix.Profile.Validator.{normalize_file}

-- strings.Index
unfoldable pub index : Text → Text → Option ℕ
unfolding has_prefix
index [] p = if has_prefix [] p then some 0 else none
index (c ∷ s) p =
    let rest = index s p in
    if has_prefix (c ∷ s) p then some 0 else elim rest [ none ↦ none | some i ↦ some (i + 1) ]

-- raw[i:]; the text that is looked for is a field of raw, so that it is found.
abbrev slice_from : Text → Option ℕ → Text
slice_from raw none = []
slice_from raw (some i) = drop i raw

abbrev body_behind : Text → List Text → Text
body_behind raw [] = []
body_behind raw (p ∷ more) = trim_space (slice_from raw (index raw p))

abbrev body_below : Text → Text → Option ℕ → Text
body_below raw inline none = inline
body_below raw inline (some i) =
    if leb 3 (length (fields (trim_space (take i raw))))
    then trim_space (drop (i + 1) raw)
    else inline

-- parseCommandBody, where `more` is parts[3:].
unfoldable pub parse_command_body : Text → List Text → Text
unfolding trim_space index fields index_byte
parse_command_body raw more = body_below raw (body_behind raw more) (index_byte raw 10)

abbrev pub command : CommandKind → Text → Text → Text → Option Command
command kind file content id =
    some (record { kind = kind; file = file; content = content; id = id })

abbrev pub apply_command : Text → Option Command
apply_command id = if is_nil id then none else command profile_apply [] [] id

abbrev pub file_command : Text → Text → Text → Option Command
file_command action file body =
    if eq_text action (codes "show")
    then command profile_show file [] []
    else if eq_text action (codes "diff")
    then command profile_diff file body []
    else if eq_text action (codes "set")
    then command profile_set file body []
    else if eq_text action (codes "append")
    then command profile_append file body []
    else none

abbrev pub parts_command : Text → List Text → Option Command
parts_command trimmed (p ∷ action ∷ file ∷ more) =
    if eq_text (to_lower p) (codes "/profile")
    then file_command (to_lower action) (normalize_file file) (parse_command_body trimmed more)
    else none
parts_command trimmed _ = none

abbrev pub trimmed_command : Text → Text → Option Command
trimmed_command trimmed lower =
    if is_nil trimmed
    then none
    else if eq_text lower (codes "/onboard status")
    then command onboard_status [] [] []
    else if eq_text lower (codes "/onboard done")
    then command onboard_done [] [] []
    else if has_prefix lower (codes "/profile apply ")
    then apply_command (trim_space (drop 15 trimmed))
    else if eq_text lower (codes "/profile list")
    then command profile_list [] [] []
    else parts_command trimmed (fields trimmed)

unfoldable pub parse_command : Text → Option Command
parse_command text = trimmed_command (trim_space text) (to_lower (trim_space text))
