-- ===== src/Tests/Profiles.antt =====
-- internal/profile on concrete files, patches and proposals.
use nisix.Common.Cutsets.{trim_right_of}
use nisix.Profile.Validator.{normalize_file, base}
use nisix.Common.{◌≡◌, refl, ◌⊎◌, true, some, none, [], ◌∷◌, ◌++◌, arith}
use nisix.Common.Text.{Text, codes, split_byte, trim_space, eq_text, to_lower, has_prefix, fields}
use nisix.Common.Int.{pos}
use nisix.Common.Sets.{In}
use nisix.Profile.{ProfileConfig, UpdateRequest, profile_append, update_mode_patch}
use nisix.Profile.Commands.{parse_command, parse_command_body}
use nisix.Profile.Detect.{detect_high_confidence}
use nisix.Profile.Diff.{render_line_diff}
use nisix.Profile.Files.{FileIo}
use nisix.Profile.Patch.{patch_identity, patch_user, append_text, entry_of}
use nisix.Profile.Patch.Patched.{patched_line}
use nisix.Profile.Service.{
  Service, new_service, update, maybe_create_proposal, apply_proposal, apply_among, Others,
}
use nisix.Profile.Service.Atomic.{IsAtomic, update-IsAtomic}
use nisix.Profile.Service.Consent.{Refused, Applied, start, after, message, apply_proposal-Applied}

abbrev newline : Text
newline = 10 ∷ []

append_command_test :
    parse_command (codes "/profile append docs/USER.md" ++ newline ++ codes "likes tea")
    ≡ some (record {
      kind = profile_append;
      file = codes "USER.md";
      content = codes "likes tea";
      id = [];
    })
unfolding parse_command trim_space eq_text to_lower has_prefix fields normalize_file
    parse_command_body base split_byte trim_right_of
append_command_test = refl

append_test :
    append_text (codes "a" ++ newline) (codes " b ")
    ≡ codes "a" ++ newline ++ newline ++ codes "b" ++ newline
unfolding append_text
append_test = refl

replace_test :
    patch_user (codes "- **Name:** Ann" ++ newline) (codes "name: Bo")
    ≡ codes "- **name:** Bo" ++ newline
unfolding patch_user
replace_test = refl

-- A dollar sign of a value that replaces a line is expanded.
dollar_test :
    patch_identity (codes "motto: x" ++ newline) (codes "motto: earn $5 now")
    ≡ codes "motto: earn  now" ++ newline
unfolding patch_identity
dollar_test = refl

-- A key without a value takes the line below with it.
blank_value_test :
    patch_identity (codes "name:" ++ newline ++ codes "role: pilot" ++ newline) (codes "name: Bo")
    ≡ codes "name: Bo" ++ newline
unfolding patch_identity
blank_value_test = refl

diff_test :
    render_line_diff (codes "a" ++ newline ++ codes "b") (codes "a" ++ newline ++ codes "c")
    ≡ codes "--- current"
      ++ newline
      ++ codes "+++ proposed"
      ++ newline
      ++ codes "- b"
      ++ newline
      ++ codes "+ c"
unfolding render_line_diff
diff_test = refl

abbrev request : UpdateRequest
request = record {
  file = codes "USER.md";
  content = codes "Name: Bo";
  mode = update_mode_patch;
  reason = codes "auto_detect_my_name";
}

detect_test :
    detect_high_confidence (codes "Hi, my name is Bo!")
    ≡ some (request, codes "Detected preference: update USER.md Name to \"Bo\"")
unfolding detect_high_confidence
detect_test = refl

patched_line_example :
    In (codes "name: Bo") (split_byte 10 (patch_identity (codes "Name : Al") (codes " Name: Bo")))
    × In
        (codes "- **Name:** Bo")
        (split_byte 10 (patch_user (codes "Name : Al") (codes " Name: Bo")))
unfolding entry_of to_lower
patched_line_example =
    patched_line (codes "Name : Al") (codes " Name: Bo") (codes "Name") (codes "Bo") (ground arith)
      refl

abbrev config : ProfileConfig
config = record {
  update_mode = codes "hybrid";
  auto_detect_enabled = true;
  allowed_files = [];
  max_file_bytes = pos 0;
  proposal_ttl = pos 0;
}

abbrev io : FileIo
io = record {
  can_read = true;
  can_make = true;
  can_write = true;
  torn = none;
  can_rename = true;
  can_stat = true;
  now = 5;
}

update-IsAtomic_example :
    IsAtomic io (new_service config) [] request (update io (new_service config) [] request)
update-IsAtomic_example = update-IsAtomic io (new_service config) [] request

abbrev proposed : Service
proposed = (maybe_create_proposal 3 (new_service config) (codes "s") (codes "call me Bo")).0

-- Another call applies the same proposal between the look and the update.
abbrev twice : Others
twice = record {
  before_update = λ s files.
      (let (t, (now_files, answer)) = apply_proposal io s files (codes "s") (codes "prop-3") in
        (t, now_files));
  before_delete = λ s. s;
}

apply_proposal-Applied_example :
    Refused 5 proposed []
      (codes " s")
      (codes "prop-3")
      (apply_among io twice proposed [] (codes " s") (codes "prop-3"))
    ⊎ Applied io twice proposed []
        (codes " s")
        (codes "prop-3")
        (apply_among io twice proposed [] (codes " s") (codes "prop-3"))
apply_proposal-Applied_example =
    apply_proposal-Applied config proposed
      (after start (message 3 (new_service config) (codes "s") (codes "call me Bo"))) io twice []
      (codes " s") (codes "prop-3")
