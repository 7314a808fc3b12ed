-- ===== src/Profile/Detect.antt =====
-- internal/profile/autodetect.go: a wish for a name that a message states. The regular expressions
-- are written out: `(?i)\bPHRASE ([\p{L}\p{N} ._\-']{1,64})` on ASCII text, where the phrase starts with
-- a letter.
use nisix.Common.{
  ℕ, zero, suc, Bool, false, ◌&&◌, ◌||◌, not, Option, none, some, [], ◌∷◌, ◌++◌, ◌==◌, leb,
  if◌then◌else◌, drop, length, take, is_nil,
}
use nisix.Common.Text.{Text, codes, trim_space, to_lower, has_prefix}
use nisix.Common.Cutsets.{trim_of, trim_right_of}
use nisix.Profile.{UpdateRequest, update_mode_patch}

abbrev is_alnum : ℕ → Bool
is_alnum c = (leb 97 c && leb c 122) || (leb 65 c && leb c 90) || (leb 48 c && leb c 57)

-- \w
abbrev is_word_byte : ℕ → Bool
is_word_byte c = is_alnum c || c == 95

-- [\p{L}\p{N} ._\-']
abbrev is_name_byte : ℕ → Bool
is_name_byte c = is_alnum c || c == 32 || c == 46 || c == 95 || c == 45 || c == 39

-- As many bytes of a name as there are, at most `max`.
unfoldable pub name_run : ℕ → Text → Text
name_run zero s = []
name_run (suc max) [] = []
name_run (suc max) (c ∷ s) = let rest = name_run max s in if is_name_byte c then c ∷ rest else []

-- The submatch of the first match; `inside` says that the byte before is a word byte.
unfoldable pub find_name : Text → Bool → Text → Text
unfolding name_run has_prefix to_lower
find_name phrase inside [] = []
find_name phrase inside (c ∷ s) =
    let rest = find_name phrase (is_word_byte c) s in
    let name = name_run 64 (drop (length phrase) (c ∷ s)) in
    if not inside && has_prefix (to_lower (c ∷ s)) phrase && not (is_nil name) then name else rest

abbrev is_quote : ℕ → Bool
is_quote c = c == 34 || c == 39

-- .,!?;:
abbrev is_stop : ℕ → Bool
is_stop c = c == 46 || c == 44 || c == 33 || c == 63 || c == 59 || c == 58

unfoldable pub normalize_detected_value : Text → Text
unfolding trim_space trim_of trim_right_of
normalize_detected_value raw =
    take 64 (trim_space (trim_right_of is_stop (trim_of is_quote (trim_space raw))))

abbrev wish : Text → Text → Text → Text → Option (UpdateRequest × Text)
wish file key reason name = some (
  record {
    file = file;
    mode = update_mode_patch;
    content = key ++ codes ": " ++ name;
    reason = reason;
  },
  codes "Detected preference: update "
      ++ file
      ++ codes " "
      ++ key
      ++ codes " to \""
      ++ name
      ++ codes "\"",
)

unfoldable pub detect_high_confidence : Text → Option (UpdateRequest × Text)
unfolding find_name normalize_detected_value trim_space
detect_high_confidence text =
    let msg = trim_space text in
    let mine = normalize_detected_value (find_name (codes "my name is ") false msg) in
    let called = normalize_detected_value (find_name (codes "call me ") false msg) in
    let yours = normalize_detected_value (find_name (codes "your name is ") false msg) in
    if is_nil msg
    then none
    else if not (is_nil mine)
    then wish (codes "USER.md") (codes "Name") (codes "auto_detect_my_name") mine
    else if not (is_nil called)
    then wish (codes "USER.md") (codes "What to call them") (codes "auto_detect_call_me") called
    else if not (is_nil yours)
    then wish (codes "IDENTITY.md") (codes "name") (codes "auto_detect_your_name") yours
    else none
