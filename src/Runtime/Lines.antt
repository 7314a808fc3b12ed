-- ===== src/Runtime/Lines.antt =====
-- internal/agentruntime/runtime.go: toolCallLinePattern and parseToolCallFromGeneratedText. The
-- regular expression is written out on ASCII lines; a line has no newline.
use nisix.Common.{
  ℕ, Bool, false, ◌&&◌, ◌||◌, Option, none, some, List, [], ◌∷◌, ◌++◌, ◌==◌, leb, if◌then◌else◌,
  is_nil,
}
use nisix.Common.Text.{Text, codes, trim_space, has_prefix, split_byte}
use nisix.Common.Cutsets.{trim_left_of, trim_right_of, trim_of}
use nisix.Common.Sets.{member}
use nisix.Tools.Registry.{Registry, list}
use nisix.Runtime.Services.{Decoded, decoded, invalid}

abbrev is_lower : ℕ → Bool
is_lower c = leb 97 c && leb c 122

abbrev is_digit : ℕ → Bool
is_digit c = leb 48 c && leb c 57

-- [a-z0-9_]
abbrev is_name_byte : ℕ → Bool
is_name_byte c = is_lower c || is_digit c || c == 95

-- [A-Za-z_] and [A-Za-z0-9_]
abbrev starts_label : ℕ → Bool
starts_label c = is_lower c || (leb 65 c && leb c 90) || c == 95

abbrev is_label_byte : ℕ → Bool
is_label_byte c = starts_label c || is_digit c

-- \s
abbrev is_blank : ℕ → Bool
is_blank c = c == 32 || c == 9 || c == 10 || c == 12 || c == 13

abbrev skip_blanks : Text → Text
skip_blanks s = trim_left_of is_blank s

-- The longest run of bytes that pass a test, and what stands behind it.
unfoldable pub span : (ℕ → Bool) → Text → Text × Text
span p [] = ([], [])
span p (c ∷ s) = let (w, rest) = span p s in if p c then (c ∷ w, rest) else ([], c ∷ s)

abbrev behind_colon : Text → Text → Text
behind_colon whole [] = whole
behind_colon whole (c ∷ s) = if c == 58 then skip_blanks s else whole

-- What stands behind `(?:[A-Za-z_][A-Za-z0-9_]*\s*:\s*)?`; the name and the colon leave no choice.
abbrev skip_label : Text → Text
skip_label [] = []
skip_label (c ∷ s) =
    if starts_label c
    then behind_colon (c ∷ s) (skip_blanks (span is_label_byte (c ∷ s)).1)
    else c ∷ s

abbrev ends_with : ℕ → Text → Bool
ends_with b [] = false
ends_with b (c ∷ []) = c == b
ends_with b (c ∷ d ∷ s) = ends_with b (d ∷ s)

abbrev without_last : Text → Text
without_last [] = []
without_last (c ∷ []) = []
without_last (c ∷ d ∷ s) = c ∷ without_last (d ∷ s)

-- `(\{.*\})?`, where `\s*` stands around it; a single brace is no object.
abbrev object_of : Text → Option Text
object_of [] = some []
object_of (c ∷ []) = none
object_of (c ∷ d ∷ s) = if c == 123 && ends_with 125 (d ∷ s) then some (c ∷ d ∷ s) else none

-- `\s*(\{.*\})?\s*\)\s*$`
abbrev arguments : Text → Option Text
arguments s =
    let closed = trim_right_of is_blank s in
    if ends_with 41 closed then object_of (trim_of is_blank (without_last closed)) else none

abbrev named_call : Text → Option Text → Option (Text × Text)
named_call name none = none
named_call name (some args) = some (name, args)

abbrev call_behind : Text → Text → Option (Text × Text)
call_behind name [] = none
call_behind name (c ∷ s) = if c == 40 then named_call name (arguments s) else none

abbrev call_at : Text → Option (Text × Text)
call_at [] = none
call_at (c ∷ s) =
    if is_lower c
    then call_behind (span is_name_byte (c ∷ s)).0 (skip_blanks (span is_name_byte (c ∷ s)).1)
    else none

-- The name and the arguments, match[1] and match[2], of a line that the pattern matches.
unfoldable pub call_of_line : Text → Option (Text × Text)
call_of_line line = call_at (skip_label (skip_blanks line))

abbrev is_tick : ℕ → Bool
is_tick c = c == 96

abbrev call_in : Text → Option (Text × Text)
call_in line =
    if is_nil line || has_prefix line (codes "```")
    then none
    else call_of_line (trim_of is_tick line)

-- A call of a generated text: its name and its input, or why the input is no object.
pub data Call : Type 0 where
  no_call : Call
  call : Text → Text → Call
  bad_input : Text → Call

abbrev input_of : Text → Decoded → Call
input_of name (decoded input) = call name input
input_of name (invalid e) = bad_input (codes "invalid tool input JSON: " ++ e)

abbrev with_args : (Text → Decoded) → Text → Text → Call
with_args decode name args =
    if is_nil args then call name (codes "{}") else input_of name (decode args)

abbrev registered_call : (Text → Decoded) → List Text → Option (Text × Text) → Call → Call
registered_call decode names none rest = rest
registered_call decode names (some (name, args)) rest =
    if member names name then with_args decode name (trim_space args) else rest

unfoldable pub find_call : (Text → Decoded) → List Text → List Text → Call
find_call decode names [] = no_call
find_call decode names (line ∷ lines) =
    registered_call decode names (call_in (trim_space line)) (find_call decode names lines)

unfoldable pub parse_tool_call : (Text → Decoded) → Option Registry → Text → Call
parse_tool_call decode none text = no_call
parse_tool_call decode (some r) text =
    if is_nil (list r) then no_call else find_call decode (list r) (split_byte 10 text)
