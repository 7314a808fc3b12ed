-- ===== src/Tools/Shell.antt =====
-- internal/tools/shell_tool.go: the timeout of a call and the buffers that bound a command's output.
-- The directory of a call and the command itself are the system's.
pub mod Output
pub mod Timeout
use nisix.Common.{
  ℕ, zero, suc, ◌+◌, ◌-◌, ◌*◌, ◌/◌, ◌%◌, ◌^◌, Bool, true, false, Option, none, some, List, [], ◌∷◌,
  ◌++◌, ltb, if◌then◌else◌, is_nil, length, take,
}
use nisix.Common.Text.{Text, codes, trim_space}
use nisix.Common.Int.{ℤ, pos, negsuc, positive_or}
use nisix.Common.Decimal.{atoi, itoa}

-- time.Second in nanoseconds
abbrev pub second : ℕ
second = 1_000_000_000

abbrev pub max_shell_output_bytes : ℕ
max_shell_output_bytes = 16 * 1024

-- Durations are in nanoseconds.
pub record ShellTool : Type 0 where
  pub workspace_dir : Text
  pub default_timeout : ℕ
  pub max_timeout : ℕ
  pub max_output_bytes : ℕ

unfoldable pub new_shell_tool : Text → ShellTool
new_shell_tool workspace_dir = record {
  workspace_dir = trim_space workspace_dir;
  default_timeout = 10 * second;
  max_timeout = 60 * second;
  max_output_bytes = max_shell_output_bytes;
}

-- A value of the input. A float carries the int that it equals, if it is a whole number.
pub data Value : Type 0 where
  absent : Value
  int : ℤ → Value
  float : Option ℤ → Value
  string : Text → Value
  other : Value

unfoldable pub as_int : Value → Option ℤ
as_int absent = none
as_int (int v) = some v
as_int (float v) = v
as_int (string s) = atoi (trim_space s)
as_int other = none

-- time.Duration(sec) * time.Second on 64 bits
unfoldable pub seconds : ℕ → ℤ
seconds sec =
    let w = (sec * second) % 2 ^ 64 in if ltb w (2 ^ 63) then pos w else negsuc (2 ^ 64 - w - 1)

pub data Duration : Type 0 where
  duration : ℤ → Duration
  bad_timeout : Text → Duration

abbrev pub within : ℕ → ℤ → Duration
within max (pos n) =
    if ltb max n
    then bad_timeout (codes "shell: timeoutSec must be <= " ++ itoa (max / second))
    else duration (pos n)
within max (negsuc n) = duration (negsuc n)

abbrev pub timeout_of : ℕ → Option ℤ → Duration
timeout_of max none = bad_timeout (codes "shell: timeoutSec must be an integer")
timeout_of max (some (pos zero)) = bad_timeout (codes "shell: timeoutSec must be >= 1")
timeout_of max (some (negsuc n)) = bad_timeout (codes "shell: timeoutSec must be >= 1")
timeout_of max (some (pos (suc n))) = within max (seconds (suc n))

unfoldable pub resolve_timeout : ShellTool → Value → Duration
resolve_timeout t absent = duration (pos t.default_timeout)
resolve_timeout t v = timeout_of t.max_timeout (as_int v)

pub record LimitedBuffer : Type 0 where
  pub buf : Text
  pub remaining : ℕ
  pub truncated : Bool

unfoldable pub new_limited_buffer : ℤ → LimitedBuffer
new_limited_buffer limit = record {
  buf = [];
  remaining = positive_or limit max_shell_output_bytes;
  truncated = false;
}

-- The buffer after a Write, and the number that it returns.
unfoldable pub write : LimitedBuffer → Text → LimitedBuffer × ℕ
write b p =
    if is_nil p
    then (b, 0)
    else if ltb 0 b.remaining
    then if ltb b.remaining (length p)
      then (record { buf = b.buf ++ take b.remaining p; remaining = 0; truncated = true }, length p)
      else (record b { buf = b.buf ++ p; remaining = b.remaining - length p }, length p)
    else (record b { truncated = true }, length p)
