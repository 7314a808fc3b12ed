-- ===== src/Common/Runes.antt =====
-- Go's conversions between a string and its runes: []rune(s) and string(runes), on UTF-8.
pub mod Laws
use Prim.Native.Nat.{ℕ, zero, suc, ◌+◌, ◌*◌, ◌-◌, ◌/◌, ◌%◌}
use mathlib.Core.Bool.{Bool, true, false, ◌&&◌, ◌||◌}
use mathlib.Core.List.{List, [], ◌∷◌, ◌++◌}
use nisix.Common.Tests.{leb, ltb, if◌then◌else◌}
use nisix.Common.Text.{Text}

-- The code points but those of surrogates.
unfoldable pub is_scalar : ℕ → Bool
is_scalar r = ltb r 55296 || (leb 57344 r && leb r 1114111)

-- U+FFFD, which stands for one byte that starts no rune.
abbrev pub bad_byte : ℕ × ℕ
bad_byte = (65533, 0)

abbrev pub is_continuation : ℕ → Bool
is_continuation b = leb 128 b && leb b 191

abbrev pub two_bytes : ℕ → Text → ℕ × ℕ
two_bytes a [] = bad_byte
two_bytes a (b ∷ s) =
    if leb 194 a && is_continuation b then ((a - 192) * 64 + (b - 128), 1) else bad_byte

abbrev pub three_value : ℕ → ℕ → ℕ → ℕ
three_value a b c = ((a - 224) * 64 + (b - 128)) * 64 + (c - 128)

abbrev pub three_bytes : ℕ → Text → ℕ × ℕ
three_bytes a (b ∷ c ∷ s) =
    let v = three_value a b c in
    if is_continuation b && is_continuation c && (leb 2048 v && is_scalar v)
    then (v, 2)
    else bad_byte
three_bytes a _ = bad_byte

abbrev pub four_value : ℕ → ℕ → ℕ → ℕ → ℕ
four_value a b c d = (((a - 240) * 64 + (b - 128)) * 64 + (c - 128)) * 64 + (d - 128)

abbrev pub four_bytes : ℕ → Text → ℕ × ℕ
four_bytes a (b ∷ c ∷ d ∷ s) =
    let v = four_value a b c d in
    if is_continuation b && is_continuation c && is_continuation d && (leb 65536 v && is_scalar v)
    then (v, 3)
    else bad_byte
four_bytes a _ = bad_byte

-- The rune at the start of a text, and how many bytes it has behind its first one.
unfoldable pub first_rune : ℕ → Text → ℕ × ℕ
first_rune a s =
    if ltb a 128
    then (a, 0)
    else if ltb a 224
    then two_bytes a s
    else if ltb a 240
    then three_bytes a s
    else four_bytes a s

-- The runes behind some bytes that belong to the rune before.
unfoldable pub decode_behind : ℕ → Text → Text
decode_behind skip [] = []
decode_behind (suc skip) (a ∷ s) = decode_behind skip s
decode_behind zero (a ∷ s) = (first_rune a s).0 ∷ decode_behind (first_rune a s).1 s

-- []rune(s)
abbrev pub decode : Text → Text
decode s = decode_behind 0 s

abbrev pub scalar_bytes : ℕ → Text
scalar_bytes r =
    if ltb r 128
    then r ∷ []
    else if ltb r 2048
    then (192 + r / 64) ∷ (128 + r % 64) ∷ []
    else if ltb r 65536
    then (224 + r / 64 / 64) ∷ (128 + r / 64 % 64) ∷ (128 + r % 64) ∷ []
    else (240 + r / 64 / 64 / 64)
      ∷ (128 + r / 64 / 64 % 64)
      ∷ (128 + r / 64 % 64)
      ∷ (128 + r % 64)
      ∷ []

unfoldable pub rune_bytes : ℕ → Text
rune_bytes r = if is_scalar r then scalar_bytes r else scalar_bytes 65533

-- string(runes)
unfoldable pub encode : Text → Text
encode [] = []
encode (r ∷ runes) = rune_bytes r ++ encode runes
