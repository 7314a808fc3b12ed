-- ===== src/Mcp/Names.antt =====
-- internal/mcp/loader.go: the names under which the tools of servers are registered.
pub mod Fresh
use nisix.Common.{
  ℕ, zero, suc, ◌+◌, Bool, true, false, ◌&&◌, ◌||◌, not, Option, none, some, List, [], ◌∷◌, ◌++◌,
  ◌==◌, leb, if◌then◌else◌, is_nil, length, map,
}
use nisix.Common.Text.{Text, codes, trim_space, to_lower}
use nisix.Common.Cutsets.{trim_of}
use nisix.Common.Sets.{member}
use nisix.Common.Decimal.{itoa}

abbrev is_lower : ℕ → Bool
is_lower c = leb 97 c && leb c 122

abbrev safe_byte : ℕ → ℕ
safe_byte c = if is_lower c || (leb 48 c && leb c 57) then c else 95

abbrev is_underscore : ℕ → Bool
is_underscore c = c == 95

abbrev with_letter : Text → Text
with_letter [] = []
with_letter (c ∷ out) = if is_lower c then c ∷ out else codes "t_" ++ c ∷ out

-- sanitizeName on ASCII text
unfoldable pub sanitize_name : Text → Text
sanitize_name s = with_letter (trim_of is_underscore (map safe_byte (to_lower (trim_space s))))

abbrev pub candidate : Text → ℕ → Text
candidate base i = base ++ codes "_" ++ itoa i

-- The loop of uniqueToolName from i on; no name is a run out of fuel.
unfoldable pub search_name : ℕ → List Text → Text → ℕ → Option Text
search_name zero existing base i = none
search_name (suc fuel) existing base i =
    let rest = search_name fuel existing base (i + 1) in
    if member existing (candidate base i) then rest else some (candidate base i)

abbrev base_or_default : Text → Text
base_or_default base = if is_nil base then codes "mcp_tool" else base

abbrev pub unique_from : List Text → Text → Option Text
unique_from existing base =
    if member existing base then search_name (suc (length existing)) existing base 2 else some base

-- uniqueToolName; the loop gets one round more than there are names.
unfoldable pub unique_tool_name : List Text → Text → Option Text
unique_tool_name existing base = unique_from existing (base_or_default base)
