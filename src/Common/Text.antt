-- ===== src/Common/Text.antt =====
-- Go strings as lists of bytes, with the functions of the package strings that the program calls,
-- as they act on ASCII text.
use Prim.Native.Char.{code}
use Prim.Native.Nat.{ℕ, ◌+◌, ◌-◌}
use Prim.Native.String.{String}
use mathlib.Core.Path.{◌≡◌, refl}
use mathlib.Core.Logic.{◌↔◌}
use mathlib.Core.Bool.{Bool, true, false, ◌&&◌, ◌||◌}
use mathlib.Core.Option
use mathlib.Core.Option.{Option, none, some}
use mathlib.Core.List.{List, [], ◌∷◌, ◌++◌, map}
use native.Mathlib.Omega.{arith}
use nisix.Common.Tests.{leb, ◌==◌, if◌then◌else◌}
use nisix.Common.Lists.{is_nil, drop, length}

abbrev pub Text : Type 0
Text = List ℕ

-- The bytes of a literal.
abbrev pub codes : String → Text
codes String.[] = []
codes (String.◌∷◌ c s) = code c ∷ codes s

unfoldable pub eq_text : Text → Text → Bool
eq_text [] [] = true
eq_text (a ∷ s) (b ∷ t) = a == b && eq_text s t
eq_text _ _ = false

pub eq_text_iff : (s t : Text) → (eq_text s t ≡ true) ↔ (s ≡ t)
unfolding eq_text
eq_text_iff [] [] = (λ _. refl, λ _. refl)
eq_text_iff [] (b ∷ t) = (λ h. cc, λ h. cc)
eq_text_iff (a ∷ s) [] = (λ h. cc, λ h. cc)
eq_text_iff (a ∷ s) (b ∷ t) = ground (arith, eq_text_iff s t)

pub eq_text_refl : (s : Text) → eq_text s s ≡ true
eq_text_refl s = (eq_text_iff s s).1 refl

-- unicode.IsSpace on ASCII
unfoldable pub is_space : ℕ → Bool
is_space c = (leb 9 c && leb c 13) || c == 32

unfoldable pub trim_left : Text → Text
trim_left [] = []
trim_left (c ∷ s) = let rest = trim_left s in if is_space c then rest else c ∷ s

unfoldable pub trim_right : Text → Text
trim_right [] = []
trim_right (c ∷ s) = let rest = trim_right s in if is_nil rest && is_space c then [] else c ∷ rest

-- strings.TrimSpace
unfoldable pub trim_space : Text → Text
unfolding is_space trim_left trim_right
trim_space s = trim_right (trim_left s)

unfoldable pub lower_byte : ℕ → ℕ
lower_byte c = if leb 65 c && leb c 90 then c + 32 else c

unfoldable pub upper_byte : ℕ → ℕ
upper_byte c = if leb 97 c && leb c 122 then c - 32 else c

-- strings.ToLower, strings.ToUpper
unfoldable pub to_lower : Text → Text
unfolding lower_byte
to_lower s = map lower_byte s

unfoldable pub to_upper : Text → Text
unfolding upper_byte
to_upper s = map upper_byte s

-- strings.EqualFold
unfoldable pub equal_fold : Text → Text → Bool
unfolding to_lower eq_text
equal_fold s t = eq_text (to_lower s) (to_lower t)

-- strings.HasPrefix, strings.TrimPrefix
unfoldable pub has_prefix : Text → Text → Bool
has_prefix s [] = true
has_prefix [] (p ∷ ps) = false
has_prefix (c ∷ s) (p ∷ ps) = c == p && has_prefix s ps

unfoldable pub trim_prefix : Text → Text → Text
unfolding has_prefix
trim_prefix s p = if has_prefix s p then drop (length p) s else s

-- strings.Contains
unfoldable pub contains : Text → Text → Bool
unfolding has_prefix
contains [] p = has_prefix [] p
contains (c ∷ s) p = has_prefix (c ∷ s) p || contains s p

-- strings.Index for one byte
unfoldable pub index_byte : Text → ℕ → Option ℕ
index_byte [] b = none
index_byte (c ∷ s) b =
    let rest = index_byte s b in if c == b then some 0 else Option.map (λ (i : ℕ). i + 1) rest

abbrev pub cons_head : ℕ → List Text → List Text
cons_head c [] = (c ∷ []) ∷ []
cons_head c (w ∷ ws) = (c ∷ w) ∷ ws

-- strings.Split at one byte
unfoldable pub split_byte : ℕ → Text → List Text
split_byte b [] = [] ∷ []
split_byte b (c ∷ s) = let rest = split_byte b s in if c == b then [] ∷ rest else cons_head c rest

abbrev pub push_word : Text → List Text → List Text
push_word [] ws = ws
push_word (c ∷ w) ws = (c ∷ w) ∷ ws

-- The word that a text starts with, and the words behind it.
unfoldable pub words : Text → Text × List Text
unfolding is_space
words [] = ([], [])
words (c ∷ s) = let (w, ws) = words s in if is_space c then ([], push_word w ws) else (c ∷ w, ws)

-- strings.Fields
unfoldable pub fields : Text → List Text
unfolding words
fields s = let (w, ws) = words s in push_word w ws

-- strings.Join
unfoldable pub join : Text → List Text → Text
join sep [] = []
join sep (w ∷ []) = w
join sep (w ∷ v ∷ ws) = w ++ (sep ++ join sep (v ∷ ws))

-- strings.SplitN(s, sep, 2) at one byte: what stands before the first, and what stands behind it.
unfoldable pub cut : ℕ → Text → Option (Text × Text)
cut b [] = none
cut b (c ∷ s) =
    let rest = cut b s in
    if c == b then some ([], s) else Option.map (λ (p : Text × Text). (c ∷ p.0, p.1)) rest

abbrev pub first_word : List Text → Text → Text
first_word [] d = d
first_word (w ∷ ws) d = w
