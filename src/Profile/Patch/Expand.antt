-- ===== src/Profile/Patch/Expand.antt =====
-- regexp: how ReplaceAllString expands the dollar signs of its replacement, for an expression without
-- groups.
use nisix.Common.{ℕ, Bool, ◌&&◌, ◌||◌, not, [], ◌∷◌, ◌++◌, ◌==◌, leb, if◌then◌else◌, is_nil}
use nisix.Common.Text.{Text, codes, eq_text}

-- Letters, digits and the underscore.
abbrev is_group_byte : ℕ → Bool
is_group_byte c =
    (leb 97 c && leb c 122) || (leb 65 c && leb c 90) || (leb 48 c && leb c 57) || c == 95

-- Where the expansion stands: in plain text, behind a dollar sign, in a name, or in a name in braces.
pub data Place : Type 0 where
  plain : Place
  dollar : Place
  name : Text → Place
  braced : Text → Place

-- $0 is the match; every other group does not exist and stands for nothing.
abbrev group : Text → Text → Text
group matched n = if eq_text n (codes "0") then matched else []

unfoldable pub expand : Text → Place → Text → Text
unfolding eq_text
expand matched plain [] = []
expand matched dollar [] = codes "$"
expand matched (name n) [] = group matched n
expand matched (braced n) [] = codes "${" ++ n
expand matched plain (c ∷ s) =
    let behind = expand matched dollar s in
    let rest = expand matched plain s in if c == 36 then behind else c ∷ rest
expand matched dollar (c ∷ s) =
    let rest = expand matched plain s in
    let named = expand matched (name (c ∷ [])) s in
    let inside = expand matched (braced []) s in
    if c == 36
    then 36 ∷ rest
    else if c == 123
    then inside
    else if is_group_byte c
    then named
    else 36 ∷ c ∷ rest
expand matched (name n) (c ∷ s) =
    let longer = expand matched (name (n ++ c ∷ [])) s in
    let behind = expand matched dollar s in
    let rest = expand matched plain s in
    if is_group_byte c
    then longer
    else if c == 36
    then group matched n ++ behind
    else group matched n ++ c ∷ rest
expand matched (braced n) (c ∷ s) =
    let longer = expand matched (braced (n ++ c ∷ [])) s in
    let behind = expand matched dollar s in
    let rest = expand matched plain s in
    if is_group_byte c
    then longer
    else if c == 125 && not (is_nil n)
    then group matched n ++ rest
    else if c == 36
    then codes "${" ++ n ++ behind
    else codes "${" ++ n ++ c ∷ rest
