-- ===== src/Skills/Parser.antt =====
-- internal/skills/parser.go: the file SKILL.md of a skill. An error is none.
use nisix.Common.{
  ℕ, Bool, ◌||◌, not, Option, none, some, List, [], ◌∷◌, ◌==◌, ltb, if◌then◌else◌, is_nil, length,
}
use nisix.Common.Text.{
  Text, codes, eq_text, trim_space, to_lower, has_prefix, split_byte, cut, join,
}
use nisix.Common.Cutsets.{trim_of}

pub record SkillMeta : Type 0 where
  pub name : Text
  pub description : Text

abbrev pub no_meta : SkillMeta
no_meta = record { name = []; description = [] }

abbrev pub is_fence : Text → Bool
is_fence line = eq_text (trim_space line) (codes "---")

abbrev pub line_before : Text → Option (List Text × List Text) → Option (List Text × List Text)
line_before line none = none
line_before line (some (front, body)) = some (line ∷ front, body)

-- The lines up to a fence, and those behind it.
unfoldable pub split_fence : List Text → Option (List Text × List Text)
split_fence [] = none
split_fence (line ∷ lines) =
    let rest = split_fence lines in
    if is_fence line then some ([], lines) else line_before line rest

abbrev pub is_quote_byte : ℕ → Bool
is_quote_byte c = c == 34 || c == 39

abbrev pub set_meta : SkillMeta → Text → Text → SkillMeta
set_meta meta k v =
    if eq_text k (codes "name")
    then record meta { name = v }
    else if eq_text k (codes "description")
    then record meta { description = v }
    else meta

abbrev pub meta_entry : SkillMeta → Option (Text × Text) → SkillMeta
meta_entry meta none = meta
meta_entry meta (some (k, v)) =
    set_meta meta (to_lower (trim_space k)) (trim_of is_quote_byte (trim_space v))

unfoldable pub read_line : SkillMeta → Text → SkillMeta
read_line meta line =
    if is_nil line || has_prefix line (codes "#") then meta else meta_entry meta (cut 58 line)

unfoldable pub read_meta : SkillMeta → List Text → SkillMeta
read_meta meta [] = meta
read_meta meta (line ∷ lines) = read_meta (read_line meta (trim_space line)) lines

abbrev pub with_meta : SkillMeta → List Text → Option (SkillMeta × Text)
with_meta meta body =
    if is_nil (trim_space meta.name) || is_nil (trim_space meta.description)
    then none
    else some (meta, trim_space (join (codes "\n") body))

abbrev pub from_front : Option (List Text × List Text) → Option (SkillMeta × Text)
from_front none = none
from_front (some (front, body)) = with_meta (read_meta no_meta front) body

abbrev pub from_lines : List Text → Option (SkillMeta × Text)
from_lines [] = none
from_lines (line ∷ lines) =
    if ltb (length (line ∷ lines)) 3 || not (is_fence line)
    then none
    else from_front (split_fence lines)

unfoldable pub parse_skill_markdown : Text → Option (SkillMeta × Text)
parse_skill_markdown content =
    let trimmed = trim_space content in
    if is_nil trimmed
    then none
    else if not (has_prefix trimmed (codes "---"))
    then none
    else from_lines (split_byte 10 trimmed)
