-- ===== src/Bootstrap.antt =====
-- internal/bootstrap/service.go, internal/identity/service.go and internal/memory/service.go: what an agent reads from
-- its workspace. A file that is missing or cannot be read is none.
use nisix.Common.{
  ℕ, ◌*◌, Bool, false, Option, none, some, List, [], ◌∷◌, ◌++◌, leb, if◌then◌else◌, is_nil, length,
  drop,
}
use nisix.Common.Text.{
  Text, codes, trim_space, to_lower, has_prefix, trim_prefix, contains, split_byte,
}
use nisix.Domain.{AgentIdentity}

-- The contents of the files that can be read, by their paths in the workspace.
abbrev pub Workspace : Type 0
Workspace = Text → Option Text

pub record ContextBundle : Type 0 where
  pub identity : AgentIdentity
  pub soul_text : Text
  pub project_prompt : Text

abbrev trimmed : Option Text → Text
trimmed none = []
trimmed (some b) = trim_space b

unfoldable pub read_text : Workspace → Text → Text
read_text w path = trimmed (w path)

abbrev default_identity : AgentIdentity
default_identity = record { name = codes "Assistant"; avatar = codes "A"; emoji = [] }

-- bufio.MaxScanTokenSize
abbrev max_scan_token_size : ℕ
max_scan_token_size = 64 * 1024

abbrev drop_empty_end : List Text → List Text
drop_empty_end [] = []
drop_empty_end (l ∷ []) = if is_nil l then [] else l ∷ []
drop_empty_end (l ∷ m ∷ ls) = l ∷ drop_empty_end (m ∷ ls)

-- A line that is too long ends the scan.
unfoldable pub until_too_long : List Text → List Text
until_too_long [] = []
until_too_long (l ∷ ls) =
    let rest = until_too_long ls in if leb max_scan_token_size (length l) then [] else l ∷ rest

-- The lines of a bufio.Scanner, up to a carriage return at their ends, which TrimSpace takes away.
unfoldable pub scan_lines : Text → List Text
scan_lines s = until_too_long (drop_empty_end (split_byte 10 s))

-- loadIdentity on one trimmed line
unfoldable pub identity_line : AgentIdentity → Text → AgentIdentity
identity_line id line =
    if has_prefix (to_lower line) (codes "name:")
    then record id { name = trim_space (drop 5 line) }
    else if has_prefix (to_lower line) (codes "avatar:")
    then record id { avatar = trim_space (drop 7 line) }
    else if has_prefix (to_lower line) (codes "emoji:")
    then record id { emoji = trim_space (drop 6 line) }
    else id

unfoldable pub identity_lines : AgentIdentity → List Text → AgentIdentity
identity_lines id [] = id
identity_lines id (l ∷ ls) = identity_lines (identity_line id (trim_space l)) ls

abbrev identity_in : Option Text → AgentIdentity
identity_in none = default_identity
identity_in (some b) = identity_lines default_identity (scan_lines b)

unfoldable pub load_identity : Workspace → AgentIdentity
load_identity w = identity_in (w (codes "IDENTITY.md"))

-- The sections that are not empty, behind the title.
unfoldable pub add_section : Text → Text → Text → Text
add_section b file body =
    if is_nil (trim_space body)
    then b
    else (if is_nil b then codes "# Project Context\n\n" else b)
      ++ codes "## "
      ++ file
      ++ codes "\n"
      ++ body
      ++ codes "\n\n"

unfoldable pub add_sections : Workspace → Text → List Text → Text
add_sections w b [] = b
add_sections w b (file ∷ files) = add_sections w (add_section b file (read_text w file)) files

abbrev pub section_files : List Text
section_files = codes "AGENTS.md" ∷ codes "TOOLS.md" ∷ codes "USER.md" ∷ codes "BOOTSTRAP.md" ∷ []

-- LoadContext; it never gives an error.
unfoldable pub load_context : Workspace → ContextBundle
load_context w = record {
  identity = load_identity w;
  soul_text = read_text w (codes "SOUL.md");
  project_prompt = trim_space (add_sections w [] section_files);
}

-- One line in identity.Service.Load: the tests ignore case, and TrimPrefix does not.
unfoldable pub service_line : AgentIdentity → Text → AgentIdentity
service_line id line =
    let named =
      if has_prefix (to_lower line) (codes "name:")
      then record id { name = trim_space (trim_prefix line (codes "name:")) }
      else id in
    let shown =
      if has_prefix (to_lower line) (codes "avatar:")
      then record named { avatar = trim_space (trim_prefix line (codes "avatar:")) }
      else named in
    if has_prefix (to_lower line) (codes "emoji:")
    then record shown { emoji = trim_space (trim_prefix line (codes "emoji:")) }
    else shown

unfoldable pub service_lines : AgentIdentity → List Text → AgentIdentity
service_lines id [] = id
service_lines id (l ∷ ls) = service_lines (service_line id (trim_space l)) ls

abbrev service_in : Option Text → AgentIdentity
service_in none = default_identity
service_in (some b) = service_lines default_identity (scan_lines b)

-- identity.Service.Load
unfoldable pub load : Workspace → AgentIdentity
load w = service_in (w (codes "IDENTITY.md"))

abbrev has_query : Text → Option Text → Bool
has_query query none = false
has_query query (some b) = contains (to_lower b) query

-- The paths whose files have the query.
unfoldable pub search_paths : Workspace → Text → List Text → List Text
search_paths w query [] = []
search_paths w query (p ∷ paths) =
    let rest = search_paths w query paths in if has_query query (w p) then p ∷ rest else rest

-- memory.Service.Search; `globbed` is what the pattern memory/*.md matches.
unfoldable pub search : Workspace → List Text → Text → List Text
search w globbed query =
    let q = to_lower (trim_space query) in
    if is_nil q then [] else search_paths w q (codes "MEMORY.md" ∷ globbed)
