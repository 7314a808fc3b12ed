-- ===== src/Skills/Loading.antt =====
-- internal/skills/loader.go: the service that keeps the skills of a workspace. Its lock lets one call
-- at a time change the state; the model takes calls one after the other. The directory `skills` and its files are
-- an argument.
pub mod Classified
pub mod Selected
use nisix.Common.{
  ℕ, zero, suc, Bool, true, false, ◌&&◌, ◌||◌, not, Option, none, some, List, [], ◌∷◌, ◌++◌, ltb,
  if◌then◌else◌, is_nil, length, take, select,
}
use nisix.Common.Text.{Text, codes, eq_text, trim_space, to_lower, equal_fold}
use nisix.Common.Dict
use nisix.Common.Dict.{Dict}
use nisix.Common.Int.{ℤ, pos, negsuc, positive_or}
use nisix.Common.Sets.{member, add}
use nisix.Common.Sorting.{less_text}
use nisix.Skills.{Skill}
use nisix.Skills.Explicit.{select_explicit_skills}
use nisix.Skills.Matching.{select_auto_matched_skills}
use nisix.Skills.Parser.{SkillMeta, parse_skill_markdown}

-- No value is a nil pointer.
pub record EntryConfig : Type 0 where
  pub enabled : Option Bool

pub record SkillConfig : Type 0 where
  pub enabled : Bool
  pub auto_match : Bool
  pub max_injected : ℤ
  pub allowlist : List Text
  pub entries : Dict EntryConfig
  pub max_body_chars : ℤ

pub record SkillService : Type 0 where
  pub cfg : SkillConfig
  pub loaded : List Skill
  pub by_name : Dict Skill
  pub failed : Bool

unfoldable pub new_skill_service : SkillConfig → SkillService
new_skill_service cfg = record {
  cfg = record cfg {
    max_injected = pos (positive_or cfg.max_injected 1);
    max_body_chars = pos (positive_or cfg.max_body_chars 4000);
  };
  loaded = [];
  by_name = [];
  failed = false;
}

-- An entry of the directory, with the content of SKILL.md in it; none is a failed read.
pub record DirEntry : Type 0 where
  pub name : Text
  pub is_dir : Bool
  pub content : Option Text

pub data Listing : Type 0 where
  missing : Listing
  unreadable : Listing
  listed : List DirEntry → Listing

unfoldable pub skill_key : Text → Text
skill_key name = to_lower (trim_space name)

abbrev entry_disabled : Option EntryConfig → Bool
entry_disabled none = false
entry_disabled (some e) = elim e.enabled [ none ↦ false | some b ↦ not b ]

-- The first entry whose key differs in case only; the list stands for the map in the order of the iteration.
unfoldable pub find_fold : Dict EntryConfig → Text → Option EntryConfig
find_fold [] name = none
find_fold ((k, e) ∷ entries) name =
    let rest = find_fold entries name in if equal_fold k name then some e else rest

abbrev or_find : Option EntryConfig → Option EntryConfig → Option EntryConfig
or_find none fold = fold
or_find (some e) fold = some e

unfoldable pub has_entry_disabled : Dict EntryConfig → Text → Bool
has_entry_disabled entries skill_name_lower =
    entry_disabled
      (or_find (Dict.get entries skill_name_lower) (find_fold entries skill_name_lower))

abbrev truncated : ℤ → Text → Text
truncated (pos zero) body = body
truncated (negsuc n) body = body
truncated (pos (suc n)) body =
    if ltb (suc n) (length body) then take (suc n) body ++ codes "\n\n...[truncated]" else body

abbrev pub no_skill : Skill
no_skill = record {
  name = [];
  description = [];
  path = [];
  body = [];
  enabled = false;
  reason = [];
}

abbrev loaded_one : ℤ → Option (SkillMeta × Text) → Option Skill
loaded_one max none = none
loaded_one max (some (meta, body)) = some (record no_skill {
  name = trim_space meta.name;
  description = trim_space meta.description;
  body = trim_space (truncated max body);
})

-- loadOne on what the read of the file gives
unfoldable pub load_one : SkillConfig → Option Text → Option Skill
load_one cfg none = none
load_one cfg (some b) = loaded_one cfg.max_body_chars (parse_skill_markdown b)

unfoldable pub allow_set : List Text → List Text
allow_set [] = []
allow_set (name ∷ names) = add (allow_set names) (skill_key name)

-- The reason that the switch finds against a skill; the empty one is none.
unfoldable pub blocked : SkillConfig → Bool → Text → Text
blocked cfg parse_failed key =
    if not cfg.enabled
    then codes "global_disabled"
    else if parse_failed
    then codes "parse_error"
    else if is_nil key
    then codes "parse_error"
    else if has_entry_disabled cfg.entries key
    then codes "entry_disabled"
    else if is_nil (allow_set cfg.allowlist)
    then []
    else if member (allow_set cfg.allowlist) key
    then []
    else codes "not_allowlisted"

abbrev named : Text → Skill → Skill
named dir_name s = if is_nil s.name then record s { name = dir_name } else s

abbrev or_no_skill : Option Skill → Skill
or_no_skill none = no_skill
or_no_skill (some s) = s

abbrev pub is_failed : Option Skill → Bool
is_failed none = true
is_failed (some s) = false

-- The skill of a directory before it is classified.
unfoldable pub skill_of : SkillConfig → Text → DirEntry → Skill
skill_of cfg root d = record (named d.name (or_no_skill (load_one cfg d.content))) {
  path = root ++ codes "/" ++ d.name ++ codes "/SKILL.md";
}

abbrev pub classify : List Text → Skill → Text → Skill × List Text
classify seen s reason =
    if is_nil reason
    then if member seen (skill_key s.name)
      then (record s { enabled = false; reason = codes "duplicate_name" }, seen)
      else (record s { enabled = true; reason = [] }, add seen (skill_key s.name))
    else (record s { enabled = false; reason = reason }, seen)

-- The loop over the directories; `seen` holds the keys of the enabled skills before.
unfoldable pub load_dirs : SkillConfig → Text → List Text → List DirEntry → List Skill
load_dirs cfg root seen [] = []
load_dirs cfg root seen (d ∷ dirs) =
    let s = skill_of cfg root d in
    let (skill, seen') =
      classify seen s (blocked cfg (is_failed (load_one cfg d.content)) (skill_key s.name)) in
    skill ∷ load_dirs cfg root seen' dirs

unfoldable pub insert_dir : DirEntry → List DirEntry → List DirEntry
insert_dir d [] = d ∷ []
insert_dir d (e ∷ es) =
    let rest = insert_dir d es in if less_text e.name d.name then e ∷ rest else d ∷ e ∷ es

-- slices.Sort; the paths differ in the names alone.
unfoldable pub sort_dirs : List DirEntry → List DirEntry
sort_dirs [] = []
sort_dirs (d ∷ ds) = insert_dir d (sort_dirs ds)

-- The map of setLoaded: the first skill of a name stays.
unfoldable pub index_names : Dict Skill → List Skill → Dict Skill
index_names index [] = index
index_names index (s ∷ skills) =
    if is_nil (skill_key s.name)
    then index_names index skills
    else elim (Dict.get index (skill_key s.name)) [
      | none ↦ index_names (Dict.put index (skill_key s.name) s) skills
      | some t ↦ index_names index skills
    ]

unfoldable pub set_loaded : SkillService → List Skill → Bool → SkillService
set_loaded s skills load_failed = record s {
  loaded = skills;
  failed = load_failed;
  by_name = index_names [] skills;
}

-- LoadAll; `root` is the path of the directory, and no skills are an error.
unfoldable pub load_all : SkillService → Text → Listing → SkillService × Option (List Skill)
load_all s root missing = (set_loaded s [] false, some [])
load_all s root unreadable = (set_loaded s [] true, none)
load_all s root (listed es) =
    let loaded = load_dirs s.cfg root [] (sort_dirs (select (λ (d : DirEntry). d.is_dir) es)) in
    (set_loaded s loaded false, some loaded)

unfoldable pub select_for_message : SkillService → Text → List Text → List Skill
select_for_message s message explicit =
    let enabled = select (λ (k : Skill). k.enabled) s.loaded in
    let called = select_explicit_skills explicit enabled s.cfg.max_injected in
    if not (is_nil called)
    then called
    else if not (is_nil explicit)
    then []
    else if not s.cfg.auto_match
    then []
    else select_auto_matched_skills message enabled s.cfg.max_injected

unfoldable pub loaded_skills : SkillService → List Skill
loaded_skills s = s.loaded

unfoldable pub find_by_name : SkillService → Text → Option Skill
find_by_name s name = Dict.get s.by_name (skill_key name)
