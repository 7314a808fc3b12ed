-- ===== src/Tests/Loading.antt =====
-- internal/skills/loader.go and parser.go on a concrete directory.
use nisix.Common.Cutsets.{trim_of}
use nisix.Common.{◌≡◌, refl, true, false, none, some, [], ◌∷◌, ◌++◌}
use nisix.Common.Text.{
  Text, codes, trim_space, has_prefix, split_byte, eq_text, cut, to_lower, join,
}
use nisix.Common.Int.{pos}
use nisix.Skills.Parser.{parse_skill_markdown, split_fence, read_meta, read_line}
use nisix.Skills.Loading.{
  SkillConfig, SkillService, DirEntry, Listing, listed, new_skill_service, load_all,
  select_for_message,
}
use nisix.Skills.Loading.Classified.{AreClassified, load_all-AreClassified}
use nisix.Skills.Loading.Selected.{IsChoice, select_for_message-IsChoice}

abbrev markdown : Text → Text → Text
markdown name body = codes "---\nname: " ++ name ++ codes "\ndescription: \"ships\"\n---\n" ++ body

parse_test :
    parse_skill_markdown (markdown (codes "'Deploy'") (codes "Do it."))
    ≡ some (record { name = codes "Deploy"; description = codes "ships" }, codes "Do it.")
unfolding parse_skill_markdown trim_space has_prefix split_byte eq_text split_fence read_meta
    read_line cut to_lower trim_of join
parse_test = refl

parse_fails_test : parse_skill_markdown (codes "---\nname: x\n---") ≡ none
unfolding parse_skill_markdown trim_space has_prefix split_byte eq_text split_fence read_meta
    read_line cut to_lower trim_of
parse_fails_test = refl

abbrev config : SkillConfig
config = record {
  enabled = true;
  auto_match = true;
  max_injected = pos 0;
  allowlist = [];
  entries = (codes "OLD", record { enabled = some false }) ∷ [];
  max_body_chars = pos 3;
}

abbrev service : SkillService
service = new_skill_service config

abbrev entry : Text → Text → DirEntry
entry dir name = record {
  name = dir;
  is_dir = true;
  content = some (markdown name (codes "Do it."));
}

abbrev directory : Listing
directory = listed (
    entry (codes "c") (codes "Deploy")
    ∷ entry (codes "b") (codes "deploy")
    ∷ entry (codes "a") (codes "old")
    ∷ record { name = codes "README"; is_dir = false; content = none }
    ∷ record { name = codes "d"; is_dir = true; content = none }
    ∷ [])

abbrev root : Text
root = codes "w/skills"

load_all-AreClassified_example :
    AreClassified service.cfg (load_all service root directory).0.loaded
load_all-AreClassified_example = load_all-AreClassified service root directory

select_for_message-IsChoice_example :
    IsChoice service.cfg
      (load_all service root directory).0.loaded
      (select_for_message (load_all service root directory).0 (codes "deploy it") [])
select_for_message-IsChoice_example =
    select_for_message-IsChoice service root directory (codes "deploy it") []
