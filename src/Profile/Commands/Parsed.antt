-- ===== src/Profile/Commands/Parsed.antt =====
-- The command that a message parses to.
use nisix.Common.{true, false, ℕ, ◌≡◌, ◌≢◌, ◌⊎◌, Option, none, some, List, [], ◌∷◌, All, drop}
use nisix.Common.Text.{Text, has_prefix, codes, trim_space, to_lower, fields}
use nisix.Profile.{
  Command, CommandKind, profile_list, profile_show, profile_diff, profile_set, profile_append,
  profile_apply, onboard_status, onboard_done,
}
use nisix.Profile.Validator.{normalize_file}
use nisix.Profile.Commands.{parse_command_body}

abbrev NoSlash : Text → Type 0
NoSlash s = All (λ (c : ℕ). c ≢ 47) s

-- The last element of a path has no slash, but for the path of slashes alone.
abbrev pub IsBase : Text → Type 0
IsBase s = NoSlash s ⊎ (s ≡ codes "/")

-- The actions on a file: their kind, and their content with the body of the text.
pub data IsAction (body : Text) : Text → CommandKind → Text → Type 0 where
  show : IsAction body (codes "show") profile_show []
  diff : IsAction body (codes "diff") profile_diff body
  set : IsAction body (codes "set") profile_set body
  append : IsAction body (codes "append") profile_append body

pub record NoAction (word : Text) : Type 0 where
  pub not_show : word ≢ codes "show"
  pub not_diff : word ≢ codes "diff"
  pub not_set : word ≢ codes "set"
  pub not_append : word ≢ codes "append"

-- The command that a trimmed text stands for. The words of the fixed commands and the actions are read in any
-- case; a command on a file names the last element of a path.
pub data IsRead (t : Text) : Command → Type 0 where
  status :
      to_lower t ≡ codes "/onboard status"
      → IsRead t (record { kind = onboard_status; file = []; content = []; id = [] })
  done :
      to_lower t ≡ codes "/onboard done"
      → IsRead t (record { kind = onboard_done; file = []; content = []; id = [] })
  list :
      to_lower t ≡ codes "/profile list"
      → IsRead t (record { kind = profile_list; file = []; content = []; id = [] })
  apply :
      (c : ℕ) (id : Text)
      → has_prefix (to_lower t) (codes "/profile apply ") ≡ true
      → trim_space (drop 15 t) ≡ c ∷ id
      → IsRead t (record { kind = profile_apply; file = []; content = []; id = c ∷ id })
  on_file :
      (action p word path : Text) (more : List Text) (kind : CommandKind) (content : Text)
      → fields t ≡ p ∷ word ∷ path ∷ more
      → to_lower p ≡ codes "/profile"
      → to_lower word ≡ action
      → IsAction (parse_command_body t more) action kind content
      → IsBase (normalize_file path)
      → IsRead t (record { kind = kind; file = normalize_file path; content = content; id = [] })

-- A text that stands for no command.
pub record IsOther (t : Text) : Type 0 where
  pub not_status : to_lower t ≢ codes "/onboard status"
  pub not_done : to_lower t ≢ codes "/onboard done"
  pub not_list : to_lower t ≢ codes "/profile list"
  pub no_id : has_prefix (to_lower t) (codes "/profile apply ") ≡ true → trim_space (drop 15 t) ≡ []
  pub no_action :
      (p word path : Text) (more : List Text)
      → has_prefix (to_lower t) (codes "/profile apply ") ≡ false
      → fields t ≡ p ∷ word ∷ path ∷ more
      → to_lower p ≡ codes "/profile"
      → NoAction (to_lower word)

-- A command that the text stands for, or none where it stands for none.
abbrev pub IsParsed : Text → Option Command → Type 0
IsParsed t none = IsOther t
IsParsed t (some c) = IsRead t c

-- The fixed commands that a text is not.
record Fixed (t : Text) : Type 0 where
  not_status : to_lower t ≢ codes "/onboard status"
  not_done : to_lower t ≢ codes "/onboard done"
  not_list : to_lower t ≢ codes "/profile list"
  not_apply : has_prefix (to_lower t) (codes "/profile apply ") ≡ false
