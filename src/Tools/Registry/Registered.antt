-- ===== src/Tools/Registry/Registered.antt =====
-- What a registry lists and finds after any registrations.
use nisix.Common.{
  ◌≡◌, refl, ap, ◌∙◌, inl, inr, Bool, true, false, ◌||◌, Option, none, some, List, [], ◌∷◌, arith,
  Bool-cases, if◌then◌else◌,
}
use nisix.Common.Text.{Text, codes, eq_text, eq_text_iff, eq_text_refl}
use nisix.Common.Dict
use nisix.Common.Dict.{Dict, get-put, get-remove}
use nisix.Common.Sets.{member, AllDistinct}
use nisix.Common.Sorting.{
  IsSorted, sort_strings, insert_text, less_text, sort_strings-IsSorted, member-sort_strings,
}
use nisix.Tools.Registry.{
  Tool, tool_error, Registry, new_registry, register, get, execute, names_of, list,
}

-- The registrations, the latest first.
unfoldable pub run : List Tool → Registry
run [] = new_registry
run (t ∷ tools) = register (run tools) t

-- The latest tool of a name.
pub latest : Text → List Tool → Option Tool
latest name [] = none
latest name (t ∷ tools) =
    let earlier = latest name tools in if eq_text t.name name then some t else earlier

abbrev pub is_some : Option Tool → Bool
is_some none = false
is_some (some t) = true

pub member-names_of :
    (tools : Dict Tool) (name : Text) → member (names_of tools) name ≡ is_some (Dict.get tools name)
unfolding names_of member Dict.get
member-names_of [] name = refl
member-names_of ((k, t) ∷ tools) name = ground (arith, member-names_of tools name)

get-run : (tools : List Tool) (name : Text) → get (run tools) name ≡ latest name tools
unfolding run latest get register new_registry Dict.get
get-run [] name = refl
get-run (t ∷ tools) name =
    get-put (run tools).tools t.name name t
    ∙ ap (λ o. if eq_text t.name name then some t else o) (get-run tools name)

AllDistinct-remove :
    (tools : Dict Tool) (name : Text)
    → AllDistinct (names_of tools)
    → AllDistinct (names_of (Dict.remove tools name))
unfolding names_of Dict.remove
AllDistinct-remove [] name h = tt
AllDistinct-remove ((k, t) ∷ tools) name (new, h) = elim (Bool-cases (eq_text k name)) [
  | inl e ↦ rw e (AllDistinct-remove tools name h)
  | inr e ↦ rw e (
      (
        member-names_of (Dict.remove tools name) k ∙ ap is_some (get-remove tools name k) ∙ keeps,
        AllDistinct-remove tools name h,
      ))
]
  where
    keeps : is_some (if eq_text name k then none else Dict.get tools k) ≡ false
    keeps = ground (arith, member-names_of tools k, new)

AllDistinct-run : (tools : List Tool) → AllDistinct (names_of (run tools).tools)
unfolding run register new_registry names_of Dict.put
AllDistinct-run [] = tt
AllDistinct-run (t ∷ tools) = (
  member-names_of (Dict.remove (run tools).tools t.name) t.name
      ∙ ap is_some (get-remove (run tools).tools t.name t.name)
      ∙ simp (eq_text_refl t.name),
  AllDistinct-remove (run tools).tools t.name (AllDistinct-run tools),
)

member-insert :
    (x : Text) (ys : List Text) (a : Text)
    → member (insert_text x ys) a ≡ (eq_text x a || member ys a)
unfolding insert_text member
member-insert x [] a = refl
member-insert x (y ∷ ys) a = ground (arith, member-insert x ys a)

AllDistinct-insert :
    (x : Text) (ys : List Text)
    → member ys x ≡ false
    → AllDistinct ys
    → AllDistinct (insert_text x ys)
unfolding insert_text member
AllDistinct-insert x [] new h = (refl, tt)
AllDistinct-insert x (y ∷ ys) new (p, h) = elim (Bool-cases (less_text y x)) [
  | inr e ↦ rw e ((new, (p, h)))
  | inl e ↦ rw e (
      (
        ground (arith, member-insert x ys y, eq_text_iff x y, eq_text_iff y x),
        AllDistinct-insert x ys (ground arith) h,
      ))
]

AllDistinct-sort_strings : (xs : List Text) → AllDistinct xs → AllDistinct (sort_strings xs)
unfolding sort_strings
AllDistinct-sort_strings [] h = tt
AllDistinct-sort_strings (x ∷ xs) (new, h) =
    AllDistinct-insert x (sort_strings xs) (member-sort_strings xs x ∙ new)
      (AllDistinct-sort_strings xs h)

-- What a registry promises after registrations.
pub record IsRegistry (r : Registry) (tools : List Tool) : Type 0 where
  pub found : (name : Text) → get r name ≡ latest name tools
  pub sorted : IsSorted (list r)
  pub distinct : AllDistinct (list r)
  pub listed : (name : Text) → member (list r) name ≡ is_some (latest name tools)
  pub unknown :
      (name input : Text)
      → latest name tools ≡ none
      → execute r name input ≡ tool_error (codes "tools: tool not found")

-- After any registrations Get finds the latest tool of a name, List gives the names of the registered tools, sorted and
-- without repetition, and Execute refuses every other name.
pub run-IsRegistry : (tools : List Tool) → IsRegistry (run tools) tools
unfolding list execute
run-IsRegistry tools = record {
  found = get-run tools;
  sorted = sort_strings-IsSorted (names_of (run tools).tools);
  distinct = AllDistinct-sort_strings _ (AllDistinct-run tools);
  listed = λ name.
      member-sort_strings (names_of (run tools).tools) name
      ∙ member-names_of (run tools).tools name
      ∙ ap is_some (get_is name);
  unknown = λ name input e. rw (get-run tools name, e) refl;
}
  where
    get_is : (name : Text) → Dict.get (run tools).tools name ≡ latest name tools
    get_is name = unfold get in get-run tools name
