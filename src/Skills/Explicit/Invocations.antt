-- ===== src/Skills/Explicit/Invocations.antt =====
-- The names that a message calls for, and the skills found for them.
use nisix.Common.{
  ◌≤◌, ◌≡◌, refl, sym, ap, ◌∙◌, ◌⊎◌, inl, inr, false, ◌||◌, some, List, [], ◌∷◌, ◌++◌, is_nil,
  length, length-take, All, All-append, All-take, arith, Bool-cases, Option-cases, some_injective,
}
use nisix.Common.Text.{Text, eq_text, eq_text_iff, trim_space, to_lower, split_byte, fields}
use nisix.Common.TextLaws.{normal_idem}
use nisix.Common.Int.{ℤ, positive_or}
use nisix.Common.Sets.{member, AllDistinct}
use nisix.Common.Dict
use nisix.Common.Dict.{Dict, get-put}
use nisix.Skills.{Skill, first_of}
use nisix.Skills.Explicit.{
  invocation, push_name, extract_from, extract_explicit_invocations, index_from, look_up,
  select_explicit_skills,
}

abbrev pub IsNormal : Text → Type 0
IsNormal name = (is_nil name ≡ false) × (to_lower (trim_space name) ≡ name)

member-append :
    (xs : List Text) (a b : Text) → member (xs ++ a ∷ []) b ≡ (member xs b || eq_text a b)
unfolding member
member-append [] a b = ground arith
member-append (x ∷ xs) a b = ground (arith, member-append xs a b)

AllDistinct-append :
    (xs : List Text) (a : Text) → AllDistinct xs → member xs a ≡ false → AllDistinct (xs ++ a ∷ [])
unfolding member
AllDistinct-append [] a d h = (refl, tt)
AllDistinct-append (x ∷ xs) a d h = (
  ground (arith, member-append xs a x, eq_text_iff a x, eq_text_iff x a),
  AllDistinct-append xs a d.1 (ground arith),
)

invocation-IsNormal : (fs : List Text) (name : Text) → invocation fs ≡ some name → IsNormal name
invocation-IsNormal [] name e = absurd (cc)
invocation-IsNormal (f ∷ []) name e = absurd (cc)
invocation-IsNormal (f ∷ g ∷ fs) name e = ground (arith, normal_idem g)

push_name-IsNormal :
    (out fs : List Text)
    → All IsNormal out × AllDistinct out
    → All IsNormal (push_name out (invocation fs)) × AllDistinct (push_name out (invocation fs))
push_name-IsNormal out fs h = elim (Option-cases (invocation fs)) [
  | inl missing ↦ rw missing h
  | inr (name, found) ↦ elim (Bool-cases (member out name)) [
    | inl seen ↦ rw (found, seen) h
    | inr new ↦
        rw (found, new)
          (
            All-append IsNormal out (name ∷ []) h.0 (invocation-IsNormal fs name found, tt),
            AllDistinct-append out name h.1 new,
          )
  ]
]

extract_from-IsNormal :
    (out ls : List Text)
    → All IsNormal out × AllDistinct out
    → All IsNormal (extract_from out ls) × AllDistinct (extract_from out ls)
unfolding extract_from
extract_from-IsNormal out [] h = h
extract_from-IsNormal out (line ∷ rest) h =
    extract_from-IsNormal (push_name out (invocation (fields (trim_space line)))) rest
      (push_name-IsNormal out (fields (trim_space line)) h)

-- The names that a message calls for are not empty, are lower case without space around, and differ.
pub extract_explicit_invocations-IsNormal :
    (message : Text)
    → All IsNormal (extract_explicit_invocations message)
      × AllDistinct (extract_explicit_invocations message)
unfolding extract_explicit_invocations
extract_explicit_invocations-IsNormal message =
    extract_from-IsNormal [] (split_byte 10 message) (tt, tt)

abbrev pub IsAmong : {A : Type 0} → A → List A → Type 0
IsAmong a [] = ⊥
IsAmong a (x ∷ xs) = (x ≡ a) ⊎ IsAmong a xs

-- A skill that is enabled and that one of the names calls for.
pub record IsCalled (explicit : List Text) (enabled : List Skill) (s : Skill) : Type 0 where
  pub name : Text
  pub listed : IsAmong name explicit
  pub named : to_lower s.name ≡ to_lower (trim_space name)
  pub among : IsAmong s enabled

index_from-get :
    (index : Dict Skill) (enabled : List Skill) (k : Text) (s : Skill)
    → Dict.get (index_from index enabled) k ≡ some s
    → (Dict.get index k ≡ some s) ⊎ (IsAmong s enabled × (to_lower s.name ≡ k))
unfolding index_from
index_from-get index [] k s e = inl e
index_from-get index (x ∷ enabled) k s e =
    elim (index_from-get (Dict.put index (to_lower x.name) x) enabled k s e) [
      | inr (among, named) ↦ inr (inr among, named)
      | inl at_put ↦ elim (Bool-cases (eq_text (to_lower x.name) k)) [
        | inl same ↦
            let x_s : x ≡ s = some_injective (rw (get-put, same) at at_put) in
            inr (
              inl x_s,
              ap (λ (y : Skill). to_lower y.name) (sym x_s)
                  ∙ (eq_text_iff (to_lower x.name) k).0 same,
            )
        | inr other ↦ inl (rw (get-put, other) at at_put)
      ]
    ]

look_up-IsCalled :
    (enabled : List Skill) (names explicit : List Text)
    → ((n : Text) → IsAmong n names → IsAmong n explicit)
    → All (IsCalled explicit enabled) (look_up (index_from [] enabled) names)
unfolding look_up Dict.get
look_up-IsCalled enabled [] explicit within = tt
look_up-IsCalled enabled (n ∷ names) explicit within =
    let rest = look_up-IsCalled enabled names explicit (λ m h. within m (inr h)) in
    elim (Option-cases (Dict.get (index_from [] enabled) (to_lower (trim_space n)))) [
      | inl missing ↦ rw missing rest
      | inr (s, found) ↦ elim (index_from-get [] enabled (to_lower (trim_space n)) s found) [
        | inl none_there ↦ absurd (cc)
        | inr (among, named) ↦
            rw found (
              record { name = n; listed = within n (inl refl); named = named; among = among },
              rest,
            )
      ]
    ]

-- Only enabled skills that one of the names calls for are selected, at most as many as allowed, or one
-- where the limit is not positive.
pub select_explicit_skills-IsCalled :
    (explicit : List Text) (enabled : List Skill) (max_injected : ℤ)
    → All (IsCalled explicit enabled) (select_explicit_skills explicit enabled max_injected)
      × (length (select_explicit_skills explicit enabled max_injected) ≤ positive_or max_injected 1)
unfolding select_explicit_skills first_of
select_explicit_skills-IsCalled explicit enabled max_injected =
    let found = look_up (index_from [] enabled) explicit in
    let n = length-take (positive_or max_injected 1) found in
    (
      All-take (IsCalled explicit enabled) (positive_or max_injected 1) found
          (look_up-IsCalled enabled explicit explicit (λ m h. h)),
      omega arith,
    )
