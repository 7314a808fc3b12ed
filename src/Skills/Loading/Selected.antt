-- ===== src/Skills/Loading/Selected.antt =====
-- Which skills a message gets from the service.
use mathlib.Core.Path.{subst}
use nisix.Common.{
  ◌≡◌, ◌≤◌, refl, inl, inr, true, List, [], ◌∷◌, arith, is_nil, All, All-take, length, length-take,
  map, Bool-cases, select, ltb,
}
use nisix.Common.Text.{Text}
use nisix.Common.Int.{ℤ, positive_or}
use nisix.Skills.{Skill, first_of}
use nisix.Skills.Explicit.{select_explicit_skills}
use nisix.Skills.Explicit.Invocations.{IsAmong, IsCalled, select_explicit_skills-IsCalled}
use nisix.Skills.Matching.{
  ScoredSkill, tokenize, score_in, haystack_of, score_all, sort_stable, select_auto_matched_skills,
}
use nisix.Skills.Matching.Ranking.{insert-All}
use nisix.Skills.Loading.{
  SkillConfig, SkillService, Listing, missing, unreadable, listed, skill_key, load_all, set_loaded,
  select_for_message,
}
use nisix.Skills.Loading.Classified.{IsClassified, IsPermitted, load_all-AreClassified}

-- An enabled skill of a list, that the configuration permits.
pub record IsUsable (cfg : SkillConfig) (skills : List Skill) (s : Skill) : Type 0 where
  pub among : IsAmong s skills
  pub enabled : s.enabled ≡ true
  pub permitted : IsPermitted cfg (skill_key s.name)

IsUsable-cons :
    (cfg : SkillConfig) (x : Skill) (skills : List Skill) (s : Skill)
    → IsUsable cfg skills s
    → IsUsable cfg (x ∷ skills) s
IsUsable-cons cfg x skills s h = record {
  among = inr h.among;
  enabled = h.enabled;
  permitted = h.permitted;
}

-- What is among the enabled ones is usable.
select-IsUsable :
    (cfg : SkillConfig) (skills : List Skill) (s : Skill)
    → All (IsClassified cfg) skills
    → IsAmong s (select (λ (k : Skill). k.enabled) skills)
    → IsUsable cfg skills s
unfolding select
select-IsUsable cfg [] s h a = absurd a
select-IsUsable cfg (x ∷ skills) s (c, h) a = elim (Bool-cases x.enabled) [
  | inr off ↦
      IsUsable-cons cfg x skills s (select-IsUsable cfg skills s h (let g = rw off at a in g))
  | inl on ↦ elim (let g = simp on at a in g) [
    | inl e ↦
        subst (IsUsable cfg (x ∷ skills)) e
          (record { among = inl refl; enabled = on; permitted = c.permitted on })
    | inr g ↦ IsUsable-cons cfg x skills s (select-IsUsable cfg skills s h g)
  ]
]

select-All-IsUsable :
    (cfg : SkillConfig) (loaded found : List Skill)
    → All (IsClassified cfg) loaded
    → All (λ s. IsAmong s (select (λ (k : Skill). k.enabled) loaded)) found
    → All (IsUsable cfg loaded) found
select-All-IsUsable cfg loaded [] h a = tt
select-All-IsUsable cfg loaded (s ∷ found) h (p, a) =
    (select-IsUsable cfg loaded s h p, select-All-IsUsable cfg loaded found h a)

IsCalled-IsAmong :
    (explicit : List Text) (enabled found : List Skill)
    → All (IsCalled explicit enabled) found
    → All (λ s. IsAmong s enabled) found
IsCalled-IsAmong explicit enabled [] h = tt
IsCalled-IsAmong explicit enabled (s ∷ found) (p, h) =
    (p.among, IsCalled-IsAmong explicit enabled found h)

-- Scored skills are skills of the list.
weaken :
    (x : Skill) (enabled : List Skill) (xs : List ScoredSkill)
    → All (λ (s : ScoredSkill). IsAmong s.skill enabled) xs
    → All (λ (s : ScoredSkill). IsAmong s.skill (x ∷ enabled)) xs
weaken x enabled [] h = tt
weaken x enabled (s ∷ xs) (p, h) = (inr p, weaken x enabled xs h)

score_all-IsAmong :
    (tokens : List Text) (enabled : List Skill)
    → All (λ (s : ScoredSkill). IsAmong s.skill enabled) (score_all tokens enabled)
unfolding score_all
score_all-IsAmong tokens [] = tt
score_all-IsAmong tokens (x ∷ enabled) =
    elim (Bool-cases (ltb 0 (score_in (haystack_of x) tokens))) [
      | inl hit ↦ rw hit ((inl refl, weaken x enabled _ (score_all-IsAmong tokens enabled)))
      | inr miss ↦ rw miss (weaken x enabled _ (score_all-IsAmong tokens enabled))
    ]

sort_stable-All :
    (P : ScoredSkill → Type 0) (xs : List ScoredSkill) → All P xs → All P (sort_stable xs)
unfolding sort_stable
sort_stable-All P [] h = tt
sort_stable-All P (x ∷ xs) (p, h) = insert-All P x (sort_stable xs) p (sort_stable-All P xs h)

map-IsAmong :
    (enabled : List Skill) (xs : List ScoredSkill)
    → All (λ (s : ScoredSkill). IsAmong s.skill enabled) xs
    → All (λ s. IsAmong s enabled) (map (λ (s : ScoredSkill). s.skill) xs)
map-IsAmong enabled [] h = tt
map-IsAmong enabled (x ∷ xs) (p, h) = (p, map-IsAmong enabled xs h)

matched-IsAmong :
    (message : Text) (enabled : List Skill) (max_injected : ℤ)
    → All (λ s. IsAmong s enabled) (select_auto_matched_skills message enabled max_injected)
      × (length (select_auto_matched_skills message enabled max_injected)
          ≤ positive_or max_injected 1)
unfolding select_auto_matched_skills first_of
matched-IsAmong message enabled max_injected =
    (let ranking = sort_stable (score_all (tokenize message) enabled) in
      let n =
        length-take (positive_or max_injected 1) (map (λ (s : ScoredSkill). s.skill) ranking) in
      (
        All-take (λ s. IsAmong s enabled) (positive_or max_injected 1) _
            (map-IsAmong enabled ranking (
              sort_stable-All (λ (s : ScoredSkill). IsAmong s.skill enabled) _
                (score_all-IsAmong (tokenize message) enabled))),
        omega (arith, n),
      ))

-- A choice of usable skills within the limit.
pub record IsChoice (cfg : SkillConfig) (loaded chosen : List Skill) : Type 0 where
  pub usable : All (IsUsable cfg loaded) chosen
  pub bounded : length chosen ≤ positive_or cfg.max_injected 1

IsChoice-empty : (cfg : SkillConfig) (loaded : List Skill) → IsChoice cfg loaded []
IsChoice-empty cfg loaded = record { usable = tt; bounded = omega arith }

chosen :
    (s : SkillService) (message : Text) (explicit : List Text)
    → All (IsClassified s.cfg) s.loaded
    → IsChoice s.cfg s.loaded (select_for_message s message explicit)
unfolding select_for_message
chosen s message explicit h =
    (let enabled = select (λ (k : Skill). k.enabled) s.loaded in
      let called = select_explicit_skills explicit enabled s.cfg.max_injected in
      let (c, n) = select_explicit_skills-IsCalled explicit enabled s.cfg.max_injected in
      let (m, k) = matched-IsAmong message enabled s.cfg.max_injected in
      elim (Bool-cases (is_nil called)) [
        | inr some_called ↦ simp some_called (record {
          usable =
              select-All-IsUsable s.cfg s.loaded called h
                (IsCalled-IsAmong explicit enabled called c);
          bounded = n;
        })
        | inl none_called ↦ elim (Bool-cases (is_nil explicit)) [
          | inr asked ↦ simp (none_called, asked) (IsChoice-empty s.cfg s.loaded)
          | inl free ↦ elim (Bool-cases s.cfg.auto_match) [
            | inr off ↦ simp (none_called, free, off) (IsChoice-empty s.cfg s.loaded)
            | inl on ↦
                simp (none_called, free, on)
                  (record { usable = select-All-IsUsable s.cfg s.loaded _ h m; bounded = k })
          ]
        ]
      ])

-- After LoadAll on any directory, SelectForMessage gives only skills that were loaded, are enabled and that the configuration permits, at
-- most as many as the limit, or one where it is not positive.
pub select_for_message-IsChoice :
    (s : SkillService) (root : Text) (l : Listing) (message : Text) (explicit : List Text)
    → IsChoice s.cfg
        (load_all s root l).0.loaded
        (select_for_message (load_all s root l).0 message explicit)
unfolding load_all set_loaded
select_for_message-IsChoice s root missing message explicit =
    chosen (load_all s root missing).0 message explicit
      (load_all-AreClassified s root missing).classified
select_for_message-IsChoice s root unreadable message explicit =
    chosen (load_all s root unreadable).0 message explicit
      (load_all-AreClassified s root unreadable).classified
select_for_message-IsChoice s root (listed es) message explicit =
    chosen (load_all s root (listed es)).0 message explicit
      (load_all-AreClassified s root (listed es)).classified
