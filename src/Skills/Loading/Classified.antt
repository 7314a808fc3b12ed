-- ===== src/Skills/Loading/Classified.antt =====
-- Which of the skills that LoadAll finds are enabled.
use nisix.Common.{
  ◌≡◌, refl, ◌∙◌, inl, inr, Bool, true, false, ◌||◌, List, [], ◌∷◌, arith, is_nil, All, Bool-cases,
  if◌then◌else◌, select,
}
use nisix.Common.Text.{Text, eq_text, eq_text_iff, eq_text_refl}
use nisix.Common.Sets.{member, member-add, AllDistinct}
use nisix.Skills.{Skill}
use nisix.Skills.Loading.{
  SkillConfig, SkillService, DirEntry, Listing, missing, unreadable, listed, skill_key, allow_set,
  has_entry_disabled, blocked, classify, is_failed, load_one, load_dirs, skill_of, sort_dirs,
  set_loaded, load_all,
}

-- Nothing is held against a skill of that key.
pub record IsPermitted (cfg : SkillConfig) (key : Text) : Type 0 where
  pub loading : cfg.enabled ≡ true
  pub named : is_nil key ≡ false
  pub not_disabled : has_entry_disabled cfg.entries key ≡ false
  pub allowed : (is_nil (allow_set cfg.allowlist) || member (allow_set cfg.allowlist) key) ≡ true

-- A skill is enabled exactly if no reason is given, and an enabled one is permitted.
pub record IsClassified (cfg : SkillConfig) (s : Skill) : Type 0 where
  pub reasoned : s.enabled ≡ is_nil s.reason
  pub permitted : s.enabled ≡ true → IsPermitted cfg (skill_key s.name)

pub enabled_keys : List Skill → List Text
enabled_keys [] = []
enabled_keys (s ∷ skills) =
    let rest = enabled_keys skills in if s.enabled then skill_key s.name ∷ rest else rest

blocked-IsPermitted :
    (cfg : SkillConfig) (parse_failed : Bool) (key : Text)
    → is_nil (blocked cfg parse_failed key) ≡ true
    → IsPermitted cfg key
unfolding blocked
blocked-IsPermitted cfg parse_failed key h = record {
  loading = ground arith;
  named = ground arith;
  not_disabled = ground arith;
  allowed = ground arith;
}

-- The keys of the enabled skills are new and distinct.
record Extends (seen : List Text) (cfg : SkillConfig) (skills : List Skill) : Type 0 where
  classified : All (IsClassified cfg) skills
  distinct : AllDistinct (enabled_keys skills)
  new : (k : Text) → member seen k ≡ true → member (enabled_keys skills) k ≡ false

or-true : (a : Bool) → (a || true) ≡ true
or-true true = refl
or-true false = refl

-- What is seen differs from a new key.
fresh :
    (keys seen : List Text) (key k : Text)
    → member seen key ≡ false
    → member seen k ≡ true
    → member keys k ≡ false
    → member (key ∷ keys) k ≡ false
unfolding member
fresh keys seen key k once m h = ground (arith, eq_text_iff key k)

Extends-classify :
    (cfg : SkillConfig) (seen : List Text) (s : Skill) (reason : Text) (rest : List Skill)
    → (is_nil reason ≡ true → IsPermitted cfg (skill_key s.name))
    → Extends (classify seen s reason).1 cfg rest
    → Extends seen cfg ((classify seen s reason).0 ∷ rest)
unfolding enabled_keys
Extends-classify cfg seen s [] rest permit h = elim (Bool-cases (member seen (skill_key s.name))) [
  | inl twice ↦ rw twice (
      let g = rw twice at h in
      record {
        classified = (record { reasoned = refl; permitted = λ e. cc }, g.classified);
        distinct = g.distinct;
        new = g.new;
      })
  | inr once ↦ rw once (
      let g = rw once at h in
      record {
        classified = (record { reasoned = refl; permitted = λ e. permit refl }, g.classified);
        distinct = (
          g.new (skill_key s.name) (
              member-add seen (skill_key s.name) (skill_key s.name)
              ∙ simp (eq_text_refl (skill_key s.name))),
          g.distinct,
        );
        new = λ k m. fresh (enabled_keys rest) seen (skill_key s.name) k once m (
            g.new k (
              member-add seen (skill_key s.name) k
              ∙ simp (m, or-true (eq_text (skill_key s.name) k))));
      })
]
Extends-classify cfg seen s (c ∷ reason) rest permit h = record {
  classified = (record { reasoned = refl; permitted = λ e. cc }, h.classified);
  distinct = h.distinct;
  new = h.new;
}

load_dirs-Extends :
    (cfg : SkillConfig) (root : Text) (seen : List Text) (dirs : List DirEntry)
    → Extends seen cfg (load_dirs cfg root seen dirs)
unfolding load_dirs enabled_keys member
load_dirs-Extends cfg root seen [] = record { classified = tt; distinct = tt; new = λ k m. refl }
load_dirs-Extends cfg root seen (d ∷ dirs) =
    Extends-classify cfg seen (skill_of cfg root d)
      (blocked cfg (is_failed (load_one cfg d.content)) (skill_key (skill_of cfg root d).name)) _
      (blocked-IsPermitted cfg (is_failed (load_one cfg d.content)) _)
      (load_dirs-Extends cfg root
        (classify seen (skill_of cfg root d) (
          blocked cfg (is_failed (load_one cfg d.content))
            (skill_key (skill_of cfg root d).name))).1
        dirs)

-- The skills of a state: the enabled ones are those without a reason against them, they are permitted by the
-- configuration, and no two of them have the same key.
pub record AreClassified (cfg : SkillConfig) (skills : List Skill) : Type 0 where
  pub classified : All (IsClassified cfg) skills
  pub distinct : AllDistinct (enabled_keys skills)

-- LoadAll, on every directory: a skill is enabled exactly if it carries no reason; an enabled skill has a name and is
-- neither disabled nor missing from an allow list, and loading is on; and the keys of the enabled skills are distinct.
pub load_all-AreClassified :
    (s : SkillService) (root : Text) (l : Listing)
    → AreClassified s.cfg (load_all s root l).0.loaded
unfolding load_all set_loaded enabled_keys
load_all-AreClassified s root missing = record { classified = tt; distinct = tt }
load_all-AreClassified s root unreadable = record { classified = tt; distinct = tt }
load_all-AreClassified s root (listed es) =
    (let h = load_dirs-Extends s.cfg root [] (sort_dirs (select (λ (d : DirEntry). d.is_dir) es)) in
      record { classified = h.classified; distinct = h.distinct })
