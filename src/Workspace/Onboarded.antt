-- ===== src/Workspace/Onboarded.antt =====
-- What follows CompleteOnboarding.
use nisix.Common.{
  ◌≡◌, refl, ◌∙◌, inl, inr, Bool, true, false, Option, none, some, List, [], ◌∷◌, ◌++◌, Bool-cases,
  is_nil,
}
use nisix.Common.Text.{Text, eq_text, eq_text_refl}
use nisix.Common.Dict
use nisix.Common.Dict.{get-put, get-remove}
use nisix.Workspace.Loops.{ensure_file_by, ensure_files_by}
use nisix.Workspace.{
  bootstrap_md, bootstrap_files, OnboardingState, Codec, Root, Io, Status, read_state, write_state,
  exists, write_file, make_dir, skipped, ensure_files, mark_seeded, is_workspace_new, ensure_layout,
  get_status, or_now, completed, complete_onboarding,
}

-- The state that CompleteOnboarding writes.
abbrev pub written_state : Io → OnboardingState → OnboardingState
written_state io st = record (completed io st) { version = 1 }

-- encoding/json reads a state that it wrote, with the newline behind it.
unfoldable pub RoundTrips : Codec → OnboardingState → Type 0
RoundTrips c st = c.unmarshal (c.marshal st ++ 10 ∷ []) ≡ some st

-- A directory with a state that is completed, and without BOOTSTRAP.md.
record IsOver (c : Codec) (r : Root) : Type 0 where
  state : OnboardingState
  bytes : Text
  stored : r.state_file ≡ some bytes
  reads : c.unmarshal bytes ≡ some state
  version : state.version ≡ 1
  seeded : is_nil state.seeded_at ≡ false
  completed_at : is_nil state.onboarding_completed_at ≡ false
  gone : Dict.get r.files bootstrap_md ≡ none

-- The loop leaves the state as it is, and does not bring BOOTSTRAP.md back.
IsLater : Root → Root → Type 0
IsLater r s =
    (s.state_file ≡ r.state_file)
    × (Dict.get r.files bootstrap_md ≡ none → Dict.get s.files bootstrap_md ≡ none)

write_file-IsLater :
    (r : Root) (rel : Text) (s : Option Text)
    → eq_text rel bootstrap_md ≡ false
    → IsLater r (write_file (make_dir r rel) rel s)
unfolding IsLater
write_file-IsLater r rel none other = (refl, λ gone. gone)
write_file-IsLater r rel (some t) other =
    (refl, λ gone. get-put r.files rel bootstrap_md t ∙ simp other gone)

-- A completed state skips BOOTSTRAP.md.
not_skipped :
    (st : OnboardingState) (new : Bool) (rel : Text)
    → is_nil st.onboarding_completed_at ≡ false
    → skipped st new rel ≡ false
    → eq_text rel bootstrap_md ≡ false
unfolding skipped
not_skipped st new rel done file = elim (Bool-cases (eq_text rel bootstrap_md)) [
  | inr other ↦ other
  | inl same ↦ absurd (let g = simp (same, done) at file in cc)
]

ensure_files-IsLater :
    (io : Io) (use_template : Bool) (st : OnboardingState) (new : Bool) (rels : List Text)
    (seeded : Bool) (r : Root)
    → is_nil st.onboarding_completed_at ≡ false
    → IsLater r (ensure_files io use_template st new rels seeded r).0
unfolding IsLater
ensure_files-IsLater io use_template st new rels seeded r done =
    ensure_files_by IsLater (λ r. (refl, λ gone. gone))
      (λ r s t f g. (g.0 ∙ f.0, λ gone. g.1 (f.1 gone))) io use_template st new
      (λ rel r file.
        ensure_file_by IsLater io use_template rel r (refl, λ gone. gone) (refl, λ gone. gone)
          (λ s new_file. write_file-IsLater r rel s (not_skipped st new rel done file)))
      rels seeded r

-- A state with a time of seeding is not written again.
mark_seeded_same :
    (c : Codec) (io : Io) (st : OnboardingState) (answer : Root × Option Bool)
    → is_nil st.seeded_at ≡ false
    → (mark_seeded c io st answer).0 ≡ answer.0
mark_seeded_same c io st (r, none) h = refl
mark_seeded_same c io st (r, some true) h = rw h refl
mark_seeded_same c io st (r, some false) h = refl

read_state_over :
    (c : Codec) (io : Io) (r : Root) (o : IsOver c r)
    → io.can_read_state ≡ true
    → read_state c io r ≡ some o.state
unfolding read_state
read_state_over c io r o can = simp (o.stored, can, o.reads, o.version) refl

read_state_fails :
    (c : Codec) (io : Io) (r : Root)
    → IsOver c r
    → io.can_read_state ≡ false
    → read_state c io r ≡ none
unfolding read_state
read_state_fails c io r o off = simp (o.stored, off) refl

IsLater-IsOver : (c : Codec) (r s : Root) → IsOver c r → IsLater r s → IsOver c s
unfolding IsLater
IsLater-IsOver c r s o later = record {
  state = o.state;
  bytes = o.bytes;
  stored = later.0 ∙ o.stored;
  reads = o.reads;
  version = o.version;
  seeded = o.seeded;
  completed_at = o.completed_at;
  gone = later.1 o.gone;
}

ensure_layout-IsOver :
    (c : Codec) (io : Io) (use_template : Bool) (r : Root)
    → IsOver c r
    → IsOver c (ensure_layout c io use_template r).0
unfolding ensure_layout
ensure_layout-IsOver c io use_template r o = elim (Bool-cases io.can_read_state) [
  | inr off ↦ rw (read_state_fails c io r o off) o
  | inl can ↦ rw (read_state_over c io r o can) (
      let files =
        ensure_files io use_template o.state (is_workspace_new r) bootstrap_files false r in
      rw (mark_seeded_same c io o.state files o.seeded) (
        IsLater-IsOver c r files.0 o (
          ensure_files-IsLater io use_template o.state (is_workspace_new r) bootstrap_files false r
            o.completed_at)))
]

-- Any calls of EnsureLayout, one after the other.
abbrev pub layouts : Codec → List (Io × Bool) → Root → Root
layouts c [] r = r
layouts c ((io, use_template) ∷ calls) r = layouts c calls (ensure_layout c io use_template r).0

layouts-IsOver :
    (c : Codec) (calls : List (Io × Bool)) (r : Root) → IsOver c r → IsOver c (layouts c calls r)
layouts-IsOver c [] r o = o
layouts-IsOver c ((io, use_template) ∷ calls) r o =
    layouts-IsOver c calls (ensure_layout c io use_template r).0
      (ensure_layout-IsOver c io use_template r o)

or_now_set : (io : Io) (t : Text) → is_nil io.now ≡ false → is_nil (or_now io t) ≡ false
or_now_set io [] h = h
or_now_set io (c ∷ t) h = refl

complete_onboarding-IsOver :
    (c : Codec) (io : Io) (r : Root) (st : OnboardingState)
    → RoundTrips c (written_state io st)
    → is_nil io.now ≡ false
    → io.can_write_state ≡ true
    → io.can_remove ≡ true
    → read_state c io r ≡ some st
    → IsOver c (complete_onboarding c io true r).0
unfolding complete_onboarding write_state RoundTrips
complete_onboarding-IsOver c io r st trips set can_write can_remove found =
    simp (found, can_write, can_remove)
      (record {
        state = written_state io st;
        bytes = c.marshal (written_state io st) ++ 10 ∷ [];
        stored = refl;
        reads = trips;
        version = refl;
        seeded = or_now_set io st.seeded_at set;
        completed_at = or_now_set io st.onboarding_completed_at set;
        gone = get-remove r.files bootstrap_md bootstrap_md ∙ simp (eq_text_refl bootstrap_md) refl;
      })

-- The status of a workspace whose onboarding is over.
pub record IsCompleted (answer : Option Status) : Type 0 where
  pub status : Status
  pub given : answer ≡ some status
  pub seeded : status.seeded ≡ true
  pub completed_before : status.onboarding_completed ≡ true
  pub no_bootstrap : status.bootstrap_exists ≡ false

get_status-IsCompleted :
    (c : Codec) (io : Io) (r : Root)
    → IsOver c r
    → io.can_read_state ≡ true
    → IsCompleted (get_status c io r)
unfolding get_status exists
get_status-IsCompleted c io r o can = rw (read_state_over c io r o can) (record {
  status = _;
  given = refl;
  seeded = rw o.seeded refl;
  completed_before = rw o.completed_at refl;
  no_bootstrap = rw o.gone refl;
})

-- CompleteOnboarding with the removal of BOOTSTRAP.md ends the onboarding for good. Where the state was read,
-- the time is set, the state could be written and reads back, and BOOTSTRAP.md could be removed, no later
-- calls of EnsureLayout, whatever they are answered, bring BOOTSTRAP.md back: each later status that can read
-- the state says that the workspace is seeded and completed, and has no BOOTSTRAP.md.
pub complete_onboarding-stays :
    (c : Codec) (io : Io) (r : Root) (st : OnboardingState)
    → RoundTrips c (written_state io st)
    → is_nil io.now ≡ false
    → io.can_write_state ≡ true
    → io.can_remove ≡ true
    → read_state c io r ≡ some st
    → (calls : List (Io × Bool)) (later : Io) → later.can_read_state ≡ true
    → IsCompleted (get_status c later (layouts c calls (complete_onboarding c io true r).0))
complete_onboarding-stays c io r st trips set can_write can_remove found calls later can =
    get_status-IsCompleted c later _
      (layouts-IsOver c calls _
        (complete_onboarding-IsOver c io r st trips set can_write can_remove found))
      can
