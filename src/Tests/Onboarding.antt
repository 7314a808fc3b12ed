-- ===== src/Tests/Onboarding.antt =====
-- internal/workspace/files.go on a concrete workspace.
use nisix.Common.{refl, true, false, Option, none, some, [], ◌∷◌, ◌++◌, length, take, drop}
use nisix.Common.Text.{Text, codes}
use nisix.Workspace.{Codec, OnboardingState, Root, Io, read_state, complete_onboarding, get_status}
use nisix.Workspace.Onboarded.{RoundTrips, IsCompleted, layouts, complete_onboarding-stays}

-- The version and the two texts behind their lengths.
abbrev marshal : OnboardingState → Text
marshal st =
    st.version
    ∷ length st.seeded_at
    ∷ length st.onboarding_completed_at
    ∷ (st.seeded_at ++ st.onboarding_completed_at)

abbrev unmarshal : Text → Option OnboardingState
unmarshal [] = none
unmarshal (v ∷ []) = none
unmarshal (v ∷ n ∷ []) = none
unmarshal (v ∷ n ∷ m ∷ rest) = some (record {
  version = v;
  seeded_at = take n rest;
  onboarding_completed_at = take m (drop n rest);
})

abbrev codec : Codec
codec = record { marshal = marshal; unmarshal = unmarshal }

abbrev io : Io
io = record {
  can_read_state = true;
  can_write_state = true;
  can_make = λ rel. true;
  can_write = λ rel. true;
  torn = λ rel. none;
  can_remove = true;
  template = λ rel. some (codes "# template");
  now = codes "2026-02-01T10:00:00Z";
}

abbrev root : Root
root = record {
  files = (codes "USER.md", codes "- **Name:** Ada\n") ∷ (codes "BOOTSTRAP.md", codes "\n") ∷ [];
  memory_dir = false;
  state_file = none;
}

complete_onboarding-stays_example : IsCompleted (
    get_status codec io
      (layouts codec ((io, true) ∷ (io, false) ∷ []) (complete_onboarding codec io true root).0))
unfolding read_state RoundTrips
complete_onboarding-stays_example =
    complete_onboarding-stays codec io root
      (record { version = 1; seeded_at = []; onboarding_completed_at = [] }) refl refl refl refl
      refl ((io, true) ∷ (io, false) ∷ []) io refl
