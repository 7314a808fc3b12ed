-- ===== src/Workspace/Kept.antt =====
-- What EnsureLayout leaves of the files of a workspace.
use nisix.Common.{◌≡◌, some, [], ◌∷◌, ◌++◌}
use nisix.Common.Text.{Text}
use nisix.Common.Dict
use nisix.Workspace.{OnboardingState, Codec, Root, Io, read_state}

-- Each file of the one directory, but that of the state, is in the other, with its contents.
pub IsKept : Root → Root → Type 0
IsKept before after =
    (k s : Text) → Dict.get before.files k ≡ some s → Dict.get after.files k ≡ some s

-- A state that has a time of seeding is not written, and one that has none gets it and nothing else.
pub data StateKept (c : Codec) (io : Io) (before after : Root) : Type 0 where
  same : after.state_file ≡ before.state_file → StateKept c io before after
  seeded :
      (st : OnboardingState)
      → read_state c io before ≡ some st
      → st.seeded_at ≡ []
      → after.state_file
        ≡ some (c.marshal (record st { seeded_at = io.now; version = 1 }) ++ 10 ∷ [])
      → StateKept c io before after
