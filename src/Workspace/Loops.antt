-- ===== src/Workspace/Loops.antt =====
-- The loop of EnsureLayout, and its calls of ensureFile.
use nisix.Common.{◌≡◌, inl, inr, Bool, false, ◌||◌, Option, none, some, List, [], ◌∷◌, Bool-cases}
use nisix.Common.Text.{Text}
use nisix.Workspace.{
  OnboardingState, Root, Io, exists, content_of, write_file, make_dir, ensure_file, skipped,
  next_file, ensure_files,
}

-- What holds between a directory and itself, of what ensureFile leaves where it writes nothing, and of what it
-- leaves where the file is new, holds of what ensureFile leaves.
pub ensure_file_by :
    (R : Root → Root → Type 0) (io : Io) (use_template : Bool) (rel : Text) (r : Root)
    → R r r
    → R r (make_dir r rel)
    → ((s : Option Text) → exists r rel ≡ false → R r (write_file (make_dir r rel) rel s))
    → R r (ensure_file io use_template rel r).0
unfolding ensure_file
ensure_file_by R io use_template rel r same made written = elim (Bool-cases (io.can_make rel)) [
  | inl on ↦ elim (Bool-cases (exists r rel)) [
    | inl there ↦ simp (on, there) made
    | inr new ↦ elim (Bool-cases (io.can_write rel)) [
      | inl ok ↦ simp (on, new, ok) (written (some (content_of io use_template rel)) new)
      | inr fails ↦ simp (on, new, fails) (written (io.torn rel) new)
    ]
  ]
  | inr off ↦ simp off same
]

module _ (R : Root → Root → Type 0) (same : (r : Root) → R r r)
    (chain : (r s t : Root) → R r s → R s t → R r t) (io : Io) (use_template : Bool)
    (st : OnboardingState) (new : Bool)
    (step : (rel : Text) (r : Root)
      → skipped st new rel ≡ false
      → R r (ensure_file io use_template rel r).0) where
  next_file_by :
      (go : Bool → Root → Root × Option Bool) (seeded : Bool) (before : Root)
      (answer : Root × Option Bool)
      → ((b : Bool) (r : Root) → R r (go b r).0)
      → R before answer.0
      → R before (next_file go seeded answer).0
  next_file_by go seeded before (r, none) f h = h
  next_file_by go seeded before (r, some wrote) f h =
      chain before r (go (seeded || wrote) r).0 h (f (seeded || wrote) r)

  -- What holds of every file that is not skipped holds of the loop.
  pub ensure_files_by :
      (rels : List Text) (seeded : Bool) (r : Root)
      → R r (ensure_files io use_template st new rels seeded r).0
  unfolding ensure_files
  ensure_files_by [] seeded r = same r
  ensure_files_by (rel ∷ rels) seeded r = elim (Bool-cases (skipped st new rel)) [
    | inl skip ↦ rw skip (ensure_files_by rels seeded r)
    | inr file ↦ rw file (
        next_file_by (ensure_files io use_template st new rels) seeded r
          (ensure_file io use_template rel r) (ensure_files_by rels) (step rel r file))
  ]
