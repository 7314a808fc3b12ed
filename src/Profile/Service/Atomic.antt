-- ===== src/Profile/Service/Atomic.antt =====
-- An update of a file of the profile is done as a whole or not at all, and touches no other file.
use nisix.Common.{
  ◌≡◌, ◌≢◌, refl, sym, ap, ◌∙◌, ◌⊎◌, inl, inr, true, false, Option, none, some, [], ◌∷◌, length,
  arith, Bool-cases, Option-cases, length-append,
}
use nisix.Common.Text.{Text, codes, eq_text, eq_text_iff, eq_text_refl, to_upper}
use nisix.Common.Dict
use nisix.Common.Dict.{get-put, get-remove}
use nisix.Common.Sets.{In, member_iff}
use nisix.Profile.{UpdateRequest, UpdateResult, Answer, done, failed, internal}
use nisix.Profile.Validator.{has_byte, normalize_file, validate_file, validate_size}
use nisix.Profile.Files.{
  StoredFile, Files, FileIo, preview_update, write_next, leave_torn, apply_update, tmp_of,
}
use nisix.Profile.Service.{Service, checked, update_checked, update, preview}

-- The name of a file of the allowed ones.
pub record IsAllowed (s : Service) (name : Text) : Type 0 where
  pub filled : name ≢ []
  pub no_slash : has_byte 47 name ≡ false
  pub no_backslash : has_byte 92 name ≡ false
  pub listed : In (to_upper name) s.allowed_files

validate_file-IsAllowed :
    (s : Service) (name : Text) → validate_file name s.allowed_files ≡ none → IsAllowed s name
unfolding validate_file
validate_file-IsAllowed s [] h = absurd cc
validate_file-IsAllowed s (c ∷ name) h =
    ground (arith, member_iff s.allowed_files (to_upper (c ∷ name)))

-- The file at a path holds what Preview shows.
record Stored (io : FileIo) (files after : Files) (path : Text) (req : UpdateRequest) : Type 0 where
  next : Text
  previewed : preview_update io files path req ≡ done next
  stored : Dict.get after path ≡ some (record { content = next; modified = io.now })

-- What an update that is accepted leaves, by the answers of the file system.
record Replaced (io : FileIo) (files : Files) (path : Text) (req : UpdateRequest)
    (r : Files × Answer UpdateResult) : Type 0 where
  others :
      (k : Text)
      → eq_text path k ≡ false
      → eq_text (tmp_of path) k ≡ false
      → Dict.get r.0 k ≡ Dict.get files k
  whole : (Dict.get r.0 path ≡ Dict.get files path) ⊎ Stored io files r.0 path req
  answered :
      (u : UpdateResult)
      → r.1 ≡ done u
      → (h : Stored io files r.0 path req) × (u.bytes ≡ length h.next)

tmp_of-ne : (path : Text) → eq_text (tmp_of path) path ≡ false
tmp_of-ne path = elim (Bool-cases (eq_text (tmp_of path) path)) [
  | inl e ↦ absurd (
      let same = ap length ((eq_text_iff (tmp_of path) path).0 e) in
      omega (arith, length-append path (codes ".tmp")))
  | inr e ↦ e
]

-- An entry is put, and maybe another is removed before.
get-put_other :
    (files : Files) (path k : Text) (f : StoredFile)
    → eq_text path k ≡ false
    → Dict.get (Dict.put files path f) k ≡ Dict.get files k
get-put_other files path k f h = get-put files path k f ∙ simp h

write_next-Replaced :
    (io : FileIo) (files : Files) (path : Text) (req : UpdateRequest) (a : Answer Text)
    → preview_update io files path req ≡ a
    → Replaced io files path req (write_next io files path a)
write_next-Replaced io files path req (failed e) p = record {
  others = λ k h j. refl;
  whole = inl refl;
  answered = λ u h. absurd cc;
}
write_next-Replaced io files path req (done next) p = elim (Bool-cases io.can_write) [
  | inl w ↦ elim (Bool-cases io.can_rename) [
    | inl r ↦
        simp (w, r)
          (record {
            others = λ k h j.
                get-put_other (Dict.remove files (tmp_of path)) path k _ h
                ∙ get-remove files (tmp_of path) k
                ∙ simp j;
            whole = inr there;
            answered = λ u h. (there, ground arith);
          })
    | inr r ↦
        simp (w, r)
          (record {
            others = λ k h j. get-put_other files (tmp_of path) k _ j;
            whole = inl (get-put_other files (tmp_of path) path _ (tmp_of-ne path));
            answered = λ u h. absurd cc;
          })
  ]
  | inr w ↦ simp w (torn io.torn)
]
  where
    there :
        Stored io files
          (Dict.put
            (Dict.remove files (tmp_of path))
            path
            (record { content = next; modified = io.now }))
          path
          req
    there = record {
      next = next;
      previewed = p;
      stored = get-put (Dict.remove files (tmp_of path)) path path _ ∙ simp (eq_text_refl path);
    }

    torn :
        (t : Option Text)
        → Replaced io files path req (leave_torn io files (tmp_of path) t, failed internal)
    torn none = record { others = λ k h j. refl; whole = inl refl; answered = λ u h. absurd cc }
    torn (some b) = record {
      others = λ k h j. get-put_other files (tmp_of path) k _ j;
      whole = inl (get-put_other files (tmp_of path) path _ (tmp_of-ne path));
      answered = λ u h. absurd cc;
    }

apply_update-Replaced :
    (io : FileIo) (files : Files) (path : Text) (req : UpdateRequest)
    → Replaced io files path req (apply_update io files path req)
unfolding apply_update
apply_update-Replaced io files path req =
    write_next-Replaced io files path req (preview_update io files path req) refl

-- The new content of a file: it is the one that Preview shows, and it is stored under an allowed name.
pub record Writes (io : FileIo) (s : Service) (files after : Files) (req : UpdateRequest)
    : Type 0 where
  pub next : Text
  pub previewed : preview io s files req ≡ done next
  pub allowed : IsAllowed s (normalize_file req.file)
  pub small : validate_size req.content s.max_file_bytes ≡ none
  pub stored :
      Dict.get after (normalize_file req.file) ≡ some (record { content = next; modified = io.now })

-- An update touches the named file and its temporary file only. The named file keeps its content or
-- is written, and it is written where the update succeeds.
pub record IsAtomic (io : FileIo) (s : Service) (files : Files) (req : UpdateRequest)
    (r : Files × Answer UpdateResult) : Type 0 where
  pub others :
      (k : Text)
      → eq_text (normalize_file req.file) k ≡ false
      → eq_text (tmp_of (normalize_file req.file)) k ≡ false
      → Dict.get r.0 k ≡ Dict.get files k
  pub whole :
      (Dict.get r.0 (normalize_file req.file) ≡ Dict.get files (normalize_file req.file))
      ⊎ Writes io s files r.0 req
  pub answered :
      (u : UpdateResult)
      → r.1 ≡ done u
      → (h : Writes io s files r.0 req) × (u.bytes ≡ length h.next)

unchanged :
    (io : FileIo) (s : Service) (files : Files) (req : UpdateRequest) (r : Answer UpdateResult)
    → ((u : UpdateResult) → r ≢ done u)
    → IsAtomic io s files req (files, r)
unchanged io s files req r h = record {
  others = λ k i j. refl;
  whole = inl refl;
  answered = λ u e. absurd (h u e);
}

record IsChecked (s : Service) (req q : UpdateRequest) : Type 0 where
  same : q.file ≡ normalize_file req.file
  allowed : IsAllowed s (normalize_file req.file)
  small : validate_size req.content s.max_file_bytes ≡ none

checked-IsChecked :
    (s : Service) (req q : UpdateRequest) → checked s req ≡ done q → IsChecked s req q
unfolding checked
checked-IsChecked s req q h =
    elim (Option-cases (validate_file (normalize_file req.file) s.allowed_files)) [
      | inr (e, v) ↦ absurd (let g = rw v at h in cc)
      | inl v ↦ elim (Option-cases (validate_size req.content s.max_file_bytes)) [
        | inr (e, z) ↦ absurd (let g = rw (v, z) at h in cc)
        | inl z ↦ record {
          same = (let g = rw (v, z) at h in ground arith);
          allowed = validate_file-IsAllowed s _ v;
          small = z;
        }
      ]
    ]

preview_of_checked :
    (io : FileIo) (s : Service) (files : Files) (req q : UpdateRequest)
    → checked s req ≡ done q
    → io.can_make ≡ true
    → preview io s files req ≡ preview_update io files q.file q
unfolding preview
preview_of_checked io s files req q h m = rw (h, m) refl

stored-Writes :
    (io : FileIo) (s : Service) (files after : Files) (req q : UpdateRequest)
    → checked s req ≡ done q
    → io.can_make ≡ true
    → (st : Stored io files after q.file q) → (w : Writes io s files after req) × (w.next ≡ st.next)
stored-Writes io s files after req q h m st =
    (let c = checked-IsChecked s req q h in
      (
        record {
          next = st.next;
          previewed = preview_of_checked io s files req q h m ∙ st.previewed;
          allowed = c.allowed;
          small = c.small;
          stored = ap (Dict.get after) (sym c.same) ∙ st.stored;
        },
        refl,
      ))

update_checked-IsAtomic :
    (io : FileIo) (s : Service) (files : Files) (req : UpdateRequest) (a : Answer UpdateRequest)
    → checked s req ≡ a
    → IsAtomic io s files req (update_checked io files a)
update_checked-IsAtomic io s files req (failed e) h = unchanged io s files req _ (λ u g. cc)
update_checked-IsAtomic io s files req (done q) h = elim (Bool-cases io.can_make) [
  | inr m ↦ simp m (unchanged io s files req _ (λ u g. cc))
  | inl m ↦ simp m (
      let r = apply_update-Replaced io files q.file q in
      let same = (checked-IsChecked s req q h).same in
      let lift = stored-Writes io s files (apply_update io files q.file q).0 req q h m in
      record {
        others = λ k i j.
            r.others k (cc (ap (λ n. eq_text n k) same)) (cc (ap (λ n. eq_text (tmp_of n) k) same));
        whole = elim r.whole [
          | inl kept ↦ inl (
              ap (Dict.get (apply_update io files q.file q).0) (sym same)
              ∙ kept
              ∙ ap (Dict.get files) same)
          | inr st ↦ inr (lift st).0
        ];
        answered = λ u g.
            (let (st, bytes) = r.answered u g in
              let (w, same_next) = lift st in (w, bytes ∙ sym (ap length same_next)));
      })
]

-- Update is atomic: on every answer of the file system it changes only the named file and its
-- temporary file. The named file keeps its content, or it holds what Preview shows and its name is one of the allowed
-- ones, without a slash, and the content of the request is within the limit. An update that succeeds has
-- written the file, and reports its length.
pub update-IsAtomic :
    (io : FileIo) (s : Service) (files : Files) (req : UpdateRequest)
    → IsAtomic io s files req (update io s files req)
unfolding update
update-IsAtomic io s files req = update_checked-IsAtomic io s files req (checked s req) refl
