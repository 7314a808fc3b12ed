-- ===== src/Profile/Patch/Patched.antt =====
-- A patch of one line puts the line that it asks for into the file.
use nisix.Common.{
  ℕ, ◌≡◌, ◌≢◌, refl, ap, ◌∙◌, inl, inr, true, false, some, [], ◌∷◌, ◌++◌, ◌==◌, arith, is_nil, All,
  All-append, Bool-cases, Option-cases, some_injective,
}
use nisix.Common.Text.{Text, codes, trim_space, to_lower, lower_byte, contains, cut, split_byte}
use nisix.Common.TextLaws.{
  All-trim_space, is_nil-to_lower, trim_space_idem, split_byte-append, split_byte_single,
}
use nisix.Common.Cutsets.{trim_newlines}
use nisix.Common.Sets.{In}
use nisix.Profile.Patch.{
  fresh_identity, fresh_user, identity_line, user_line, set_identity, set_user, set_identity_lower,
  entry_of, patch_lines, ensure_trailing_newline, ends_with_newline, patch_identity, patch_user,
}
use nisix.Profile.Patch.Replace.{match_string}
use nisix.Profile.Patch.Lines.{
  IsPlain, In-append_left, In-append_right, first_line, replace_all_string-HasLine,
}
use nisix.Profile.Patch.Matchers.{identity_line-IsLineMatcher, user_line-IsLineMatcher}

-- A line at the end of a text, behind a newline, is one of its lines.
last_line :
    (front label : Text)
    → All IsPlain label
    → In label (split_byte 10 (front ++ (10 ∷ (label ++ (10 ∷ [])))))
last_line front label h =
    rw (split_byte-append 10 front (label ++ 10 ∷ []))
      (In-append_right label (split_byte 10 front) _ (first_line label (10 ∷ []) h refl))

fresh_identity-line :
    (out label : Text) → All IsPlain label → In label (split_byte 10 (fresh_identity out label))
fresh_identity-line out label h = elim (Bool-cases (is_nil (trim_space out))) [
  | inl e ↦ rw e (first_line label (10 ∷ []) h refl)
  | inr e ↦ rw e (last_line (trim_newlines out) label h)
]

set_identity-line :
    (out : Text) (k : ℕ) (ks val : Text)
    → k ≢ 10
    → All IsPlain (k ∷ ks ++ codes ": " ++ val)
    → In (k ∷ ks ++ codes ": " ++ val) (split_byte 10 (set_identity out (k ∷ ks) val))
unfolding set_identity
set_identity-line out k ks val ne h =
    elim (Bool-cases (match_string (identity_line (k ∷ ks)) true out)) [
      | inl e ↦ rw e (
          replace_all_string-HasLine _ (k ∷ ks ++ codes ": " ++ val) true out
            (identity_line-IsLineMatcher k ks ne) h e)
      | inr e ↦ rw e (fresh_identity-line out (k ∷ ks ++ codes ": " ++ val) h)
    ]

fresh_user-line :
    (out label : Text) → All IsPlain label → In label (split_byte 10 (fresh_user out label))
fresh_user-line out label h = elim (Bool-cases (is_nil (trim_space out))) [
  | inl e ↦ rw e (last_line (codes "# USER" ++ (10 ∷ 10 ∷ codes "## Profile")) label h)
  | inr e ↦ elim (Bool-cases (contains (to_lower out) (codes "## profile"))) [
    | inl f ↦ rw (e, f) (last_line (trim_newlines out) label h)
    | inr f ↦ rw (e, f) (last_line (trim_newlines out ++ (10 ∷ 10 ∷ codes "## Profile")) label h)
  ]
]

set_user-line :
    (out key val : Text)
    → All IsPlain (codes "- **" ++ key ++ codes ":** " ++ val)
    → In (codes "- **" ++ key ++ codes ":** " ++ val) (split_byte 10 (set_user out key val))
unfolding set_user
set_user-line out key val h = elim (Bool-cases (match_string (user_line key) true out)) [
  | inl e ↦ rw e (
      replace_all_string-HasLine _ (codes "- **" ++ key ++ codes ":** " ++ val) true out
        (user_line-IsLineMatcher key) h e)
  | inr e ↦ rw e (fresh_user-line out (codes "- **" ++ key ++ codes ":** " ++ val) h)
]

-- The newline at the end adds no line and takes none away.
ensure_trailing_newline-line :
    (label s : Text)
    → In label (split_byte 10 s)
    → In label (split_byte 10 (ensure_trailing_newline s))
unfolding ensure_trailing_newline
ensure_trailing_newline-line label s h = elim (Bool-cases (ends_with_newline s)) [
  | inl e ↦ rw e h
  | inr e ↦ rw (e, split_byte-append 10 s []) (In-append_left label (split_byte 10 s) _ h)
]

All-to_lower : (s : Text) → All IsPlain s → All IsPlain (to_lower s)
unfolding to_lower lower_byte
All-to_lower [] h = tt
All-to_lower (c ∷ s) (p, h) = (ground arith, All-to_lower s h)

All-cut :
    (P : ℕ → Type 0) (b : ℕ) (s k v : Text) → All P s → cut b s ≡ some (k, v) → All P k × All P v
unfolding cut
All-cut P b [] k v h e = absurd cc
All-cut P b (c ∷ s) k v (p, h) e = elim (Bool-cases (c == b)) [
  | inl here ↦ (let f = rw here at e in let g = some_injective f in go g)
  | inr later ↦ elim (Option-cases (cut b s)) [
    | inl miss ↦ absurd (let f = rw (later, miss) at e in cc)
    | inr ((k', v'), hit) ↦
        (let f = rw (later, hit) at e in
          let g = some_injective f in
          let (hk, hv) = All-cut P b s k' v' h hit in
          (rw (← ap (λ q. q.0) g) ((p, hk)), rw (← ap (λ q. q.1) g) hv))
  ]
]
  where
    go : ◌≡◌ {A = Text × Text} ([], s) (k, v) → All P k × All P v
    go g = (rw (← ap (λ q. q.0) g) tt, rw (← ap (λ q. q.1) g) h)

record IsEntry (key val : Text) : Type 0 where
  filled : is_nil key ≡ false
  plain_key : All IsPlain key
  plain_val : All IsPlain val

entry_of-IsEntry :
    (raw key val : Text) → All IsPlain raw → entry_of raw ≡ some (key, val) → IsEntry key val
unfolding entry_of
entry_of-IsEntry raw key val h e = elim (Option-cases (cut 58 (trim_space raw))) [
  | inl miss ↦ absurd (let f = rw miss at e in cc)
  | inr ((k, v), hit) ↦ elim (Bool-cases (is_nil (trim_space k))) [
    | inl empty ↦ absurd (let f = rw (hit, empty) at e in cc)
    | inr full ↦
        (let f = rw (hit, full) at e in
          let g = some_injective f in
          let (hk, hv) =
            All-cut IsPlain 58 (trim_space raw) k v (All-trim_space IsPlain raw h) hit in
          rw (← ap (λ q. q.0) g, ← ap (λ q. q.1) g)
            (record {
              filled = full;
              plain_key = All-trim_space IsPlain k hk;
              plain_val = All-trim_space IsPlain v hv;
            }))
  ]
]

no_newlines : (s : Text) → All IsPlain s → All (λ (c : ℕ). c ≢ 10) s
no_newlines [] h = tt
no_newlines (c ∷ s) ((ne, _), h) = (ne, no_newlines s h)

-- A patch of one line is the change of its entry.
one_line :
    (set : Text → Text → Text → Text) (current patch key val : Text)
    → All IsPlain patch
    → entry_of patch ≡ some (key, val)
    → patch_lines set current (split_byte 10 (trim_space patch)) ≡ set current key val
unfolding patch_lines entry_of
one_line set current patch key val h e =
    rw
      (
        split_byte_single 10 (trim_space patch) (no_newlines _ (All-trim_space IsPlain patch h)),
        trim_space_idem patch,
        e,
      )
      refl

identity_label :
    (current key val : Text)
    → is_nil key ≡ false
    → All IsPlain key
    → All IsPlain val
    → In (key ++ codes ": " ++ val) (split_byte 10 (set_identity current key val))
identity_label current [] val e hk hv = absurd cc
identity_label current (k ∷ ks) val e (p, hk) hv = set_identity-line current k ks val p.0 (
    All-append IsPlain (k ∷ ks ++ codes ": ") val
      (All-append IsPlain (k ∷ ks) (codes ": ") (p, hk) (ground arith)) hv)

user_label :
    (key val : Text) → IsEntry key val → All IsPlain (codes "- **" ++ key ++ codes ":** " ++ val)
user_label key val h =
    All-append IsPlain (codes "- **" ++ key ++ codes ":** ") val
      (All-append IsPlain (codes "- **" ++ key) (codes ":** ")
        (All-append IsPlain (codes "- **") key (ground arith) h.plain_key) (ground arith))
      h.plain_val

-- A patch of one line `key: value` without a dollar sign puts the line that it asks for into the file, whatever the file holds:
-- `key: value`, with the key in lower case, into IDENTITY.md, and `- **key:** value` into USER.md.
pub patched_line :
    (current patch key val : Text)
    → All IsPlain patch
    → entry_of patch ≡ some (key, val)
    → In (to_lower key ++ codes ": " ++ val) (split_byte 10 (patch_identity current patch))
      × In (codes "- **" ++ key ++ codes ":** " ++ val) (split_byte 10 (patch_user current patch))
unfolding patch_identity patch_user
patched_line current patch key val h e =
    (let entry = entry_of-IsEntry patch key val h e in
      (
        ensure_trailing_newline-line (to_lower key ++ codes ": " ++ val)
            (patch_lines set_identity_lower current (split_byte 10 (trim_space patch)))
            (rw (one_line set_identity_lower current patch key val h e) (
              identity_label current (to_lower key) val (is_nil-to_lower key ∙ entry.filled)
                (All-to_lower key entry.plain_key) entry.plain_val)),
        ensure_trailing_newline-line (codes "- **" ++ key ++ codes ":** " ++ val)
            (patch_lines set_user current (split_byte 10 (trim_space patch)))
            (rw (one_line set_user current patch key val h e)
              (set_user-line current key val (user_label key val entry))),
      ))
