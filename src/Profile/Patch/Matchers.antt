-- ===== src/Profile/Patch/Matchers.antt =====
-- The regular expressions of a patch match a line to its end.
use mathlib.Core.List.{append_assoc}
use nisix.Common.{
  ℕ, zero, suc, ◌+◌, ◌-◌, ◌<◌, ◌≡◌, ◌≢◌, refl, sym, ap, ◌∙◌, inl, inr, Bool, false, Option, none,
  some, [], ◌∷◌, ◌++◌, ◌==◌, arith, drop, length, length-append, Bool-cases, Option-cases,
  some_injective,
}
use nisix.Common.Text.{Text, codes, has_prefix, to_lower, lower_byte}
use nisix.Common.Cutsets.{trim_left_of}
use nisix.Profile.Patch.{
  behind_line, behind_literal, behind_colon, behind_key, behind_label, length_to, is_blank,
  not_newline, identity_line, user_line,
}
use nisix.Profile.Patch.Lines.{AtLineEnd, IsLineMatcher}

-- What is left of a text at its end.
record IsSuffix (t s : Text) : Type 0 where
  front : Text
  whole : s ≡ front ++ t

IsSuffix-refl : (s : Text) → IsSuffix s s
IsSuffix-refl s = record { front = []; whole = refl }

IsSuffix-cons : (c : ℕ) {t s : Text} → IsSuffix t s → IsSuffix t (c ∷ s)
IsSuffix-cons c h = record { front = c ∷ h.front; whole = ap (λ r. c ∷ r) h.whole }

trim_left_of-IsSuffix : (cut : ℕ → Bool) (s : Text) → IsSuffix (trim_left_of cut s) s
unfolding trim_left_of
trim_left_of-IsSuffix cut [] = IsSuffix-refl []
trim_left_of-IsSuffix cut (c ∷ s) = elim (Bool-cases (cut c)) [
  | inl e ↦ rw e (IsSuffix-cons c (trim_left_of-IsSuffix cut s))
  | inr e ↦ rw e (IsSuffix-refl (c ∷ s))
]

drop-IsSuffix : (k : ℕ) (s : Text) → IsSuffix (drop k s) s
drop-IsSuffix zero s = IsSuffix-refl s
drop-IsSuffix (suc k) [] = IsSuffix-refl []
drop-IsSuffix (suc k) (c ∷ s) = IsSuffix-cons c (drop-IsSuffix k s)

-- A strictly shorter suffix that stands at the end of a line.
record Ends (t s : Text) : Type 0 where
  suffix : IsSuffix t s
  at_end : AtLineEnd t
  shorter : length t < length s

append_assoc' : (a b c : Text) → a ++ (b ++ c) ≡ (a ++ b) ++ c
append_assoc' a b c = sym (append_assoc a b c)

behind_line-AtLineEnd : (s : Text) → AtLineEnd (behind_line s)
unfolding trim_left_of
behind_line-AtLineEnd [] = tt
behind_line-AtLineEnd (c ∷ s) = elim (Bool-cases (c == 10)) [
  | inl e ↦ rw e (ground arith)
  | inr e ↦ rw e (behind_line-AtLineEnd s)
]

IsSuffix-trans : {t u s : Text} → IsSuffix t u → IsSuffix u s → IsSuffix t s
IsSuffix-trans {t} h k = record {
  front = k.front ++ h.front;
  whole = k.whole ∙ ap (λ r. k.front ++ r) h.whole ∙ append_assoc' k.front h.front t;
}

length-IsSuffix : {t s : Text} → IsSuffix t s → length s ≡ length t + (length s - length t)
length-IsSuffix {t} {s} h = (let e = ap length h.whole in omega (arith, length-append h.front t, e))

drop-length : (a b : Text) → drop (length a) (a ++ b) ≡ b
drop-length [] b = refl
drop-length (c ∷ a) b = drop-length a b

-- The length of a match leads to what stands behind it.
drop-IsSuffix-length : (t s : Text) → IsSuffix t s → drop (length s - length t) s ≡ t
drop-IsSuffix-length t s h = rw (h.whole) (
    let e : length (h.front ++ t) - length t ≡ length h.front =
      omega (arith, length-append h.front t) in
    rw e (drop-length h.front t))

-- A matcher that is the length to such a suffix is a line matcher.
length_to-IsLineMatcher :
    (rest : Text → Option Text)
    → ((s t : Text) → rest s ≡ some t → Ends t s)
    → ((s : Text) → rest (10 ∷ s) ≡ none)
    → IsLineMatcher (λ s. length_to s (rest s))
length_to-IsLineMatcher rest ends visible = record {
  filled = λ s n e. elim (Option-cases (rest s)) [
    | inl miss ↦ absurd (let g = rw miss at e in cc)
    | inr (t, hit) ↦
        (let f = rw hit at e in
          let g = some_injective f in let h = (ends s t hit).shorter in omega (arith, g, h))
  ];
  ends = λ s n e. elim (Option-cases (rest s)) [
    | inl miss ↦ absurd (let g = rw miss at e in cc)
    | inr (t, hit) ↦
        (let f = rw hit at e in
          let g = some_injective f in
          let h = ends s t hit in rw (← g, drop-IsSuffix-length t s h.suffix) (h.at_end))
  ];
  visible = λ s. rw (visible s) refl;
  nowhere = elim (Option-cases (rest [])) [
    | inl miss ↦ rw miss refl
    | inr (t, hit) ↦ absurd (let h = (ends [] t hit).shorter in omega (arith, h))
  ];
}

Ends-IsSuffix : {t u s : Text} → Ends t u → IsSuffix u s → Ends t s
Ends-IsSuffix h k = record {
  suffix = IsSuffix-trans h.suffix k;
  at_end = h.at_end;
  shorter = (let a = length-IsSuffix k in let b = h.shorter in omega (arith, a, b));
}

behind_colon-Ends : (s t : Text) → behind_colon s ≡ some t → Ends t s
behind_colon-Ends [] t e = absurd cc
behind_colon-Ends (c ∷ s) t e = elim (Bool-cases (c == 58)) [
  | inr miss ↦ absurd (let g = rw miss at e in cc)
  | inl hit ↦
      (let f = rw hit at e in
        let same = some_injective f in
        let inner =
          IsSuffix-trans (trim_left_of-IsSuffix not_newline (trim_left_of is_blank s))
            (trim_left_of-IsSuffix is_blank s) in
        rw (← same) (record {
          suffix = IsSuffix-cons c inner;
          at_end = behind_line-AtLineEnd (trim_left_of is_blank s);
          shorter = (let a = length-IsSuffix inner in omega (arith, a));
        }))
]

-- A literal that starts with a visible byte does not match at a newline.
literal_visible :
    (k : ℕ) (ks s : Text) → k ≢ 10 → has_prefix (to_lower (10 ∷ s)) (to_lower (k ∷ ks)) ≡ false
unfolding has_prefix to_lower lower_byte
literal_visible k ks s ne = ground arith

behind_literal-IsSuffix : (l s t : Text) → behind_literal l s ≡ some t → IsSuffix t s
behind_literal-IsSuffix l s t e = elim (Bool-cases (has_prefix (to_lower s) (to_lower l))) [
  | inr miss ↦ absurd (let g = rw miss at e in cc)
  | inl hit ↦
      (let f = rw hit at e in
        let same = some_injective f in rw (← same) (drop-IsSuffix (length l) s))
]

-- The literal of a label takes at least a byte.
behind_literal-shorter :
    (k : ℕ) (ks s t : Text) → behind_literal (k ∷ ks) s ≡ some t → length t < length s
unfolding has_prefix to_lower
behind_literal-shorter k ks [] t e = absurd cc
behind_literal-shorter k ks (c ∷ s) t e =
    elim (Bool-cases (has_prefix (to_lower (c ∷ s)) (to_lower (k ∷ ks)))) [
      | inr miss ↦ absurd (let g = rw miss at e in cc)
      | inl hit ↦
          (let f = rw hit at e in
            let same = ap length (some_injective f) in
            let a = length-IsSuffix (drop-IsSuffix (length ks) s) in omega (arith, same, a))
    ]

pub identity_line-IsLineMatcher :
    (k : ℕ) (ks : Text) → k ≢ 10 → IsLineMatcher (identity_line (k ∷ ks))
unfolding identity_line
identity_line-IsLineMatcher k ks ne =
    length_to-IsLineMatcher (λ s. behind_key (behind_literal (k ∷ ks) s))
      (λ s t e. elim (Option-cases (behind_literal (k ∷ ks) s)) [
        | inl miss ↦ absurd (let g = rw miss at e in cc)
        | inr (u, hit) ↦
            (let f = rw hit at e in
              Ends-IsSuffix (behind_colon-Ends (trim_left_of is_blank u) t f) (
                IsSuffix-trans (trim_left_of-IsSuffix is_blank u)
                  (behind_literal-IsSuffix (k ∷ ks) s u hit)))
      ])
      (λ s. rw (literal_visible k ks s ne) refl)

user_visible :
    (key s : Text)
    → behind_label (behind_literal (codes "- **" ++ key ++ codes ":**") (10 ∷ s)) ≡ none
unfolding has_prefix to_lower lower_byte
user_visible key s = refl

pub user_line-IsLineMatcher : (key : Text) → IsLineMatcher (user_line key)
unfolding user_line
user_line-IsLineMatcher key =
    length_to-IsLineMatcher
      (λ s. behind_label (behind_literal (codes "- **" ++ key ++ codes ":**") s))
      (λ s t e. elim (Option-cases (behind_literal (codes "- **" ++ key ++ codes ":**") s)) [
        | inl miss ↦ absurd (let g = rw miss at e in cc)
        | inr (u, hit) ↦
            (let f = rw hit at e in
              let same = some_injective f in
              let inner = trim_left_of-IsSuffix not_newline u in
              rw (← same) (record {
                suffix =
                    IsSuffix-trans inner
                      (behind_literal-IsSuffix (codes "- **" ++ key ++ codes ":**") s u hit);
                at_end = behind_line-AtLineEnd u;
                shorter =
                    (let a = length-IsSuffix inner in
                      let b =
                        behind_literal-shorter 45 (codes " **" ++ key ++ codes ":**") s u hit in
                      omega (arith, a, b));
              }))
      ])
      (user_visible key)
