-- ===== src/Profile/Patch/Lines.antt =====
-- The lines that a patch leaves.
use mathlib.Core.List.{append-nil}
use nisix.Common.{
  ℕ, zero, suc, ◌-◌, ◌<◌, ◌≡◌, ◌≢◌, refl, inl, inr, Bool, true, false, none, some, List, [], ◌∷◌,
  ◌++◌, ◌==◌, arith, All, drop, take, Bool-cases, Option-cases,
}
use nisix.Common.Text.{Text, split_byte, cons_head}
use nisix.Common.TextLaws.{split_byte-append, split_byte_single}
use nisix.Common.Sets.{In}
use nisix.Profile.Patch.Expand.{expand, plain}
use nisix.Profile.Patch.Replace.{Matcher, match_at, match_string, replace_all_string}

-- The end of a line: nothing follows, or a newline.
abbrev pub AtLineEnd : Text → Type 0
AtLineEnd [] = Unit
AtLineEnd (c ∷ s) = c ≡ 10

-- A match is not empty, ends at the end of a line, and never starts at a newline.
pub record IsLineMatcher (m : Matcher) : Type 0 where
  pub filled : (s : Text) (n : ℕ) → m s ≡ some n → 0 < n
  pub ends : (s : Text) (n : ℕ) → m s ≡ some n → AtLineEnd (drop n s)
  pub visible : (s : Text) → m (10 ∷ s) ≡ none
  pub nowhere : m [] ≡ none

-- A byte of a line that the expansion of a replacement keeps.
abbrev pub IsPlain : ℕ → Type 0
IsPlain c = (c ≢ 10) × (c ≢ 36)

expand_plain : (matched label : Text) → All IsPlain label → expand matched plain label ≡ label
unfolding expand
expand_plain matched [] h = refl
expand_plain matched (c ∷ label) ((_, ne), h) = ground (arith, expand_plain matched label h)

no_newline : (s : Text) → All IsPlain s → All (λ (c : ℕ). c ≢ 10) s
no_newline [] h = tt
no_newline (c ∷ s) ((ne, _), h) = (ne, no_newline s h)

pub In-append_right : (x : Text) (as' bs : List Text) → In x bs → In x (as' ++ bs)
In-append_right x [] bs h = h
In-append_right x (a ∷ as') bs h = inr (In-append_right x as' bs h)

pub In-append_left : (x : Text) (as' bs : List Text) → In x as' → In x (as' ++ bs)
In-append_left x [] bs h = absurd h
In-append_left x (a ∷ as') bs (inl e) = inl e
In-append_left x (a ∷ as') bs (inr h) = inr (In-append_left x as' bs h)

-- A line that starts a text and ends there is the first of its lines.
pub first_line :
    (label t : Text) → All IsPlain label → AtLineEnd t → In label (split_byte 10 (label ++ t))
first_line label [] h e =
    rw (append-nil label, split_byte_single 10 label (no_newline label h)) (inl refl)
first_line label (c ∷ t) h e =
    rw (e, split_byte-append 10 label t, split_byte_single 10 label (no_newline label h)) (inl refl)

abbrev rest_of : List Text → List Text
rest_of [] = []
rest_of (l ∷ ls) = ls

-- A line of a text, whose first piece counts only where the text starts a line.
abbrev HasLine : Text → Bool → Text → Type 0
HasLine label true s = In label (split_byte 10 s)
HasLine label false s = In label (rest_of (split_byte 10 s))

HasLine-weak : (label : Text) (b : Bool) (s : Text) → HasLine label false s → HasLine label b s
HasLine-weak label false s h = h
HasLine-weak label true s h = weak (split_byte 10 s) h
  where
    weak : (ls : List Text) → In label (rest_of ls) → In label ls
    weak [] h = absurd h
    weak (l ∷ ls) h = inr h

rest_of-cons_head : (c : ℕ) (ls : List Text) → rest_of (cons_head c ls) ≡ rest_of ls
rest_of-cons_head c [] = refl
rest_of-cons_head c (l ∷ ls) = refl

-- A byte in front of a text keeps the lines behind it.
HasLine-cons :
    (label : Text) (b : Bool) (c : ℕ) (s : Text)
    → HasLine label (c == 10) s
    → HasLine label b (c ∷ s)
unfolding split_byte
HasLine-cons label b c s h = HasLine-weak label b (c ∷ s) (elim (Bool-cases (c == 10)) [
  | inl e ↦ rw e (let g = rw e at h in g)
  | inr e ↦ rw (e, rest_of-cons_head c (split_byte 10 s)) (let g = rw e at h in g)
])

-- What is left of a line's end after a replacement still ends the line.
replaced-AtLineEnd :
    (m : Matcher) (label : Text) (b : Bool) (k : ℕ) (s : Text)
    → IsLineMatcher m
    → AtLineEnd (drop k s)
    → AtLineEnd (replace_all_string m label b k s)
unfolding replace_all_string match_at
replaced-AtLineEnd m label b k [] h e = tt
replaced-AtLineEnd m label b (suc k) (c ∷ s) h e = replaced-AtLineEnd m label (c == 10) k s h e
replaced-AtLineEnd m label true zero (c ∷ s) h e = rw (e, h.visible s) refl
replaced-AtLineEnd m label false zero (c ∷ s) h e = e

-- If a line matches, then the replacement is a line of the result.
pub replace_all_string-HasLine :
    (m : Matcher) (label : Text) (b : Bool) (s : Text)
    → IsLineMatcher m
    → All IsPlain label
    → match_string m b s ≡ true
    → HasLine label b (replace_all_string m label b 0 s)
unfolding replace_all_string match_at match_string
replace_all_string-HasLine m label true [] h p e = absurd (let g = rw h.nowhere at e in cc)
replace_all_string-HasLine m label false [] h p e = absurd cc
replace_all_string-HasLine m label false (c ∷ s) h p e =
    HasLine-cons label false c _ (replace_all_string-HasLine m label (c == 10) s h p e)
replace_all_string-HasLine m label true (c ∷ s) h p e = elim (Option-cases (m (c ∷ s))) [
  | inl none_here ↦ rw none_here (
      HasLine-cons label true c _
        (replace_all_string-HasLine m label (c == 10) s h p (let g = rw none_here at e in g)))
  | inr (n, here) ↦
      rw (here, expand_plain (take n (c ∷ s)) label p)
        (first_line label _ p (
          replaced-AtLineEnd m label (c == 10) (n - 1) s h
            (behind n (h.filled (c ∷ s) n here) (h.ends (c ∷ s) n here))))
]
  where
    behind : (n : ℕ) → 0 < n → AtLineEnd (drop n (c ∷ s)) → AtLineEnd (drop (n - 1) s)
    behind zero lt e = absurd (omega arith)
    behind (suc n) lt e = (let same : suc n - 1 ≡ n = omega arith in rw same e)
