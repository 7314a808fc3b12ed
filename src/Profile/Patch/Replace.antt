-- ===== src/Profile/Patch/Replace.antt =====
-- regexp: MatchString and ReplaceAllString for an expression `(?im)^...$` whose match is never empty.
-- A matcher gives the length of the match at the front of a text.
use nisix.Common.{
  ℕ, zero, suc, ◌-◌, Bool, true, false, ◌||◌, Option, none, some, [], ◌∷◌, ◌++◌, ◌==◌, take,
  if◌then◌else◌,
}
use nisix.Common.Text.{Text}
use nisix.Profile.Patch.Expand.{expand, plain}

abbrev pub Matcher : Type 0
Matcher = Text → Option ℕ

-- `^` holds at the front of the text and behind a newline.
unfoldable pub match_at : Matcher → Bool → Text → Option ℕ
match_at m line_start s = if line_start then m s else none

abbrev pub is_found : Option ℕ → Bool
is_found none = false
is_found (some n) = true

unfoldable pub match_string : Matcher → Bool → Text → Bool
unfolding match_at
match_string m line_start [] = is_found (match_at m line_start [])
match_string m line_start (c ∷ s) =
    is_found (match_at m line_start (c ∷ s)) || match_string m (c == 10) s

-- A match gives way to the expanded label; without one, the byte is kept.
abbrev pub replaced : Text → Text → Text → (ℕ → Text) → Option ℕ → Text
replaced label s kept behind none = kept
replaced label s kept behind (some n) = expand (take n s) plain label ++ behind (n - 1)

-- `skip` counts the bytes of a match that are still to be passed over.
unfoldable pub replace_all_string : Matcher → Text → Bool → ℕ → Text → Text
unfolding expand match_at
replace_all_string m label line_start skip [] = []
replace_all_string m label line_start (suc skip) (c ∷ s) =
    replace_all_string m label (c == 10) skip s
replace_all_string m label line_start zero (c ∷ s) =
    replaced label (c ∷ s) (c ∷ replace_all_string m label (c == 10) zero s)
      (λ skip. replace_all_string m label (c == 10) skip s) (match_at m line_start (c ∷ s))
