-- ===== src/Profile/Diff.antt =====
-- internal/profile/diff.go: the lines in which two texts differ.
use nisix.Common.{Bool, ◌&&◌, false, List, [], ◌∷◌, ◌++◌, ◌==◌, if◌then◌else◌}
use nisix.Common.Text.{Text, codes, eq_text, trim_space, split_byte}
use nisix.Common.Cutsets.{trim_newlines}

abbrev starts_with_newline : Text → Bool
starts_with_newline [] = false
starts_with_newline (c ∷ s) = c == 10

-- strings.ReplaceAll(s, "\r\n", "\n")
unfoldable pub unix_newlines : Text → Text
unix_newlines [] = []
unix_newlines (c ∷ s) =
    let rest = unix_newlines s in if c == 13 && starts_with_newline s then rest else c ∷ rest

abbrev lines_of : Text → List Text
lines_of [] = []
lines_of (c ∷ s) = split_byte 10 (c ∷ s)

unfoldable pub split_lines : Text → List Text
unfolding unix_newlines trim_newlines split_byte
split_lines s = lines_of (trim_newlines (unix_newlines s))

abbrev marked : Text → Text → Text
marked mark [] = []
marked mark (c ∷ l) = mark ++ (c ∷ l) ++ (10 ∷ [])

abbrev line_diff : Text → Text → Text
line_diff l r = if eq_text l r then [] else marked (codes "- ") l ++ marked (codes "+ ") r

unfoldable pub diff_lines : List Text → List Text → Text
unfolding eq_text
diff_lines [] [] = []
diff_lines (l ∷ left) [] = line_diff l [] ++ diff_lines left []
diff_lines [] (r ∷ right) = line_diff [] r ++ diff_lines [] right
diff_lines (l ∷ left) (r ∷ right) = line_diff l r ++ diff_lines left right

abbrev diff_header : Text
diff_header = codes "--- current" ++ (10 ∷ codes "+++ proposed") ++ (10 ∷ [])

abbrev or_no_changes : Text → Text
or_no_changes [] = codes "no changes"
or_no_changes (c ∷ s) = c ∷ s

unfoldable pub render_line_diff : Text → Text → Text
unfolding split_lines diff_lines trim_space eq_text
render_line_diff current proposed =
    if eq_text (trim_space current) (trim_space proposed)
    then codes "no changes"
    else or_no_changes
        (trim_space (diff_header ++ diff_lines (split_lines current) (split_lines proposed)))
