-- ===== src/Tests/Texts.antt =====
-- The hunk of two short texts.
use debianform.Base.{Text, ℕ, [], ◌∷◌, ◌++◌, ◌≡◌}
use debianform.Plan.Hunks.{text_hunks, split_text_lines}
use debianform.Plan.Hunks.Apply.{apply_hunks, undo_hunks, text_hunks-apply}

abbrev line_of : ℕ → Text
line_of letter = letter ∷ 10 ∷ []

abbrev old_text : Text
old_text = line_of 97 ++ (line_of 98 ++ line_of 99)

abbrev new_text : Text
new_text = line_of 97 ++ (line_of 100 ++ (line_of 101 ++ line_of 99))

text_hunks-apply_example :
    (apply_hunks (text_hunks old_text new_text) (split_text_lines old_text)
      ≡ split_text_lines new_text)
    × (undo_hunks (text_hunks old_text new_text) (split_text_lines new_text)
        ≡ split_text_lines old_text)
text_hunks-apply_example = text_hunks-apply old_text new_text
