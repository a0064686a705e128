-- ===== src/Plan/Hunks.antt =====
-- The hunks of a text: textHunks, splitTextLines, commonPrefix and commonSuffix of
-- internal/core/plan/diff.go, with TextHunk and DiffLine of internal/core/plan/plan.go. A text is
-- its bytes, and a line break is the byte 10.
pub mod Apply
use debianform.Base.{
  Text, ℕ, suc, ◌+◌, ◌-◌, List, [], ◌∷◌, ◌++◌, map, Bool, true, false, if◌then◌else◌, ◌==◌, text_eq,
  length, take, drop, reversed,
}

-- The values of Op that textHunks uses.
pub data LineOp : Type 0 where
  delete_line create_line : LineOp

pub record DiffLine : Type 0 where
  pub op : LineOp
  pub content : Text

pub record TextHunk : Type 0 where
  pub old_start : ℕ
  pub old_lines : ℕ
  pub new_start : ℕ
  pub new_lines : ℕ
  pub lines : List DiffLine

abbrev line_break : ℕ
line_break = 10

-- strings.TrimSuffix(value, "\n")
unfoldable pub trim_line_break : Text → Text
trim_line_break [] = []
trim_line_break (c ∷ rest) = elim rest [
  | [] ↦ if c == line_break then [] else c ∷ []
  | d ∷ more ↦ c ∷ trim_line_break rest
]

abbrev pub onto_first : ℕ → List Text → List Text
onto_first c [] = (c ∷ []) ∷ []
onto_first c (line ∷ lines) = (c ∷ line) ∷ lines

-- strings.Split(value, "\n")
unfoldable pub split_lines : Text → List Text
split_lines [] = [] ∷ []
split_lines (c ∷ rest) =
    let lines = split_lines rest in if c == line_break then [] ∷ lines else onto_first c lines

unfoldable pub split_text_lines : Text → List Text
split_text_lines [] = []
split_text_lines (c ∷ rest) = split_lines (trim_line_break (c ∷ rest))

unfoldable pub common_prefix : List Text → List Text → ℕ
common_prefix [] b = 0
common_prefix (x ∷ a) [] = 0
common_prefix (x ∷ a) (y ∷ b) = let more = common_prefix a b in if text_eq x y then suc more else 0

-- The count goes from the end of both lists.
unfoldable pub common_suffix : List Text → List Text → ℕ
common_suffix a b = common_prefix (reversed a) (reversed b)

abbrev pub deleted : Text → DiffLine
deleted line = record { op = delete_line; content = line }

abbrev pub created : Text → DiffLine
created line = record { op = create_line; content = line }

-- The hunk of two lists of lines that differ, after the common lines at the start.
unfoldable pub hunk_of : ℕ → List Text → List Text → List TextHunk
hunk_of prefix [] [] = []
hunk_of prefix old new =
    record {
      old_start = prefix + 1;
      old_lines = length old;
      new_start = prefix + 1;
      new_lines = length new;
      lines = map deleted old ++ map created new;
    }
    ∷ []

-- The lines that remain between the common ones at the start and at the end.
unfoldable pub changed_lines : ℕ → ℕ → List Text → List Text
changed_lines prefix suffix lines = take (length (drop prefix lines) - suffix) (drop prefix lines)

unfoldable pub hunks_of_lines : List Text → List Text → List TextHunk
hunks_of_lines before after =
    let prefix = common_prefix before after in
    let suffix = common_suffix (drop prefix before) (drop prefix after) in
    hunk_of prefix (changed_lines prefix suffix before) (changed_lines prefix suffix after)

unfoldable pub text_hunks : Text → Text → List TextHunk
text_hunks before after = hunks_of_lines (split_text_lines before) (split_text_lines after)
