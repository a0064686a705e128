-- ===== src/Plan/Hunks/Apply.antt =====
-- The hunks of internal/core/plan/diff.go say how the old lines become the new ones.
use debianform.Base.{
  Text, text_eq_iff, ℕ, ◌+◌, ◌-◌, ◌≤◌, List, [], ◌∷◌, ◌++◌, map, ◌≡◌, refl, sym, ap, ◌∙◌, arith,
  inl, inr, Bool-cases, text_eq, length, take, drop, reversed, take-append-drop, drop-drop,
  length-take, length-reversed, reversed-reversed, take-reversed,
}
use debianform.Plan.Hunks.{
  LineOp, delete_line, create_line, DiffLine, TextHunk, split_text_lines, common_prefix,
  common_suffix, deleted, created, hunk_of, changed_lines, hunks_of_lines, text_hunks,
}

-- The lines of one kind in a hunk.
abbrev pub lines_with : LineOp → List DiffLine → List Text
lines_with op [] = []
lines_with delete_line (line ∷ rest) = elim line.op [
  | delete_line ↦ line.content ∷ lines_with delete_line rest
  | create_line ↦ lines_with delete_line rest
]
lines_with create_line (line ∷ rest) = elim line.op [
  | create_line ↦ line.content ∷ lines_with create_line rest
  | delete_line ↦ lines_with create_line rest
]

-- A patch replaces the old lines of its hunk by the created ones.
abbrev pub apply_hunks : List TextHunk → List Text → List Text
apply_hunks [] lines = lines
apply_hunks (hunk ∷ hunks) lines =
    let at_line = hunk.old_start - 1 in
    take at_line lines
    ++ (lines_with create_line hunk.lines
        ++ apply_hunks hunks (drop (at_line + hunk.old_lines) lines))

common_prefix-take :
    (a b : List Text)
    → (take (common_prefix a b) a ≡ take (common_prefix a b) b)
      × (common_prefix a b ≤ length a)
      × (common_prefix a b ≤ length b)
unfolding common_prefix take
common_prefix-take [] b = (refl, omega arith, omega arith)
common_prefix-take (x ∷ a) [] = (refl, omega arith, omega arith)
common_prefix-take (x ∷ a) (y ∷ b) =
    let (same, short, short') = common_prefix-take a b in
    elim (Bool-cases (text_eq x y)) [
      | inl equal ↦
          let first : x ≡ y = (text_eq_iff x y).0 equal in
          rw equal (cc (first, same), omega (arith, short), omega (arith, short'))
      | inr differ ↦ rw differ (refl, omega arith, omega arith)
    ]

common_suffix-drop :
    (a b : List Text)
    → (drop (length a - common_suffix a b) a ≡ drop (length b - common_suffix a b) b)
      × (common_suffix a b ≤ length a)
      × (common_suffix a b ≤ length b)
unfolding common_suffix
common_suffix-drop a b =
    let n = common_prefix (reversed a) (reversed b) in
    let (same, short, short') = common_prefix-take (reversed a) (reversed b) in
    let ends : reversed (drop (length a - n) a) ≡ reversed (drop (length b - n) b) =
      sym (take-reversed n a) ∙ same ∙ take-reversed n b in
    (
      sym (reversed-reversed (drop (length a - n) a))
          ∙ ap reversed ends
          ∙ reversed-reversed (drop (length b - n) b),
      omega (arith, short, length-reversed a),
      omega (arith, short', length-reversed b),
    )

-- The patch backwards: the created lines of its hunk are replaced by the old ones.
abbrev pub undo_hunks : List TextHunk → List Text → List Text
undo_hunks [] lines = lines
undo_hunks (hunk ∷ hunks) lines =
    let at_line = hunk.new_start - 1 in
    take at_line lines
    ++ (lines_with delete_line hunk.lines
        ++ undo_hunks hunks (drop (at_line + hunk.new_lines) lines))

created_lines :
    (old new : List Text) → lines_with create_line (map deleted old ++ map created new) ≡ new
created_lines [] [] = refl
created_lines [] (line ∷ new) = cc (created_lines [] new)
created_lines (line ∷ old) new = created_lines old new

deleted_lines :
    (old new : List Text) → lines_with delete_line (map deleted old ++ map created new) ≡ old
deleted_lines [] [] = refl
deleted_lines [] (line ∷ new) = deleted_lines [] new
deleted_lines (line ∷ old) new = cc (deleted_lines old new)

predecessor : (p : ℕ) → (p + 1) - 1 ≡ p
predecessor p = omega arith

apply_hunk_of :
    (p : ℕ) (old new lines : List Text)
    → apply_hunks (hunk_of p old new) lines ≡ take p lines ++ (new ++ drop (p + length old) lines)
unfolding hunk_of
apply_hunk_of p [] [] lines =
    let same : p + 0 ≡ p = omega arith in rw same (sym (take-append-drop p lines))
apply_hunk_of p [] (line ∷ new) lines = rw (predecessor p, created_lines [] new) refl
apply_hunk_of p (line ∷ old) new lines = rw (predecessor p, created_lines (line ∷ old) new) refl

undo_hunk_of :
    (p : ℕ) (old new lines : List Text)
    → undo_hunks (hunk_of p old new) lines ≡ take p lines ++ (old ++ drop (p + length new) lines)
unfolding hunk_of
undo_hunk_of p [] [] lines =
    let same : p + 0 ≡ p = omega arith in rw same (sym (take-append-drop p lines))
undo_hunk_of p [] (line ∷ new) lines = rw (predecessor p, deleted_lines [] (line ∷ new)) refl
undo_hunk_of p (line ∷ old) new lines = rw (predecessor p, deleted_lines old new) refl

-- What stands after the changed lines.
after_changed :
    (p s : ℕ) (lines : List Text)
    → s ≤ length (drop p lines)
    → drop (p + length (changed_lines p s lines)) lines
      ≡ drop (length (drop p lines) - s) (drop p lines)
unfolding changed_lines
after_changed p s lines h =
    let n = length (drop p lines) - s in
    let long : length (take n (drop p lines)) ≡ n = length-take n (drop p lines) (omega arith) in
    rw long (sym (drop-drop n p lines))

whole :
    (p s : ℕ) (lines : List Text)
    → take p lines ++ (changed_lines p s lines ++ drop (length (drop p lines) - s) (drop p lines))
      ≡ lines
unfolding changed_lines
whole p s lines =
    rw (take-append-drop (length (drop p lines) - s) (drop p lines)) (take-append-drop p lines)

-- The hunks of two texts turn the lines of the first into those of the second, and backwards.
pub text_hunks-apply :
    (before after : Text)
    → (apply_hunks (text_hunks before after) (split_text_lines before) ≡ split_text_lines after)
      × (undo_hunks (text_hunks before after) (split_text_lines after) ≡ split_text_lines before)
unfolding text_hunks hunks_of_lines
text_hunks-apply before after =
    let old = split_text_lines before in
    let new = split_text_lines after in
    let p = common_prefix old new in
    let s = common_suffix (drop p old) (drop p new) in
    let (start, _, _) = common_prefix-take old new in
    let (ends, short, short') = common_suffix-drop (drop p old) (drop p new) in
    (
      apply_hunk_of p (changed_lines p s old) (changed_lines p s new) old
          ∙ (rw (after_changed p s old short, start, ends) (whole p s new)),
      undo_hunk_of p (changed_lines p s old) (changed_lines p s new) new
          ∙ (rw (after_changed p s new short', ← start, ← ends) (whole p s old)),
    )
