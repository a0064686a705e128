-- ===== src/Engine/Planning/Counts.antt =====
-- The numbers of the summary.
use debianform.Base.{
  ℕ, suc, ◌+◌, List, [], ◌∷◌, ◌≡◌, ◌∙◌, refl, arith, Bool, true, false, if◌then◌else◌, length,
}
use debianform.Engine.{
  Action, create, update, delete, destroy, adopt, forget, no_op, run, other, Step, OperationStep,
  Summary,
}
use debianform.Engine.Values.{delete_like_action}
use debianform.Engine.Planning.{is_no_op, count_step, count_steps, summarize}

pub how_many : (Action → Bool) → List Step → ℕ
how_many test [] = 0
how_many test (step ∷ steps) =
    if test step.action then suc (how_many test steps) else how_many test steps

pub is_create : Action → Bool
is_create create = true
is_create _ = false

-- An update, or an adoption of what is there.
pub is_update : Action → Bool
is_update update = true
is_update adopt = true
is_update _ = false

count_step_lem :
    (s : Summary) (a : Action)
    → ((count_step s a).create ≡ s.create + (if is_create a then 1 else 0))
      × ((count_step s a).update ≡ s.update + (if is_update a then 1 else 0))
      × ((count_step s a).delete ≡ s.delete + (if delete_like_action a then 1 else 0))
      × ((count_step s a).no_op ≡ s.no_op + (if is_no_op a then 1 else 0))
      × ((count_step s a).move ≡ s.move)
unfolding count_step is_create is_update delete_like_action is_no_op
count_step_lem s create = (omega arith, omega arith, omega arith, omega arith, refl)
count_step_lem s update = (omega arith, omega arith, omega arith, omega arith, refl)
count_step_lem s delete = (omega arith, omega arith, omega arith, omega arith, refl)
count_step_lem s destroy = (omega arith, omega arith, omega arith, omega arith, refl)
count_step_lem s adopt = (omega arith, omega arith, omega arith, omega arith, refl)
count_step_lem s forget = (omega arith, omega arith, omega arith, omega arith, refl)
count_step_lem s no_op = (omega arith, omega arith, omega arith, omega arith, refl)
count_step_lem s run = (omega arith, omega arith, omega arith, omega arith, refl)
count_step_lem s (other t) = (omega arith, omega arith, omega arith, omega arith, refl)

count_steps_lem :
    (steps : List Step) (s : Summary)
    → ((count_steps steps s).create ≡ s.create + how_many is_create steps)
      × ((count_steps steps s).update ≡ s.update + how_many is_update steps)
      × ((count_steps steps s).delete ≡ s.delete + how_many delete_like_action steps)
      × ((count_steps steps s).no_op ≡ s.no_op + how_many is_no_op steps)
      × ((count_steps steps s).move ≡ s.move)
unfolding count_steps how_many
count_steps_lem [] s = (omega arith, omega arith, omega arith, omega arith, refl)
count_steps_lem (step ∷ steps) s =
    let (a, b, c, d, e) = count_step_lem s step.action in
    let (a', b', c', d', e') = count_steps_lem steps (count_step s step.action) in
    (
      ground (arith, a, a'),
      ground (arith, b, b'),
      ground (arith, c, c'),
      ground (arith, d, d'),
      e' ∙ e,
    )

-- The summary counts the steps that create, those that update or adopt, those that delete, destroy
-- or forget, the unchanged resources, and the operations; the number of moves is the given one.
pub summarize_counts :
    (steps : List Step) (operations : List OperationStep) (unchanged moves : ℕ)
    → ((summarize steps operations unchanged moves).create ≡ how_many is_create steps)
      × ((summarize steps operations unchanged moves).update ≡ how_many is_update steps)
      × ((summarize steps operations unchanged moves).delete ≡ how_many delete_like_action steps)
      × ((summarize steps operations unchanged moves).no_op ≡ how_many is_no_op steps + unchanged)
      × ((summarize steps operations unchanged moves).operations ≡ length operations)
      × ((summarize steps operations unchanged moves).move ≡ moves)
unfolding summarize
summarize_counts steps operations unchanged moves =
    let zeros : Summary = record {
      create = 0;
      update = 0;
      delete = 0;
      no_op = 0;
      operations = 0;
      move = moves;
    } in
    let (a, b, c, d, e) = count_steps_lem steps zeros in
    (omega (arith, a), omega (arith, b), omega (arith, c), omega (arith, d), refl, e)
