-- ===== src/Engine/Planning/Collects.antt =====
-- What the plan is made of, and its summary.
use debianform.Base.{
  Text, ℕ, suc, ◌+◌, List, [], ◌∷◌, ◌++◌, ◌≡◌, refl, arith, true, false, ◌&&◌, if◌then◌else◌, ok,
}
use debianform.Engine.{
  Action, create, update, delete, destroy, adopt, forget, no_op, run, other, Step,
}
use debianform.Engine.Values.{destroys_resource, prevents_destroy, triggers_operation}
use debianform.Engine.Planning.{Collected, is_no_op, collect, collect_steps}

-- The steps that change something, in their order, and the addresses of those that trigger
-- operations.
pub changing : List Step → List Step
changing [] = []
changing (step ∷ steps) = if is_no_op step.action then changing steps else step ∷ changing steps

pub triggering : List Step → List Text
triggering [] = []
triggering (step ∷ steps) =
    if triggers_operation step.action then step.address ∷ triggering steps else triggering steps

pub unchanged : List Step → ℕ
unchanged [] = 0
unchanged (step ∷ steps) = if is_no_op step.action then suc (unchanged steps) else unchanged steps

-- No step destroys a node that is protected.
abbrev pub AreAllowed : List Step → Type 0
AreAllowed [] = Unit
AreAllowed (step ∷ steps) =
    ((destroys_resource step.action && prevents_destroy step.node.lifecycle) ≡ false)
    × AreAllowed steps

no_op_quiet : (action : Action) → is_no_op action ≡ true → triggers_operation action ≡ false
unfolding is_no_op triggers_operation
no_op_quiet create h = ground arith
no_op_quiet update h = ground arith
no_op_quiet delete h = ground arith
no_op_quiet destroy h = refl
no_op_quiet adopt h = refl
no_op_quiet forget h = refl
no_op_quiet no_op h = refl
no_op_quiet run h = refl
no_op_quiet (other a) h = refl

append_one : {A : Type 0} (xs : List A) (x : A) (ys : List A) → (xs ++ x ∷ []) ++ ys ≡ xs ++ x ∷ ys
append_one [] x ys = refl
append_one (y ∷ xs) x ys = λ i. y ∷ append_one xs x ys i

-- The parts of a successful round.
collect_steps_cons :
    (step : Step) (steps : List Step) (found out : Collected)
    → collect_steps (step ∷ steps) found ≡ ok out
    → ((destroys_resource step.action && prevents_destroy step.node.lifecycle) ≡ false)
      × (collect_steps steps (collect found step) ≡ ok out)
unfolding collect_steps
collect_steps_cons step steps found out h = ground (arith, h)

pub record Collects (steps : List Step) (found out : Collected) : Type 0 where
  pub allowed : AreAllowed steps
  pub planned : out.steps ≡ found.steps ++ changing steps
  pub triggers : out.changed ≡ found.changed ++ triggering steps
  pub counted : out.no_op ≡ found.no_op + unchanged steps

append_none : {A : Type 0} (xs : List A) → xs ≡ xs ++ []
append_none [] = refl
append_none (x ∷ xs) = λ i. x ∷ append_none xs i

Collects-cons :
    (step : Step) (steps : List Step) (found out : Collected)
    → (destroys_resource step.action && prevents_destroy step.node.lifecycle) ≡ false
    → Collects steps (collect found step) out
    → Collects (step ∷ steps) found out
unfolding collect changing triggering unchanged
Collects-cons step steps found out allowed later = record {
  allowed = (allowed, later.allowed);
  planned = ground (arith, later.planned, append_one found.steps step (changing steps));
  triggers = ground (
    arith,
    later.triggers,
    no_op_quiet step.action,
    append_one found.changed step.address (triggering steps),
  );
  counted = ground (arith, later.counted);
}

-- The loop over the planned nodes succeeds only if none of them destroys a protected node. It then
-- has all the steps that change something, in their order, the addresses of those that trigger
-- operations, and the number of the others.
pub collect_steps-Collects :
    (steps : List Step) (found out : Collected)
    → collect_steps steps found ≡ ok out
    → Collects steps found out
unfolding changing triggering unchanged
collect_steps-Collects [] found out h =
    let e : found ≡ out = unfold collect_steps in cc in
    rw (← e) (record {
      allowed = tt;
      planned = append_none found.steps;
      triggers = append_none found.changed;
      counted = omega arith;
    })
collect_steps-Collects (step ∷ steps) found out h =
    let (allowed, later) = collect_steps_cons step steps found out h in
    Collects-cons step steps found out allowed
      (collect_steps-Collects steps (collect found step) out later)
