-- ===== src/Engine/Planning.antt =====
-- The last part of Engine.Plan of internal/core/engine/engine.go: from the providers' answers to
-- the plan. The answers are a parameter; reading states, moving components and the preflight stand
-- before it.
pub mod Collects
pub mod Counts
use debianform.Base.{
  Text, text, ℕ, ◌+◌, List, [], ◌∷◌, ◌++◌, length, Option, Bool, true, false, ◌&&◌, ltb, ◌==◌,
  if◌then◌else◌, text_lt, is_empty, sort_stable, Result, ok, err, ◌>>=◌,
}
use debianform.Base.Dict.{Dict, insert}
use debianform.Graph.{Node, ResourceGraph}
use debianform.State.{State, Resource}
use debianform.State.Moves.Resolve.{RealizedMove}
use debianform.Engine.{
  Action, create, update, delete, destroy, adopt, forget, no_op, other, Step, OperationStep,
  ProviderPlan, Summary, Plan, EngineError, protected,
}
use debianform.Engine.Values.{destroys_resource, prevents_destroy, triggers_operation}
use debianform.Engine.Orphans.{orphan_steps}
use debianform.Engine.Operations.{operation_steps}

-- The spelling of the actions, for the default summary.
pub action_text : Action → Text
action_text create = text "create"
action_text update = text "update"
action_text delete = text "delete"
action_text destroy = text "destroy"
action_text adopt = text "adopt"
action_text forget = text "forget"
action_text no_op = text "no-op"
action_text Action.run = text "run"
action_text (other a) = a

pub default_summary : Text → Text → Text
default_summary action fallback = if is_empty fallback then action else fallback

-- An empty action is no change.
pub plan_action : Action → Action
plan_action (other a) = if is_empty a then no_op else other a
plan_action action = action

pub node_step : ℕ → Node → Option Resource → ProviderPlan → Step
unfolding plan_action default_summary action_text
node_step order node prior answer =
    let action = plan_action answer.action in
    record {
      address = node.address;
      host = node.host;
      action = action;
      summary =
          if is_empty answer.summary
          then default_summary (action_text action) node.summary
          else answer.summary;
      node = node;
      prior = prior;
      observed = answer.observed;
      ownership = answer.ownership;
      order = order;
    }

pub is_no_op : Action → Bool
is_no_op no_op = true
is_no_op _ = false

-- What the loop over the planned nodes collects.
pub record Collected : Type 0 where
  pub steps : List Step
  pub changed : List Text
  pub no_op : ℕ

pub collect : Collected → Step → Collected
unfolding is_no_op triggers_operation
collect found step =
    if is_no_op step.action then record found { no_op = found.no_op + 1 } else record found {
      steps = found.steps ++ step ∷ [];
      changed =
          if triggers_operation step.action
          then found.changed ++ step.address ∷ []
          else found.changed;
    }

unfoldable pub collect_steps : List Step → Collected → Result EngineError Collected
unfolding collect destroys_resource prevents_destroy
collect_steps [] found = ok found
collect_steps (step ∷ rest) found =
    let later = collect_steps rest (collect found step) in
    if destroys_resource step.action && prevents_destroy step.node.lifecycle
    then err (protected step.address step.node.kind)
    else later

unfoldable pub step_by_address : List Step → Dict Step → Dict Step
step_by_address [] found = found
step_by_address (step ∷ steps) found = step_by_address steps (insert step.address step found)

-- sortSteps and sortOperationSteps
unfoldable pub step_before : Step → Step → Bool
step_before a b = if a.order == b.order then text_lt a.address b.address else ltb a.order b.order

unfoldable pub operation_address : OperationStep → Text
operation_address step = if is_empty step.address then step.operation.address else step.address

pub operation_before : OperationStep → OperationStep → Bool
unfolding operation_address
operation_before a b = text_lt (operation_address a) (operation_address b)

-- The cases of the loop of summarize.
pub count_step : Summary → Action → Summary
count_step s create = record s { create = s.create + 1 }
count_step s update = record s { update = s.update + 1 }
count_step s adopt = record s { update = s.update + 1 }
count_step s delete = record s { delete = s.delete + 1 }
count_step s destroy = record s { delete = s.delete + 1 }
count_step s forget = record s { delete = s.delete + 1 }
count_step s no_op = record s { no_op = s.no_op + 1 }
count_step s _ = s

pub count_steps : List Step → Summary → Summary
unfolding count_step
count_steps [] s = s
count_steps (step ∷ steps) s = count_steps steps (count_step s step.action)

pub summarize : List Step → List OperationStep → ℕ → ℕ → Summary
unfolding count_steps
summarize steps operations unchanged moves =
    let counted =
      count_steps steps
        (record { create = 0; update = 0; delete = 0; no_op = 0; operations = 0; move = moves }) in
    record counted { no_op = counted.no_op + unchanged; operations = length operations }

pub plan_steps :
    (Text → Text)
    → ResourceGraph
    → List Step
    → Dict State
    → Dict Node
    → List RealizedMove
    → Text
    → Result EngineError Plan
unfolding collect_steps step_by_address step_before operation_before summarize
plan_steps quote g planned states desired moves only = do
  found ← collect_steps planned (record { steps = []; changed = []; no_op = 0 })
  orphaned ← orphan_steps states desired only
  let steps = found.steps ++ orphaned
  let operations = operation_steps quote g.operations found.changed (step_by_address steps []) only
  ok (record {
    steps = sort_stable step_before steps;
    operations = sort_stable operation_before operations;
    moves = moves;
    summary =
        summarize (sort_stable step_before steps) (sort_stable operation_before operations)
          found.no_op (length moves);
  })
