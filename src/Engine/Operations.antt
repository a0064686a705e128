-- ===== src/Engine/Operations.antt =====
-- The operations that a plan runs: operationSteps, operationForTriggers,
-- filterInactiveOperationDependencies and their helpers of internal/core/engine/engine.go.
-- `strconv.Quote` is a parameter.
pub mod Active
use debianform.Base.{
  Text, text, List, [], ◌∷◌, ◌++◌, map, none, some, true, false, not, ◌&&◌, if◌then◌else◌, text_eq,
  is_empty, contains,
}
use debianform.Base.Dict.{Dict, get}
use debianform.Graph.{Operation}
use debianform.Engine.{Step, OperationStep, run, no_step}
use debianform.Engine.Values.{operation_trigger_path}

-- The loop of dedupeOperationDependencies.
pub dedupe_dependencies_from : List Text → List Text → List Text
dedupe_dependencies_from seen [] = []
dedupe_dependencies_from seen (value ∷ values) = elim (contains seen value) [
  | true ↦ dedupe_dependencies_from seen values
  | false ↦ value ∷ dedupe_dependencies_from (value ∷ seen) values
]

unfoldable pub dedupe_operation_dependencies : List Text → List Text
unfolding dedupe_dependencies_from
dedupe_operation_dependencies values = dedupe_dependencies_from [] values

-- The values that are not in the set.
unfoldable pub without : List Text → List Text → List Text
without excluded [] = []
without excluded (value ∷ values) =
    if contains excluded value then without excluded values else value ∷ without excluded values

pub operation_for_triggers : Operation → List Text → Operation
unfolding dedupe_operation_dependencies without
operation_for_triggers op triggers = record op {
  depends_on = dedupe_operation_dependencies (triggers ++ without op.triggered_by op.depends_on);
  triggered_by = triggers;
}

-- The triggers that changed.
unfoldable pub triggered_among : List Text → List Text → List Text
triggered_among changed [] = []
triggered_among changed (trigger ∷ triggers) =
    if contains changed trigger
    then trigger ∷ triggered_among changed triggers
    else triggered_among changed triggers

pub trigger_path : Dict Step → Text → Text
unfolding operation_trigger_path
trigger_path steps trigger = operation_trigger_path (get no_step trigger steps)

module _ (quote : Text → Text) where
  pub operation_each_address : Text → Text → Text
  operation_each_address address trigger =
      address ++ (text ".trigger[" ++ (quote trigger ++ text "]"))

  -- One step for each trigger.
  pub each_steps : Operation → Dict Step → List Text → List OperationStep
  unfolding operation_each_address operation_for_triggers trigger_path
  each_steps op steps [] = []
  each_steps op steps (trigger ∷ triggers) =
      record {
        address = operation_each_address op.address trigger;
        action = run;
        operation = operation_for_triggers op (trigger ∷ []);
        trigger_addresses = trigger ∷ [];
        trigger_paths = trigger_path steps trigger ∷ [];
      }
      ∷ each_steps op steps triggers

  pub steps_for : Operation → Dict Step → List Text → List OperationStep
  unfolding each_steps operation_for_triggers trigger_path
  steps_for op steps [] = []
  steps_for op steps (first ∷ others) =
      let mode : Text = elim op.script_payload [ none ↦ [] | some payload ↦ payload.mode ] in
      if text_eq mode (text "each")
      then each_steps op steps (first ∷ others)
      else record {
        address = op.address;
        action = run;
        operation = operation_for_triggers op (first ∷ others);
        trigger_addresses = first ∷ others;
        trigger_paths = map (trigger_path steps) (first ∷ others);
      }
        ∷ []

  -- The loop over the operations; an empty `only` selects every host.
  pub triggered_steps : List Operation → List Text → Dict Step → Text → List OperationStep
  unfolding steps_for triggered_among
  triggered_steps [] changed steps only = []
  triggered_steps (op ∷ ops) changed steps only =
      let later = triggered_steps ops changed steps only in
      if not (is_empty only) && not (text_eq op.host only)
      then later
      else steps_for op steps (triggered_among changed op.triggered_by) ++ later

-- The dependencies that are no operations, or active ones.
pub keep_active : List Text → List Text → List Text → List Text
keep_active operations active [] = []
keep_active operations active (dependency ∷ rest) =
    let later = keep_active operations active rest in
    if contains operations dependency && not (contains active dependency)
    then later
    else dependency ∷ later

pub step_operation : OperationStep → Text
step_operation step = step.operation.address

pub filter_inactive_operation_dependencies :
    List OperationStep → List Operation → List OperationStep
unfolding keep_active step_operation
filter_inactive_operation_dependencies steps operations =
    let addresses = map (λ (op : Operation). op.address) operations in
    let active = map step_operation steps in
    map
      (λ (step : OperationStep). record step {
        operation = record step.operation {
          depends_on = keep_active addresses active step.operation.depends_on;
        };
      })
      steps

-- operationSteps
pub operation_steps :
    (Text → Text) → List Operation → List Text → Dict Step → Text → List OperationStep
unfolding triggered_steps filter_inactive_operation_dependencies
operation_steps quote operations changed steps only =
    filter_inactive_operation_dependencies (triggered_steps quote operations changed steps only)
      operations
