-- ===== src/Engine/Outputs.antt =====
-- Running an operation and recording what it leaves: executeItem, recordOperationOutputs,
-- scriptOutputNodeForOperation and operationWithStepContext of internal/core/engine/engine.go.
--
-- The provider's answer to an operation is the list of the addresses with their observed values, in
-- the order in which the map is walked: each address once. A nil map of values is the empty map.
pub mod Completes
use debianform.Base.{
  Text, text, List, [], ◌∷◌, ◌++◌, Option, none, some, Bool, true, false, if◌then◌else◌, contains,
  text_eq, is_empty, Result, ok, err,
}
use debianform.Base.Dict.{Dict, insert, get, lookup}
use debianform.Value.{Attributes, str, as_string}
use debianform.Graph.{Node, Operation, OperationCompletion, ScriptPayload, ScriptOutputPayload}
use debianform.State.{Resource, State, StateError, Hashing, sanitize_desired}
use debianform.Engine.{
  Step, OperationStep, EngineError, no_node, no_step, update, unknown_host, provider_failed,
  write_failed, operation_failed, missing_completion, empty_completion_field,
}
use debianform.Engine.Values.{string_value}
use debianform.Engine.Apply.{resource_state_for_step}
use debianform.Engine.Order.{ExecutionItem, resource, operation}
use debianform.Engine.Stepping.{Services, Stepped, no_state, execute_resource_step}

-- The payload is told what triggered the operation.
pub operation_with_step_context : OperationStep → Operation
operation_with_step_context step = elim step.operation.script_payload [
  | none ↦ step.operation
  | some payload ↦ record step.operation {
    script_payload = some (record payload {
      trigger_addresses = step.trigger_addresses;
      trigger_paths = step.trigger_paths;
    });
  }
]

-- The desired values of a script's output.
output_desired : ScriptPayload → ScriptOutputPayload → Attributes
output_desired payload output =
    let named =
      insert (text "script") (str payload.name) (insert (text "path") (str output.path) []) in
    let placed =
      if is_empty payload.component_name
      then insert (text "scope") (str (text "host")) named
      else insert (text "component") (str payload.component_name) named in
    if is_empty output.script_digest
    then placed
    else insert (text "script_digest") (str output.script_digest) placed

-- The loop over the outputs of the payload.
output_node : Operation → ScriptPayload → Text → List ScriptOutputPayload → Option Node
unfolding output_desired
output_node op payload address [] = none
output_node op payload address (output ∷ outputs) =
    if text_eq output.address address
    then some (record no_node {
      host = op.host;
      address = address;
      kind = text "component_script_output";
      source = op.source;
      desired = output_desired payload output;
      provider_type = text "component_script_output";
      provider_address = output.provider_address;
    })
    else output_node op payload address outputs

unfoldable pub script_output_node_for_operation : Operation → Text → Option Node
unfolding output_node
script_output_node_for_operation op address = elim op.script_payload [
  | none ↦ none
  | some payload ↦ output_node op payload address payload.outputs
]

-- The node of an output that the payload does not list.
unlisted_node : Text → Text → Attributes → Node
unfolding string_value
unlisted_node host address observed = record no_node {
  host = host;
  address = address;
  kind = text "component_script_output";
  desired = insert (text "path") (str (string_value observed (text "path"))) [];
  provider_type = text "component_script_output";
  provider_address = text "component_script_output." ++ address;
}

module _ (hashing : Hashing) where
  -- The step whose resource is recorded for an output.
  output_step : Operation → Text → Text → Attributes → Step
  unfolding script_output_node_for_operation unlisted_node
  output_step op host address observed = record no_step {
    address = address;
    host = host;
    action = update;
    node = elim (script_output_node_for_operation op address) [
      | some node ↦ node
      | none ↦ unlisted_node host address observed
    ];
    observed = observed;
    ownership = text "managed";
  }

  -- The loop over the outputs.
  pub record_outputs :
      Operation → Text → Text → List (Text × Attributes) → Dict Resource → Dict Resource
  unfolding output_step
  record_outputs op host now [] resources = resources
  record_outputs op host now ((address, observed) ∷ rest) resources =
      record_outputs op host now rest (
        insert address
          (resource_state_for_step hashing (output_step op host address observed) observed now)
          resources)

  -- The resource whose change action has completed.
  pub completed : Text → Text → Resource → Resource
  completed field now found = record found {
    observed = sanitize_desired hashing (insert field (str found.desired_digest) found.observed);
    updated_at = now;
  }

  -- What the completion of the operation changes.
  unfoldable pub complete :
      Text → Text → Option OperationCompletion → Dict Resource → Result EngineError (Dict Resource)
  unfolding completed
  complete address now none resources = ok resources
  complete address now (some completion) resources =
      elim (lookup completion.resource_address resources) [
        | none ↦ err (missing_completion address completion.resource_address)
        | some found ↦
            if is_empty completion.observed_field
            then err (empty_completion_field address)
            else ok (
                insert completion.resource_address (completed completion.observed_field now found)
                  resources)
      ]

  module _ {W : Type 0} (services : Services W) where
    -- The write of the new state.
    pub write_outputs : Text → State → W → Dict State → Stepped W
    write_outputs host st w states =
        let (w', result) = services.write host st w in
        elim result [
          | err e ↦ record { world = w'; states = states; failure = some (write_failed e) }
          | ok committed ↦ record {
            world = w';
            states = insert host committed states;
            failure = none;
          }
        ]

    -- recordOperationOutputs
    pub record_operation_outputs :
        List Text → Text → OperationStep → List (Text × Attributes) → Dict State → W → Stepped W
    unfolding record_outputs complete write_outputs
    record_operation_outputs hosts now step outputs states w =
        let op = step.operation in
        let unchanged : Option EngineError → Stepped W =
          λ failure. record { world = w; states = states; failure = failure } in
        let st = get no_state op.host states in
        let made : Stepped W =
          if contains hosts op.host
          then elim (complete step.address now op.completion
              (record_outputs op op.host now outputs st.resources)) [
                | err e ↦ unchanged (some e)
                | ok resources ↦
                    write_outputs op.host (record st { resources = resources }) w states
              ]
          else unchanged (some (unknown_host step.address op.host)) in
        elim outputs [
          | [] ↦ elim op.completion [ none ↦ unchanged none | some completion ↦ made ]
          | first ∷ rest ↦ made
        ]

    -- executeItem; `answer_of` is the provider's RunOperation. The error of what follows an
    -- operation is told with the item's address.
    pub execute_item :
        (Operation → W → W × Result Text (List (Text × Attributes)))
        → List Text
        → Text
        → ExecutionItem
        → Dict State
        → W
        → Stepped W
    unfolding operation_with_step_context record_operation_outputs
    execute_item answer_of hosts now item states w = elim item.work [
      | resource step ↦ execute_resource_step services hashing hosts now step states w
      | operation step ↦
          let (w', answer) = answer_of (operation_with_step_context step) w in
          elim answer [
            | err message ↦ record {
              world = w';
              states = states;
              failure = some (provider_failed item.address message);
            }
            | ok outputs ↦
                let r = record_operation_outputs hosts now step outputs states w' in
                record r {
                  failure = elim r.failure [
                    | none ↦ none
                    | some e ↦ some (operation_failed item.address e)
                  ];
                }
          ]
    ]
