-- ===== src/Engine/Apply.antt =====
-- What a resource step changes in the state: the second switch of executeResourceStep,
-- resourceStateForStep, providerStep, removeStateDependencyReferences,
-- reconcileStateDependencies and trackedStateDependencies of internal/core/engine/engine.go.
-- Hashing and the clock are parameters.
pub mod Records
use debianform.Base.{
  Text, text, List, [], ◌∷◌, ◌++◌, Option, none, some, Bool, true, false, not, ◌&&◌, ◌||◌,
  if◌then◌else◌, text_eq, is_empty, contains, Result, ok, err, ◌>>=◌,
}
use debianform.Base.Dict.{Dict, insert, lookup, delete, has, get}
use debianform.Value.{Attributes, as_bool}
use debianform.Graph.{Node, ResourceGraph}
use debianform.State.{State, StateError, Resource, Hashing, sanitize_desired, desired_digest, empty}
use debianform.Engine.{
  Action, create, update, delete as act_delete, destroy, adopt, forget, no_op, run, other, Step,
  EngineError, unknown_host, provider_failed, unsupported_action, write_failed,
}
use debianform.Engine.Planning.{action_text}

-- fileContentWriteOnly
pub file_content_write_only : Node → Bool
unfolding as_bool
file_content_write_only node = as_bool (lookup (text "content_write_only") node.desired)

-- providerNode and providerStep: the provider sees the payload in place of the desired values.
pub provider_step : Step → Step
unfolding file_content_write_only
provider_step step = elim step.node.provider_payload [
  | [] ↦ step
  | first ∷ rest ↦
      if file_content_write_only step.node
      then step
      else record step { node = record step.node { desired = first ∷ rest } }
]

-- The dependencies other than the removed address.
unfoldable pub drop_dependency : Text → List Text → List Text
drop_dependency removed [] = []
drop_dependency removed (dependency ∷ rest) =
    if text_eq dependency removed
    then drop_dependency removed rest
    else dependency ∷ drop_dependency removed rest

unfoldable pub remove_state_dependency_references : Dict Resource → Text → Dict Resource
unfolding drop_dependency
remove_state_dependency_references [] removed = []
remove_state_dependency_references ((address, resource) ∷ rest) removed =
    (address, record resource { depends_on = drop_dependency removed resource.depends_on })
    ∷ remove_state_dependency_references rest removed

-- trackedStateDependencies
unfoldable pub tracked_state_dependencies : List Text → Dict Resource → List Text
tracked_state_dependencies [] resources = []
tracked_state_dependencies (dependency ∷ rest) resources =
    if has dependency resources
    then dependency ∷ tracked_state_dependencies rest resources
    else tracked_state_dependencies rest resources

unfoldable pub texts_eq : List Text → List Text → Bool
texts_eq [] [] = true
texts_eq [] (b ∷ bs) = false
texts_eq (a ∷ as') [] = false
texts_eq (a ∷ as') (b ∷ bs) = text_eq a b && texts_eq as' bs

-- reconcileStateDependencies: the resources, and whether one changed.
unfoldable pub reconcile_state_dependencies :
    Text → List Node → Dict Resource → Bool → Dict Resource × Bool
unfolding tracked_state_dependencies texts_eq
reconcile_state_dependencies host [] resources changed = (resources, changed)
reconcile_state_dependencies host (node ∷ nodes) resources changed =
    let depends_on = tracked_state_dependencies node.depends_on resources in
    let kept = reconcile_state_dependencies host nodes resources changed in
    if not (text_eq node.host host) then kept else elim (lookup node.address resources) [
      | none ↦ kept
      | some resource ↦
          if texts_eq resource.depends_on depends_on
          then kept
          else reconcile_state_dependencies host nodes
              (insert node.address (record resource { depends_on = depends_on }) resources) true
    ]

module _ (hashing : Hashing) where
  pub resource_state_for_step : Step → Attributes → Text → Resource
  unfolding sanitize_desired as_bool desired_digest
  resource_state_for_step step observed now =
      let kept = sanitize_desired hashing observed in
      record {
        host = step.host;
        kind = step.node.kind;
        provider_type = step.node.provider_type;
        provider_address = step.node.provider_address;
        ownership = if is_empty step.ownership then text "managed" else step.ownership;
        lifecycle = step.node.lifecycle;
        desired = sanitize_desired hashing step.node.desired;
        desired_digest = desired_digest hashing step.node.desired;
        observed =
            if as_bool (lookup (text "sensitive") step.node.desired)
            then delete (text "original_content") kept
            else kept;
        updated_at = now;
        order = step.order;
        depends_on = step.node.depends_on;
      }

  -- The resource of the step, as the state now records it.
  pub recorded : Step → Attributes → Text → State → State
  unfolding resource_state_for_step
  recorded step values now st = record st {
    resources = insert step.address (resource_state_for_step step values now) st.resources;
  }

  pub removed : Step → State → State
  unfolding remove_state_dependency_references
  removed step st = record st {
    resources = remove_state_dependency_references (delete step.address st.resources) step.address;
  }

  -- The cases create and update. `observed` is the provider's answer, and `none` is the nil map.
  pub applied : Step → Text → Option Attributes → State → Option State
  unfolding recorded
  applied step now observed st =
      if text_eq step.node.kind (text "component_script_output")
      then none
      else some
          (recorded step (elim observed [ none ↦ step.observed | some values ↦ values ]) now st)

  -- The second switch: the state to be written, if any.
  pub state_for_action : Action → Step → Text → Option Attributes → State → Option State
  unfolding applied recorded removed
  state_for_action create step now observed st = applied step now observed st
  state_for_action update step now observed st = applied step now observed st
  state_for_action act_delete step now observed st = some (removed step st)
  state_for_action destroy step now observed st = some (removed step st)
  state_for_action forget step now observed st = some (removed step st)
  state_for_action adopt step now observed st = some (recorded step step.observed now st)
  state_for_action _ step now observed st = none

  pub state_after : Step → Text → Option Attributes → State → Option State
  unfolding state_for_action
  state_after step now observed st = state_for_action step.action step now observed st
