-- ===== src/State/Moves/Resolve.antt =====
-- ResolveMoves of internal/core/state/moved.go, and what it does to one entry.
pub mod Keeps
use debianform.Base.{
  Text, text, ℕ, zero, suc, ◌+◌, List, [], ◌∷◌, ◌++◌, map, Option, none, some, Bool, true, false,
  not, ◌&&◌, ◌||◌, length, if◌then◌else◌, text_eq, is_empty, Result, ok, err, ◌>>=◌, sort_strings,
}
use debianform.Base.Dict.{Dict, lookup, insert, delete, keys, has, get}
use debianform.Ir.{MovedSpec}
use debianform.Value.{Attributes, str, as_string}
use debianform.State.{State, StateError, Resource, Hashing, desired_digest, normalize}
use debianform.State.Moves.{
  MoveError, bad_state, both_desired, target_not_desired, destination_exists, out_of_fuel, matches,
  matching_keys, replace_address_prefix, component_from_prefix, validate_and_order_moves,
  final_move_targets,
}

pub record MoveTarget : Type 0 where
  pub provider_address : Text
  pub desired : Attributes

pub record RealizedMove : Type 0 where
  pub host : Text
  pub from : Text
  pub to : Text

pub record MoveResult : Type 0 where
  pub state : State
  pub moves : List RealizedMove

-- A missing target is the zero value.
abbrev pub no_target : MoveTarget
no_target = record { provider_address = []; desired = [] }

abbrev pub no_resource : Resource
no_resource = record {
  host = [];
  kind = [];
  provider_type = [];
  provider_address = [];
  ownership = [];
  lifecycle = none;
  desired = [];
  desired_digest = [];
  observed = [];
  updated_at = [];
  order = 0;
  depends_on = [];
}

-- `s, _ := m[key].(string)`
abbrev string_at : Text → Attributes → Text
string_at key values = elim (as_string (lookup key values)) [ some s ↦ s | none ↦ [] ]

-- `dependsOn[i] = replaceAddressPrefix(…)`, for the dependencies below the source.
rebase_dependencies : Text → Text → List Text → List Text
rebase_dependencies from to [] = []
rebase_dependencies from to (dependency ∷ rest) =
    (if matches from dependency then replace_address_prefix dependency from to else dependency)
    ∷ rebase_dependencies from to rest

pub rebase_resource_dependencies : Text → Text → Dict Resource → Dict Resource
unfolding rebase_dependencies
rebase_resource_dependencies from to [] = []
rebase_resource_dependencies from to ((address, resource) ∷ rest) =
    (address, record resource { depends_on = rebase_dependencies from to resource.depends_on })
    ∷ rebase_resource_dependencies from to rest

module _ (hashing : Hashing) where
  -- The new value of `component`, where it changes.
  new_component : Resource → Text → Text → MoveTarget → Option Text
  unfolding as_string
  new_component resource from_component to_component target =
      let wanted = string_at (text "component") target.desired in
      let component = if is_empty wanted then to_component else wanted in
      let current = string_at (text "component") resource.desired in
      if (has (text "component") resource.desired
          || text_eq resource.kind (text "component_script_output"))
        && (not (text_eq current component) || text_eq current from_component)
      then some component
      else none

  -- The digest that was observed is rewritten if it was the old desired one.
  rebase_observed : Attributes → Text → Text → Attributes
  rebase_observed observed old_digest new_digest =
      elim (as_string (lookup (text "desired_digest") observed)) [
        | none ↦ observed
        | some seen ↦
            if text_eq seen old_digest
            then insert (text "desired_digest") (str new_digest) observed
            else observed
      ]

  pub rebase_moved_resource : Resource → Text → Text → MoveTarget → Resource
  unfolding new_component rebase_observed
  rebase_moved_resource resource from_component to_component target =
      let provider =
        if is_empty target.provider_address
        then resource.provider_address
        else target.provider_address in
      elim (new_component resource from_component to_component target) [
        | none ↦ record resource { provider_address = provider }
        | some component ↦
            let desired = insert (text "component") (str component) resource.desired in
            let digest = desired_digest hashing desired in
            record resource {
              provider_address = provider;
              desired = desired;
              desired_digest = digest;
              observed = rebase_observed resource.observed resource.desired_digest digest;
            }
      ]

  module _ (host : Text) (targets : Dict MoveTarget) (declaration : MovedSpec) where
    abbrev pub component_of : Text → Text
    component_of prefix = elim (component_from_prefix host prefix) [
      | some component ↦ component
      | none ↦ []
    ]

    -- The loop over the matching addresses that moves each of them.
    pub move_addresses :
        List Text
        → Dict Resource
        → List RealizedMove
        → Result MoveError (Dict Resource × List RealizedMove)
    unfolding component_from_prefix
    move_addresses [] resources moves = ok (resources, moves)
    move_addresses (from ∷ rest) resources moves =
        let to = replace_address_prefix from declaration.from declaration.to in
        elim (has to resources) [
          | true ↦ err (destination_exists from to)
          | false ↦
              move_addresses rest
                (insert to
                  (rebase_moved_resource (get no_resource from resources)
                    (component_of declaration.from) (component_of declaration.to)
                    (get no_target to targets))
                  (delete from resources))
                (moves ++ record { host = host; from = from; to = to } ∷ [])
        ]

    -- The loop that only looks for existing destinations.
    pub check_destinations : List Text → Dict Resource → Result MoveError (Unit {0})
    check_destinations [] resources = ok tt
    check_destinations (from ∷ rest) resources =
        let to = replace_address_prefix from declaration.from declaration.to in
        if has to resources
        then err (destination_exists from to)
        else check_destinations rest resources

    -- One round of the loop over the declarations.
    pub apply_declaration :
        Dict Bool
        → Dict Text
        → Dict Resource × List RealizedMove
        → Result MoveError (Dict Resource × List RealizedMove)
    unfolding move_addresses check_destinations
    apply_declaration desired_components final_targets (resources, moves) =
        let addresses = sort_strings (matching_keys declaration.from (keys resources)) in
        let final_target = get [] declaration.from final_targets in
        let source_desired = get false declaration.from desired_components in
        let target_desired = get false final_target desired_components in
        elim addresses [
          | [] ↦ ok (resources, moves)
          | first ∷ others ↦
              if source_desired
              then (if target_desired then err (both_desired declaration.from) else (do
                _ ← check_destinations (first ∷ others) resources
                ok (resources, moves)))
              else if not target_desired
              then err (target_not_desired declaration.from final_target)
              else (do
                (moved, realized) ← move_addresses (first ∷ others) resources moves
                ok (rebase_resource_dependencies declaration.from declaration.to moved, realized))
        ]

  pub apply_declarations :
      Text
      → Dict MoveTarget
      → Dict Bool
      → Dict Text
      → List MovedSpec
      → Dict Resource × List RealizedMove
      → Result MoveError (Dict Resource × List RealizedMove)
  unfolding apply_declaration
  apply_declarations host targets desired_components final_targets [] made = ok made
  apply_declarations host targets desired_components final_targets (declaration ∷ rest) made = do
    made' ← apply_declaration host targets declaration desired_components final_targets made
    apply_declarations host targets desired_components final_targets rest made'

  -- What follows the validation.
  pub move_all : State → List MovedSpec → Dict Bool → Dict MoveTarget → Result MoveError MoveResult
  unfolding apply_declarations
  move_all st ordered desired_components targets = elim (final_move_targets ordered) [
    | none ↦ err out_of_fuel
    | some final_targets ↦ do
      (resources, moves) ←
          apply_declarations st.host targets desired_components final_targets ordered
            (st.resources, [])
      ok (record { state = record st { resources = resources }; moves = moves })
  ]

  unfoldable pub resolve_moves :
      State → List MovedSpec → Dict Bool → Dict MoveTarget → Result MoveError MoveResult
  unfolding move_all
  resolve_moves st declarations desired_components targets = elim (normalize st st.host) [
    | err e ↦ err (bad_state e)
    | ok normalized ↦ elim declarations [
      | [] ↦ ok (record { state = normalized; moves = [] })
      | first ∷ others ↦ do
        ordered ← validate_and_order_moves normalized.host (first ∷ others)
        move_all normalized ordered desired_components targets
    ]
  ]
