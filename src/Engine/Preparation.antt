-- ===== src/Engine/Preparation.antt =====
-- What happens to the states before a plan and before its execution: readStates, resolveHostMoves,
-- resolveProgramMoves, verifyApprovedHostMoves, prepareHostStates and their helpers of
-- internal/core/engine/engine.go.
--
-- The backend is a parameter. A host option of "" selects every host.
pub mod Approved
pub mod Tracks
pub mod Hosts
use debianform.Base.{
  Text, text, ℕ, List, [], ◌∷◌, ◌++◌, map, Option, none, some, Bool, true, false, not, ◌&&◌, ◌||◌,
  if◌then◌else◌, text_eq, text_lt, is_empty, sort_stable, Result, ok, err, ◌>>=◌,
}
use debianform.Base.Dict.{Dict, insert, lookup}
use debianform.Ir.Platform.{validate_target_platform}
use debianform.Ir.{HostSpec, HostFacts, SystemFacts}
use debianform.Graph.{Node, Operation, ResourceGraph, ScriptOutputPayload}
use debianform.State.{State, StateError, Hashing, normalize}
use debianform.State.Moves.{MoveError}
use debianform.State.Moves.Resolve.{MoveTarget, RealizedMove, MoveResult, resolve_moves}
use debianform.Engine.{
  EngineError, cancelled, state_failed, move_failed, moves_changed, state_not_read, write_failed,
  incomplete_platform, unsupported_platform,
}
use debianform.Engine.Apply.{reconcile_state_dependencies}
use debianform.Engine.Hosts.{Event, run_hosts, is_nil}
use debianform.Engine.Outputs.{script_output_node_for_operation}

-- Backend.Read and Backend.Write.
pub record Store (W : Type 0) : Type 0 where
  pub read : Text → W → W × Result EngineError State
  pub write : Text → State → W → W × Result EngineError State

unfoldable pub has_host_facts : HostFacts → Bool
has_host_facts facts =
    not (is_empty facts.system.hostname)
    || not (is_empty facts.system.distribution)
    || not (is_empty facts.system.version)
    || not (is_empty facts.system.architecture)
    || not (is_empty facts.system.codename)
    || not (is_empty facts.system.detected_at)

-- selectedProgramHosts, for the option `only`.
unfoldable pub selected_program_hosts : Text → List HostSpec → List HostSpec
selected_program_hosts only [] = []
selected_program_hosts only (host ∷ hosts) =
    if not (is_empty only) && not (text_eq host.name only)
    then selected_program_hosts only hosts
    else host ∷ selected_program_hosts only hosts

-- The loop of validateProgramTargetPlatforms over the selected hosts.
pub validate_program_target_platforms : List HostSpec → Result EngineError (Unit {0})
validate_program_target_platforms [] = ok tt
validate_program_target_platforms (host ∷ hosts) =
    let system = host.facts.system in
    let later = validate_program_target_platforms hosts in
    if is_empty system.distribution && is_empty system.version
    then later
    else if is_empty system.distribution
        || is_empty system.version
        || is_empty system.architecture
        || is_empty system.codename
    then err (incomplete_platform host.name)
    else if validate_target_platform system.distribution system.version system.architecture
        system.codename
    then later
    else err (unsupported_platform host.name)

pub realized_before : RealizedMove → RealizedMove → Bool
realized_before a b =
    if not (text_eq a.host b.host)
    then text_lt a.host b.host
    else if not (text_eq a.from b.from)
    then text_lt a.from b.from
    else text_lt a.to b.to

unfoldable pub sort_realized_moves : List RealizedMove → List RealizedMove
unfolding realized_before
sort_realized_moves moves = sort_stable realized_before moves

-- The approved moves of a host.
unfoldable pub moves_of : Text → List RealizedMove → List RealizedMove
moves_of host [] = []
moves_of host (move ∷ moves) =
    if text_eq move.host host then move ∷ moves_of host moves else moves_of host moves

unfoldable pub same_move : RealizedMove → RealizedMove → Bool
same_move a b = text_eq a.host b.host && (text_eq a.from b.from && text_eq a.to b.to)

-- The lists are equally long and agree at every index.
unfoldable pub same_moves : List RealizedMove → List RealizedMove → Bool
same_moves [] [] = true
same_moves [] (b ∷ bs) = false
same_moves (a ∷ rest) [] = false
same_moves (a ∷ rest) (b ∷ bs) = same_move a b && same_moves rest bs

unfoldable pub verify_approved_host_moves :
    Text → List RealizedMove → List RealizedMove → Result EngineError (Unit {0})
verify_approved_host_moves host approved realized =
    if same_moves (sort_realized_moves (moves_of host approved)) (sort_realized_moves realized)
    then ok tt
    else err (moves_changed host)

-- The targets of the moves: the nodes of the host, and then the outputs of its operations.
node_targets : Text → List Node → Dict MoveTarget → Dict MoveTarget
node_targets host [] targets = targets
node_targets host (node ∷ nodes) targets = node_targets host nodes (
    if text_eq node.host host
    then insert node.address
        (record { provider_address = node.provider_address; desired = node.desired }) targets
    else targets)

output_targets : Operation → List ScriptOutputPayload → Dict MoveTarget → Dict MoveTarget
unfolding script_output_node_for_operation
output_targets op [] targets = targets
output_targets op (output ∷ outputs) targets =
    output_targets op outputs (elim (script_output_node_for_operation op output.address) [
      | none ↦ targets
      | some node ↦
          insert node.address
            (record { provider_address = node.provider_address; desired = node.desired }) targets
    ])

operation_targets : Text → List Operation → Dict MoveTarget → Dict MoveTarget
unfolding output_targets
operation_targets host [] targets = targets
operation_targets host (op ∷ ops) targets = operation_targets host ops (elim op.script_payload [
  | none ↦ targets
  | some payload ↦
      if text_eq op.host host then output_targets op payload.outputs targets else targets
])

desired_components : Text → List Text → Dict Bool → Dict Bool
desired_components host [] found = found
desired_components host (component ∷ components) found =
    desired_components host components
      (insert (text "host." ++ (host ++ (text ".components." ++ component))) true found)

module _ (hashing : Hashing) (g : ResourceGraph) where
  unfoldable pub resolve_host_moves : State → HostSpec → Result MoveError MoveResult
  unfolding node_targets operation_targets desired_components
  resolve_host_moves st host =
      resolve_moves hashing st host.moves (desired_components host.name host.components [])
        (operation_targets host.name g.operations (node_targets host.name g.nodes []))

  -- The loop of resolveProgramMoves over the selected hosts.
  pub resolve_each :
      List HostSpec
      → Dict State
      → Dict State × List RealizedMove
      → Result EngineError (Dict State × List RealizedMove)
  unfolding resolve_host_moves
  resolve_each [] states made = ok made
  resolve_each (host ∷ hosts) states (resolved, moves) = elim (lookup host.name states) [
    | none ↦ err (state_not_read host.name)
    | some st ↦ elim (resolve_host_moves st host) [
      | err e ↦ err (move_failed e)
      | ok result ↦
          resolve_each hosts states (insert host.name result.state resolved, moves ++ result.moves)
    ]
  ]

  pub resolve_program_moves :
      List HostSpec → Dict State → Result EngineError (Dict State × List RealizedMove)
  unfolding resolve_each
  resolve_program_moves hosts states = do
    (resolved, moves) ← resolve_each hosts states ([], [])
    ok (resolved, sort_realized_moves moves)

  -- What prepareHostStates makes of the state that it read, and whether it is to be written.
  unfoldable pub prepared_state :
      List RealizedMove → HostSpec → State → Result EngineError (State × Bool)
  unfolding normalize resolve_host_moves verify_approved_host_moves reconcile_state_dependencies
      has_host_facts
  prepared_state approved host st = elim (normalize st host.name) [
    | err e ↦ err (state_failed e)
    | ok normal ↦ elim (resolve_host_moves normal host) [
      | err e ↦ err (move_failed e)
      | ok moved ↦ elim (verify_approved_host_moves host.name approved moved.moves) [
        | err e ↦ err e
        | ok _ ↦
            let (resources, changed) =
              reconcile_state_dependencies host.name g.nodes moved.state.resources false in
            let reconciled = record moved.state { resources = resources } in
            if has_host_facts host.facts
            then ok (record reconciled { facts = some host.facts }, true)
            else ok (reconciled, not (is_nil moved.moves) || changed)
      ]
    ]
  ]

  module _ {W : Type 0} (store : Store W) where
    -- The function that prepareHostStates gives to runHosts.
    unfoldable pub prepare_host :
        List RealizedMove → Bool → HostSpec → W × Dict State → (W × Dict State) × Option EngineError
    unfolding prepared_state
    prepare_host approved is_cancelled host (w, prepared) =
        let (w', got) = store.read host.name w in
        elim got [
          | err e ↦ ((w', prepared), some e)
          | ok st ↦ elim (prepared_state approved host st) [
            | err e ↦ ((w', prepared), some e)
            | ok (st', write) ↦
                if is_cancelled
                then ((w', prepared), some cancelled)
                else if write
                then (let (w'', result) = store.write host.name st' w' in
                    elim result [
                      | err e ↦ ((w'', prepared), some e)
                      | ok committed ↦ ((w'', insert host.name committed prepared), none)
                    ])
                else ((w', insert host.name st' prepared), none)
          ]
        ]

    unfoldable pub prepare_host_states :
        List RealizedMove
        → ℕ
        → List Event
        → List HostSpec
        → W
        → Option ((W × Dict State) × Option EngineError)
    unfolding prepare_host
    prepare_host_states approved parallel events hosts w =
        run_hosts (prepare_host approved) parallel events hosts (w, [])

-- readStates: the function for one host, and the run.
module _ {W : Type 0} (store : Store W) where
  pub read_host : Bool → HostSpec → W × Dict State → (W × Dict State) × Option EngineError
  unfolding normalize
  read_host is_cancelled host (w, states) =
      let (w', got) = store.read host.name w in
      elim got [
        | err e ↦ ((w', states), some e)
        | ok st ↦ elim (normalize st host.name) [
          | err e ↦ ((w', states), some (state_failed e))
          | ok normal ↦ ((w', insert host.name normal states), none)
        ]
      ]

  pub read_states :
      ℕ → List Event → List HostSpec → W → Option ((W × Dict State) × Option EngineError)
  unfolding read_host
  read_states parallel events hosts w = run_hosts read_host parallel events hosts (w, [])
