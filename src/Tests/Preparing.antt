-- ===== src/Tests/Preparing.antt =====
-- The preparation of a state: a move that was approved, the dependencies of the small graph, and a
-- change action that has completed.
use debianform.Base.{err, ◌≢◌}
use debianform.Ir.{MovedSpec}
use debianform.Graph.Schedule.{no_source}
use debianform.State.Moves.{validate_and_order_moves, out_of_fuel}
use debianform.State.Moves.Ends.{validate_and_order_moves_ends}
use debianform.Engine.Values.{desired_ensure_absent}
use debianform.Engine.Preparation.{same_moves, sort_realized_moves, same_move}
use debianform.Base.{sort_stable, text_lt}
use mathlib.Core.List.{Perm}
use debianform.Base.{
  Text, text, text_eq, [], ◌∷◌, ◌≡◌, refl, some, false, true, ok, arith, if◌then◌else◌, count,
  text_eq_iff, IsDistinct,
}
use debianform.Base.Dict.{Dict, insert, lookup, has}
use debianform.Graph.{OperationCompletion}
use debianform.State.{Resource, desired_digest}
use debianform.State.Moves.Resolve.{RealizedMove, no_resource}
use debianform.Engine.{Observed, no_op}
use debianform.Engine.Compare.{compare_node}
use debianform.Engine.Apply.{reconcile_state_dependencies}
use debianform.Engine.Outputs.{complete, completed}
use debianform.Engine.Outputs.Completes.{complete-compare_node}
use debianform.Engine.Preparation.{verify_approved_host_moves, moves_of}
use debianform.Engine.Preparation.Approved.{verify_approved-Perm}
use debianform.Engine.Preparation.Tracks.{
  reconcile_state_dependencies-Tracked, Tracked, node_at, addresses_of_nodes,
}
use debianform.Tests.{hashing, small_graph, small_state, base_node}

abbrev web_move : RealizedMove
web_move = record { host = text "web"; from = text "old"; to = text "new" }

abbrev second_move : RealizedMove
second_move = record { host = text "web"; from = text "a"; to = text "b" }

abbrev db_move : RealizedMove
db_move = record { host = text "db"; from = text "a"; to = text "b" }

moves_approved :
    verify_approved_host_moves
      (text "web")
      (web_move ∷ db_move ∷ second_move ∷ [])
      (second_move ∷ web_move ∷ [])
    ≡ ok tt
unfolding verify_approved_host_moves same_moves sort_realized_moves sort_stable moves_of text_eq
    text text_lt same_move
moves_approved = refl

verify_approved-Perm_example :
    Perm
      (second_move ∷ web_move ∷ [])
      (moves_of (text "web") (web_move ∷ db_move ∷ second_move ∷ []))
verify_approved-Perm_example =
    verify_approved-Perm (text "web") (web_move ∷ db_move ∷ second_move ∷ [])
      (second_move ∷ web_move ∷ []) moves_approved

nodes-IsDistinct : IsDistinct (addresses_of_nodes small_graph.nodes)
unfolding count
nodes-IsDistinct x =
    ground (arith, text_eq_iff (text "site") x, text_eq_iff (text "base") x, site_apart x)
  where
    site_apart : (y : Text) → text "site" ≡ y → text_eq (text "base") y ≡ false
    site_apart y e = rw (← e) (unfold text text_eq in refl)

reconcile_state_dependencies-Tracked_example :
    Tracked small_state.resources
      (node_at (text "web") (text "site") small_graph.nodes)
      (lookup (text "site") small_state.resources)
      (lookup
        (text "site")
        (reconcile_state_dependencies (text "web") small_graph.nodes small_state.resources false).0)
    × (has
          (text "site")
          (reconcile_state_dependencies
            (text "web")
            small_graph.nodes
            small_state.resources
            false).0
        ≡ has (text "site") small_state.resources)
reconcile_state_dependencies-Tracked_example =
    reconcile_state_dependencies-Tracked (text "web") small_graph.nodes small_state.resources false
      nodes-IsDistinct (text "site")

abbrev reload_done : OperationCompletion
reload_done = record {
  resource_address = text "base";
  observed_field = text "change_action_digest";
}

abbrev changed_resource : Resource
changed_resource = record no_resource { desired_digest = text "sum" }

abbrev in_sync_now : Observed
in_sync_now = record { exists = true; desired_digest = text "sum"; values = [] }

abbrev before_reload : Dict Resource
before_reload = (text "base", changed_resource) ∷ []

abbrev after_reload : Dict Resource
after_reload =
    (text "base", completed hashing (text "change_action_digest") (text "now") changed_resource)
    ∷ []

reload_recorded :
    complete hashing (text "reload") (text "now") (some reload_done) before_reload ≡ ok after_reload
unfolding complete lookup text_eq text insert
reload_recorded = refl

complete-compare_node_example :
    ((compare_node hashing base_node (lookup (text "base") after_reload) in_sync_now).action
      ≡ no_op)
    × ((a : Text)
        → lookup a after_reload ≡ (
            if text_eq (text "base") a
            then some
                (completed hashing (text "change_action_digest") (text "now") changed_resource)
            else lookup a before_reload))
unfolding lookup desired_digest text_eq text desired_ensure_absent
complete-compare_node_example =
    complete-compare_node hashing (text "reload") (text "now") reload_done before_reload
      after_reload changed_resource base_node in_sync_now reload_recorded refl refl refl refl refl
      refl

abbrev old_to_new : MovedSpec
old_to_new = record {
  from = text "host.web.components.old";
  to = text "host.web.components.new";
  source = no_source;
  from_source = no_source;
  to_source = no_source;
}

validate_and_order_moves_ends_example :
    validate_and_order_moves (text "web") (old_to_new ∷ []) ≢ err out_of_fuel
validate_and_order_moves_ends_example = validate_and_order_moves_ends (text "web") (old_to_new ∷ [])
