-- ===== src/Engine.antt =====
-- The engine's records: internal/core/engine/engine.go. An action is one of the constants of that
-- file, or any other string.
pub mod Values
pub mod Orphans
pub mod Compare
pub mod Operations
pub mod Planning
pub mod Order
pub mod Execution
pub mod Apply
pub mod Stepping
pub mod Memory
pub mod Hosts
pub mod Locks
pub mod Outputs
pub mod Preparation
use debianform.Base.{Text, ℕ, Bool, true, false, List, [], Option, none}
use debianform.Value.{Attributes}
use debianform.Ir.{LifecycleSpec, SourceRef}
use debianform.State.{Resource, StateError}
use debianform.State.Moves.{MoveError}
use debianform.State.Moves.Resolve.{RealizedMove}
use debianform.Graph.{Node, Operation}
use debianform.Graph.Schedule.{no_source, ScheduleError}

pub data Action : Type 0 where
  create update delete destroy adopt forget no_op run : Action
  other : Text → Action

pub data EngineError : Type 0 where
  protected : Text → Text → EngineError
  unknown_host : Text → Text → EngineError
  bad_schedule : ScheduleError → EngineError
  orphan_cycle : EngineError
  provider_failed : Text → Text → EngineError
  unsupported_action : Text → EngineError
  write_failed : StateError → EngineError
  already_locked : Text → EngineError
  missing_completion : Text → Text → EngineError
  empty_completion_field : Text → EngineError
  operation_failed : Text → EngineError → EngineError
  cancelled : EngineError
  unlock_failed : Text → EngineError → EngineError
  state_failed : StateError → EngineError
  move_failed : MoveError → EngineError
  state_not_read : Text → EngineError
  moves_changed : Text → EngineError
  incomplete_platform unsupported_platform : Text → EngineError
  out_of_fuel : EngineError

pub record Step : Type 0 where
  pub address : Text
  pub host : Text
  pub action : Action
  pub summary : Text
  pub node : Node
  pub prior : Option Resource
  pub observed : Attributes
  pub ownership : Text
  pub order : ℕ

pub record OperationStep : Type 0 where
  pub address : Text
  pub action : Action
  pub operation : Operation
  pub trigger_addresses : List Text
  pub trigger_paths : List Text

pub record ProviderPlan : Type 0 where
  pub action : Action
  pub summary : Text
  pub observed : Attributes
  pub ownership : Text

-- What was observed of a resource; a nil map of values is the empty map.
pub record Observed : Type 0 where
  pub exists : Bool
  pub desired_digest : Text
  pub values : Attributes

pub record Summary : Type 0 where
  pub create : ℕ
  pub update : ℕ
  pub delete : ℕ
  pub no_op : ℕ
  pub operations : ℕ
  pub move : ℕ

pub record Plan : Type 0 where
  pub steps : List Step
  pub operations : List OperationStep
  pub moves : List RealizedMove
  pub summary : Summary

-- The zero values.
abbrev pub no_node : Node
no_node = record {
  host = [];
  address = [];
  kind = [];
  summary = [];
  source = no_source;
  lifecycle = none;
  desired = [];
  provider_type = [];
  provider_address = [];
  provider_payload = [];
  depends_on = [];
  explicit_depends_on = [];
  dependency_sources = [];
}

abbrev pub no_operation : Operation
no_operation = record {
  host = [];
  address = [];
  action = [];
  summary = [];
  sensitive = false;
  depends_on = [];
  triggered_by = [];
  command_preview = [];
  script_payload = none;
  completion = none;
  source = no_source;
}

abbrev pub no_step : Step
no_step = record {
  address = [];
  host = [];
  action = other [];
  summary = [];
  node = no_node;
  prior = none;
  observed = [];
  ownership = [];
  order = 0;
}

abbrev pub no_operation_step : OperationStep
no_operation_step = record {
  address = [];
  action = other [];
  operation = no_operation;
  trigger_addresses = [];
  trigger_paths = [];
}
