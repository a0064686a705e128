-- ===== src/Graph.antt =====
-- The resource graph: internal/core/graph/graph.go. A nil map is the empty map, and a nil list
-- the empty list: the code that is modelled does not tell them apart.
pub mod Schedule
pub mod Kahn
pub mod Acyclic
pub mod Waves
pub mod Dependencies
use debianform.Base.{Text, Bool, List, Option}
use debianform.Base.Dict.{Dict}
use debianform.Value.{Attributes}
use debianform.Ir.{SourceRef, LifecycleSpec}

pub record Node : Type 0 where
  pub host : Text
  pub address : Text
  pub kind : Text
  pub summary : Text
  pub source : SourceRef
  pub lifecycle : Option LifecycleSpec
  pub desired : Attributes
  pub provider_type : Text
  pub provider_address : Text
  pub provider_payload : Attributes
  pub depends_on : List Text
  pub explicit_depends_on : List Text
  pub dependency_sources : Dict SourceRef

pub record OperationCompletion : Type 0 where
  pub resource_address : Text
  pub observed_field : Text

pub record ScriptOutputPayload : Type 0 where
  pub address : Text
  pub path : Text
  pub script_digest : Text
  pub provider_address : Text

pub record ScriptPayload : Type 0 where
  pub name : Text
  pub component_name : Text
  pub mode : Text
  pub kind : Text
  pub interpreter : List Text
  pub outputs : List ScriptOutputPayload
  pub run : Text
  pub content : Text
  pub commands : List (List Text)
  pub trigger_addresses : List Text
  pub trigger_paths : List Text

pub record Operation : Type 0 where
  pub host : Text
  pub address : Text
  pub action : Text
  pub summary : Text
  pub sensitive : Bool
  pub depends_on : List Text
  pub triggered_by : List Text
  pub command_preview : Text
  pub script_payload : Option ScriptPayload
  pub completion : Option OperationCompletion
  pub source : SourceRef

pub record ResourceGraph : Type 0 where
  pub nodes : List Node
  pub operations : List Operation
