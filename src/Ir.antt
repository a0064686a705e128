-- ===== src/Ir.antt =====
-- The records of internal/core/ir/types.go that the graph, the state and the engine exchange.
pub mod Platform
use debianform.Base.{Text, ℕ, Bool, List}

pub record SourceRef : Type 0 where
  pub file : Text
  pub line : ℕ
  pub path : Text

pub record LifecycleSpec : Type 0 where
  pub prevent_destroy : Bool
  pub source : SourceRef

pub record ResourceDependencySpec : Type 0 where
  pub from : Text
  pub depends_on : Text
  pub artifact_path : Text
  pub source : SourceRef

pub record MovedSpec : Type 0 where
  pub from : Text
  pub to : Text
  pub source : SourceRef
  pub from_source : SourceRef
  pub to_source : SourceRef

pub record SystemFacts : Type 0 where
  pub hostname : Text
  pub distribution : Text
  pub version : Text
  pub architecture : Text
  pub codename : Text
  pub detected_at : Text

pub record HostFacts : Type 0 where
  pub system : SystemFacts

-- A host: the fields that the engine itself reads, with the names of its component instances.
pub record HostSpec : Type 0 where
  pub name : Text
  pub facts : HostFacts
  pub moves : List MovedSpec
  pub components : List Text
