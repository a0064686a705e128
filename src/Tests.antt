-- ===== src/Tests.antt =====
-- Concrete inputs for the theorems: a graph of two files and an operation, the state of a host, and
-- a hash that names no content.
pub mod Graphs
pub mod States
pub mod Runs
pub mod Plans
pub mod Orders
pub mod Hosts
pub mod Preparing
pub mod Texts
pub mod Declared
pub mod Prepared
use debianform.Base.{Text, text, ℕ, List, [], ◌∷◌, Option, none, some, true, false}
use debianform.Base.Dict.{Dict}
use debianform.Value.{Attributes, str, bool}
use debianform.Ir.{LifecycleSpec}
use debianform.Graph.{Node, Operation, ResourceGraph}
use debianform.Graph.Schedule.{no_source}
use debianform.State.{Resource, State, Hashing}
use debianform.Engine.{no_node, no_operation, no_step, Step}
use debianform.State.Moves.Resolve.{no_resource}

abbrev pub hashing : Hashing
hashing = record { sha256_hex = λ content. text "sum"; marshal = λ values. text "json" }

abbrev pub base_node : Node
base_node = record no_node { host = text "web"; address = text "base"; kind = text "file" }

abbrev pub site_node : Node
site_node = record no_node {
  host = text "web";
  address = text "site";
  kind = text "service";
  depends_on = text "base" ∷ [];
}

abbrev pub reload : Operation
reload = record no_operation {
  host = text "web";
  address = text "reload";
  depends_on = text "site" ∷ text "base" ∷ [];
  triggered_by = text "site" ∷ [];
}

abbrev pub small_graph : ResourceGraph
small_graph = record { nodes = site_node ∷ base_node ∷ []; operations = reload ∷ [] }

-- A resource of a component, and one that depends on it.
abbrev pub old_address : Text
old_address = text "host.web.components.old.file[a]"

abbrev pub adopted_resource : Resource
adopted_resource = record no_resource {
  host = text "web";
  kind = text "file";
  ownership = text "adopted";
  desired = (text "content", str (text "secret")) ∷ (text "sensitive", bool true) ∷ [];
}

abbrev pub dependent_resource : Resource
dependent_resource = record no_resource {
  kind = text "service";
  depends_on = old_address ∷ text "base" ∷ [];
}

abbrev pub small_state : State
small_state = record {
  version = 2;
  host = text "web";
  serial = 7;
  updated_at = [];
  facts = none;
  resources = (old_address, adopted_resource) ∷ (text "site", dependent_resource) ∷ [];
}

abbrev pub file_step : Step
file_step = record no_step { address = old_address; host = text "web"; node = base_node }
