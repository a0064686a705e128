-- ===== src/Graph/Schedule.antt =====
-- The scheduler of the resource graph: internal/core/graph/schedule.go, and dedupeStrings of
-- internal/core/graph/graph_helpers.go. An error is its kind and what its message names; the
-- message's wording is not modelled.
pub mod Table
pub mod Named
use debianform.Base.{
  Text, text, ℕ, ◌+◌, List, [], ◌∷◌, Option, none, some, Bool, true, false, ◌||◌, if◌then◌else◌,
  is_empty, contains, Result, ok, err, ◌>>=◌,
}
use debianform.Base.Dict.{Dict, insert, has}
use debianform.Ir.{SourceRef}
use debianform.Graph.{Node, Operation, ResourceGraph}

pub record ScheduleItem : Type 0 where
  pub address : Text
  pub host : Text
  pub kind : Text
  pub operation : Bool
  pub safe_parallel : Bool
  pub depends_on : List Text

pub record ScheduleEntry : Type 0 where
  pub item : ScheduleItem
  pub depends_on : List Text
  pub order : ℕ
  pub source : SourceRef
  pub dependency_sources : Dict SourceRef

pub data ScheduleError : Type 0 where
  node_empty_address operation_empty_address : ScheduleError
  operation_empty_host duplicate_address unknown_active : Text → ScheduleError
  unknown_dependency unknown_trigger : Text → Text → ScheduleError
  cycle : List Text → SourceRef → ScheduleError
  wave_cycle out_of_fuel : ScheduleError

abbrev pub no_source : SourceRef
no_source = record { file = []; line = 0; path = [] }

-- The zero values that a lookup of a missing key yields.
abbrev pub zero_item : ScheduleItem
zero_item = record {
  address = [];
  host = [];
  kind = [];
  operation = false;
  safe_parallel = false;
  depends_on = [];
}

abbrev pub zero_entry : ScheduleEntry
zero_entry = record {
  item = zero_item;
  depends_on = [];
  order = 0;
  source = no_source;
  dependency_sources = [];
}

unfoldable pub safe_parallel_kind : Text → Bool
safe_parallel_kind kind =
    contains
      (text "file"
        ∷ text "secret"
        ∷ text "systemd_unit"
        ∷ text "nftables_file"
        ∷ text "networkd_netdev"
        ∷ text "networkd_network"
        ∷ text "directory"
        ∷ text "component_download"
        ∷ text "component_build"
        ∷ text "component_binary"
        ∷ text "component_file"
        ∷ text "component_ca_certificate"
        ∷ text "component_archive"
        ∷ text "component_script_output"
        ∷ [])
      kind

-- The loop of `dedupeStrings`: `seen` is the set of the values that were kept.
unfoldable pub dedupe_from : List Text → List Text → List Text
dedupe_from seen [] = []
dedupe_from seen (value ∷ values) = elim (is_empty value || contains seen value) [
  | true ↦ dedupe_from seen values
  | false ↦ value ∷ dedupe_from (value ∷ seen) values
]

unfoldable pub dedupe_strings : List Text → List Text
unfolding dedupe_from
dedupe_strings values = dedupe_from [] values

-- The entry that the loop over the nodes stores.
pub node_entry : ℕ → Node → ScheduleEntry
unfolding safe_parallel_kind dedupe_strings
node_entry order node = record {
  item = record {
    address = node.address;
    host = node.host;
    kind = node.kind;
    operation = false;
    safe_parallel = safe_parallel_kind node.kind;
    depends_on = [];
  };
  depends_on = dedupe_strings node.depends_on;
  order = order;
  source = node.source;
  dependency_sources = node.dependency_sources;
}

pub operation_entry : ℕ → Operation → ScheduleEntry
unfolding dedupe_strings
operation_entry order op = record {
  item = record {
    address = op.address;
    host = op.host;
    kind = text "operation";
    operation = true;
    safe_parallel = false;
    depends_on = [];
  };
  depends_on = dedupe_strings op.depends_on;
  order = order;
  source = op.source;
  dependency_sources = [];
}

abbrev pub Entries : Type 0
Entries = Dict ScheduleEntry

pub add_nodes : List Node → ℕ → Entries → Result ScheduleError (ℕ × Entries)
add_nodes [] order entries = ok (order, entries)
add_nodes (node ∷ nodes) order entries =
    let rest = add_nodes nodes (order + 1) (insert node.address (node_entry order node) entries) in
    if is_empty node.address
    then err node_empty_address
    else if has node.address entries
    then err (duplicate_address node.address)
    else rest

pub add_operations : List Operation → ℕ → Entries → Result ScheduleError Entries
add_operations [] order entries = ok entries
add_operations (op ∷ ops) order entries =
    let rest =
      add_operations ops (order + 1) (insert op.address (operation_entry order op) entries) in
    if is_empty op.address
    then err operation_empty_address
    else if is_empty op.host
    then err (operation_empty_host op.address)
    else if has op.address entries
    then err (duplicate_address op.address)
    else rest

-- The first of the addresses that is no key of the entries.
pub first_unknown : Entries → List Text → Option Text
first_unknown entries [] = none
first_unknown entries (dep ∷ deps) =
    if has dep entries then first_unknown entries deps else some dep

pub check_dependencies : Entries → Entries → Result ScheduleError (Unit {0})
check_dependencies entries [] = ok tt
check_dependencies entries ((address, entry) ∷ rest) =
    elim (first_unknown entries entry.depends_on) [
      | some dep ↦ err (unknown_dependency address dep)
      | none ↦ check_dependencies entries rest
    ]

pub check_triggers : Entries → List Operation → Result ScheduleError (Unit {0})
check_triggers entries [] = ok tt
check_triggers entries (op ∷ ops) = elim (first_unknown entries (dedupe_strings op.triggered_by)) [
  | some trigger ↦ err (unknown_trigger op.address trigger)
  | none ↦ check_triggers entries ops
]

unfoldable pub schedule_entries : ResourceGraph → Result ScheduleError Entries
unfolding add_nodes add_operations first_unknown check_dependencies check_triggers node_entry
    operation_entry dedupe_strings
schedule_entries g = do
  (order, nodes) ← add_nodes g.nodes 0 []
  entries ← add_operations g.operations order nodes
  _ ← check_dependencies entries entries
  _ ← check_triggers entries g.operations
  ok entries
