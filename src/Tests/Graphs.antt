-- ===== src/Tests/Graphs.antt =====
-- The scheduler on the small graph.
use debianform.Base.{
  Text, text, List, [], ◌∷◌, ◌≡◌, refl, ok, err, ◌↔◌, ◌⊎◌, SameItems, contains, text_eq,
}
use debianform.Base.Dict.{has, insert}
use debianform.Ir.{SourceRef}
use debianform.Graph.Schedule.{
  Entries, ScheduleItem, cycle, node_entry, operation_entry, schedule_entries,
}
use debianform.Graph.Schedule.Table.{graph_addresses}
use debianform.Graph.Waves.Sorted.{Sorted}
use debianform.Graph.Waves.Run.{addresses}
use debianform.Graph.Waves.{waves, validate, topological_sort}
use debianform.Graph.Waves.Whole.{
  Answers, waves_decides, validate_iff_acyclic, topological_sort_decides,
}
use debianform.Graph.Acyclic.Walks.{IsCycle}
use debianform.Tests.{base_node, site_node, reload, small_graph}

abbrev small_entries : Entries
small_entries =
    (text "site", node_entry 0 site_node)
    ∷ (text "base", node_entry 1 base_node)
    ∷ (text "reload", operation_entry 2 reload)
    ∷ []

small_entries_built : schedule_entries small_graph ≡ ok small_entries
unfolding schedule_entries text has insert text_eq contains
small_entries_built = refl

waves_decides_example : Answers small_graph small_entries (waves small_graph)
waves_decides_example = waves_decides small_graph small_entries small_entries_built

validate_iff_acyclic_example :
    (validate small_graph ≡ ok tt) ↔ ((path : List Text) → ¬ IsCycle small_entries path)
validate_iff_acyclic_example = validate_iff_acyclic small_graph small_entries small_entries_built

topological_sort_decides_example :
    ((items : List ScheduleItem) × (topological_sort small_graph ≡ ok items)
      × SameItems (addresses items) (graph_addresses small_graph)
      × Sorted small_entries [] items)
    ⊎ ((path : List Text) × (source : SourceRef) × (topological_sort small_graph
          ≡ err (cycle path source))
        × IsCycle small_entries path)
topological_sort_decides_example =
    topological_sort_decides small_graph small_entries small_entries_built
