-- ===== src/Graph/Waves/Whole.antt =====
-- The whole graph: Waves, TopologicalSort and Validate.
use debianform.Base.{
  ◌↔◌, Text, ◌<◌, List, [], ◌∷◌, ◌++◌, ◌≡◌, refl, ◌∙◌, ◌⊎◌, inl, inr, arith, count, Result, ok, err,
  SameItems, none,
}
use debianform.Base.Dict.{Dict, keys, get}
use debianform.Ir.{SourceRef}
use debianform.Graph.{ResourceGraph}
use debianform.Graph.Schedule.{
  ScheduleItem, ScheduleError, Entries, zero_entry, cycle, schedule_entries,
}
use debianform.Graph.Schedule.Table.{IsTable, schedule_entries-IsTable, graph_addresses}
use debianform.Graph.Schedule.Named.{schedule_entries-IsNamed}
use debianform.Graph.Acyclic.{deps_of, validate_acyclic}
use debianform.Graph.Acyclic.Walks.{DependsOn, IsCycle}
use debianform.Graph.Acyclic.Search.{IsOrdered}
use debianform.Graph.Acyclic.Decide.{HasOrder, validate_acyclic_decides, no-IsCycle_of_HasOrder}
use debianform.Graph.Kahn.Complete.{Edge, Orders}
use debianform.Graph.Waves.{
  active_edges, active_dependencies, active_dependencies_with_aliases, is_active, append_waves,
  run_waves, active_entries, schedule_waves_with_aliases, waves, validate, topological_sort,
}
use debianform.Graph.Waves.Sorted.{Behind, Sorted, Sorted-append_waves}
use debianform.Graph.Waves.Run.{addresses, Follows, Orderable, run_waves-Decides}

all_dependencies : (deps : List Text) → active_dependencies none deps ≡ deps
unfolding active_dependencies is_active
all_dependencies [] = refl
all_dependencies (d ∷ deps) = λ i. d ∷ all_dependencies deps i

abbrev all_edges : Entries → Dict (List Text)
all_edges entries = active_edges none [] entries

get-all_edges :
    (x : Text) (entries : Entries)
    → get [] x (all_edges entries) ≡ (get zero_entry x entries).depends_on
unfolding active_edges get is_active active_dependencies_with_aliases
get-all_edges x [] = refl
get-all_edges x ((y, e) ∷ entries) =
    ground (arith, get-all_edges x entries, all_dependencies e.depends_on)

keys-all_edges : (entries : Entries) → keys (all_edges entries) ≡ keys entries
unfolding active_edges keys is_active
keys-all_edges [] = refl
keys-all_edges ((y, e) ∷ entries) = λ i. y ∷ keys-all_edges entries i

-- The waves run through the addresses of the graph, each once, and every item comes in a later
-- wave than all that it depends on.
pub record IsTopological (g : ResourceGraph) (entries : Entries) (found : List (List ScheduleItem))
    : Type 0 where
  pub each_once : SameItems (addresses (append_waves found)) (graph_addresses g)
  pub behind : Behind entries [] found

module _ (entries : Entries) where
  Edge-of : (x d : Text) → DependsOn entries x d → Edge (all_edges entries) x d
  unfolding deps_of
  Edge-of x d h = rw (get-all_edges x entries) h

  depends_of : (x d : Text) → Edge (all_edges entries) x d → DependsOn entries x d
  unfolding deps_of
  depends_of x d h = rw (get-all_edges x entries) at h

  Behind-Follows :
      (done : List Text) (found : List (List ScheduleItem))
      → Follows (all_edges entries) done found
      → Behind entries done found
  Behind-Follows done [] f = tt
  Behind-Follows done (wave ∷ rest) (now, f) =
      ((λ x d h k. now x d h (Edge-of x d k)), Behind-Follows (addresses wave ++ done) rest f)

  Orders-IsOrdered :
      (order : List Text) → IsOrdered entries order → Orders (all_edges entries) order
  Orders-IsOrdered [] o = tt
  Orders-IsOrdered (x ∷ older) (first, o) =
      ((λ d h. first d (depends_of x d h)), Orders-IsOrdered older o)

  Orderable-of :
      ((x d : Text) → DependsOn entries x d → 0 < count d (keys entries))
      → HasOrder entries
      → Orderable (all_edges entries)
  Orderable-of known (order, o, full) = (
    order,
    Orders-IsOrdered order o,
    (λ x d h. rw (keys-all_edges entries) (known x d (depends_of x d h))),
    λ x h. full x (rw (keys-all_edges entries) at h),
  )

-- What Waves answers for a graph whose entries are in order.
abbrev pub Answers :
    ResourceGraph → Entries → Result ScheduleError (List (List ScheduleItem)) → Type 0
Answers g entries r =
    ((found : List (List ScheduleItem)) × (r ≡ ok found) × IsTopological g entries found)
    ⊎ ((path : List Text) × (source : SourceRef) × (r ≡ err (cycle path source))
        × IsCycle entries path)

module _ (g : ResourceGraph) (entries : Entries) (built : schedule_entries g ≡ ok entries) where
  table : IsTable g entries
  table = schedule_entries-IsTable g entries built

  ordered_case :
      validate_acyclic entries ≡ ok tt
      → HasOrder entries
      → Answers g entries (run_waves none [] entries)
  unfolding table
  ordered_case passed has_order =
      let named = schedule_entries-IsNamed g entries built in
      elim (run_waves-Decides none [] entries named table.distinct) [
        | inl (found, e, s) ↦ inl (
          found,
          e,
          record {
            each_once = λ a. s.each_once a ∙ rw (keys-all_edges entries) (table.same a);
            behind = Behind-Follows entries [] found s.follows;
          },
        )
        | inr (e, stuck) ↦ absurd (stuck (Orderable-of entries table.known has_order))
      ]

  waves_of : validate_acyclic entries ≡ ok tt → waves g ≡ run_waves none [] entries
  unfolding waves schedule_waves_with_aliases active_entries
  waves_of passed = ground (arith, built)

  waves_of_failed : (e : ScheduleError) → validate_acyclic entries ≡ err e → waves g ≡ err e
  unfolding waves schedule_waves_with_aliases
  waves_of_failed e failed = ground (arith, built)

  -- Where the entries can be built, `Waves` either returns waves that hold every address of the
  -- graph once, each behind all that it depends on, or it fails with a cycle error that names a
  -- real cycle. It has no other outcome: its own check for a cycle never fails.
  pub waves_decides : Answers g entries (waves g)
  unfolding table
  waves_decides = elim (validate_acyclic_decides entries table.known) [
    | inl (passed, has_order) ↦ rw (waves_of passed) (ordered_case passed has_order)
    | inr (path, source, failed, walk) ↦
        inr (path, source, waves_of_failed (cycle path source) failed, walk)
  ]

  validate_of : validate g ≡ validate_acyclic entries
  unfolding validate
  validate_of = ground (arith, built)

  -- Where the entries can be built, `Validate` succeeds exactly when no walk along the
  -- dependencies comes back to its first address.
  pub validate_iff_acyclic : (validate g ≡ ok tt) ↔ ((path : List Text) → ¬ IsCycle entries path)
  unfolding table
  validate_iff_acyclic = elim (validate_acyclic_decides entries table.known) [
    | inl (passed, has_order) ↦
        ((λ h. no-IsCycle_of_HasOrder entries has_order), λ h. validate_of ∙ passed)
    | inr (path, source, failed, walk) ↦
        ((λ h. absurd (clash h failed)), λ free. absurd (free path walk))
  ]
    where
      clash : {e : ScheduleError} → validate g ≡ ok tt → validate_acyclic entries ≡ err e → ⊥
      clash h failed = cc (validate_of)

  -- Where the entries can be built, `TopologicalSort` either returns a list that holds every address
  -- of the graph once, in which each item stands behind all that it depends on, or it fails with a
  -- cycle error that names a real cycle.
  pub topological_sort_decides :
      ((items : List ScheduleItem) × (topological_sort g ≡ ok items)
        × SameItems (addresses items) (graph_addresses g)
        × Sorted entries [] items)
      ⊎ ((path : List Text) × (source : SourceRef) × (topological_sort g ≡ err (cycle path source))
          × IsCycle entries path)
  unfolding topological_sort
  topological_sort_decides = elim waves_decides [
    | inl (found, e, sorted) ↦ inl (
      append_waves found,
      ground (arith, e),
      sorted.each_once,
      Sorted-append_waves entries found [] sorted.behind,
    )
    | inr (path, source, e, walk) ↦ inr (path, source, ground (arith, e), walk)
  ]
