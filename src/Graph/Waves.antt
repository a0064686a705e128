-- ===== src/Graph/Waves.antt =====
-- scheduleWavesWithAliases of internal/core/graph/schedule.go and the functions that call it.
pub mod Run
pub mod Sorted
pub mod Whole
pub mod Actives
pub mod Forward
use debianform.Base.{
  Text, List, [], ◌∷◌, ◌++◌, map, Option, none, some, Bool, true, false, not, ◌&&◌, length, ◌==◌,
  ltb, if◌then◌else◌, text_eq, text_lt, is_empty, sort_stable, Result, ok, err, ◌>>=◌,
}
use debianform.Base.Dict.{Dict, lookup, insert, get}
use debianform.Graph.{ResourceGraph}
use debianform.Graph.Kahn.{tally, address_waves, emitted}
use debianform.Graph.Schedule.{
  ScheduleItem, ScheduleEntry, Entries, zero_entry, ScheduleError, unknown_active, wave_cycle,
  out_of_fuel, dedupe_strings, schedule_entries,
}
use debianform.Graph.Acyclic.{validate_acyclic}

-- What is active: every entry (a nil map), or the addresses that map to true.
abbrev pub Active : Type 0
Active = Option (Dict Bool)

-- `useAll || active[dep]`
unfoldable pub is_active : Active → Text → Bool
is_active none dep = true
is_active (some active) dep = get false dep active

pub active_dependencies : Active → List Text → List Text
active_dependencies active [] = []
active_dependencies active (dep ∷ deps) =
    let rest = active_dependencies active deps in if is_active active dep then dep ∷ rest else rest

-- The active aliases of an address.
pub active_aliases : Active → Text → Dict Text → List Text
active_aliases active dep [] = []
active_aliases active dep ((alias, base) ∷ aliases) =
    let rest = active_aliases active dep aliases in
    if text_eq base dep && is_active active alias then alias ∷ rest else rest

pub alias_dependencies : Active → Dict Text → List Text → List Text
alias_dependencies active aliases [] = []
alias_dependencies active aliases (dep ∷ deps) =
    let rest = alias_dependencies active aliases deps in
    if is_active active dep then dep ∷ rest else active_aliases active dep aliases ++ rest

unfoldable pub active_dependencies_with_aliases : List Text → Active → Dict Text → List Text
unfolding active_dependencies alias_dependencies active_aliases is_active dedupe_strings
active_dependencies_with_aliases deps none aliases = active_dependencies none deps
active_dependencies_with_aliases deps (some active) aliases =
    dedupe_strings (alias_dependencies (some active) aliases deps)

pub entry_for_active_address : Entries → Dict Text → Text → Option ScheduleEntry
entry_for_active_address entries aliases address = elim (lookup address entries) [
  | some entry ↦ some entry
  | none ↦ let base = get [] address aliases in if is_empty base then none else lookup base entries
]

module _ (entries : Entries) (aliases : Dict Text) (overrides : Dict (List Text)) where
  -- The first loop over the active addresses: each has an entry.
  pub check_active : Dict Bool → Result ScheduleError (Unit {0})
  check_active [] = ok tt
  check_active ((address, enabled) ∷ rest) =
      let later = check_active rest in
      let found : Result ScheduleError (Unit {0}) =
        elim (entry_for_active_address entries aliases address) [
          | none ↦ err (unknown_active address)
          | some entry ↦ later
        ] in
      if not enabled then later else found

  -- The entry under which an active address is scheduled.
  pub active_entry : Dict Bool → Text → ScheduleEntry → ScheduleEntry
  active_entry active address entry =
      let deps : List Text = elim (lookup address overrides) [
        | some given ↦ dedupe_strings given
        | none ↦ entry.depends_on
      ] in
      record entry {
        item = record entry.item { address = address };
        depends_on = active_dependencies_with_aliases deps (some active) aliases;
      }

  pub collect_active : Dict Bool → Dict Bool → Entries → Result ScheduleError Entries
  unfolding active_entry
  collect_active active [] found = ok found
  collect_active active ((address, enabled) ∷ rest) found =
      elim (entry_for_active_address entries aliases address) [
        | none ↦
            if not enabled then collect_active active rest found else err (unknown_active address)
        | some entry ↦ collect_active active rest (
            if not enabled then found else insert address (active_entry active address entry) found)
      ]

  pub active_entries : Active → Result ScheduleError Entries
  unfolding check_active collect_active entry_for_active_address
  active_entries none = ok entries
  active_entries (some active) = do _ ← check_active active; collect_active active active []

-- The dependencies of each active entry that the loop counts.
pub active_edges : Active → Dict Text → Entries → Dict (List Text)
active_edges active aliases [] = []
active_edges active aliases ((address, entry) ∷ found) =
    let rest = active_edges active aliases found in
    if is_active active address
    then (address, active_dependencies_with_aliases entry.depends_on active aliases) ∷ rest
    else rest

-- sortAddressesByOrder: by the entry's order, then by the address.
pub order_before : Entries → Text → Text → Bool
order_before found a b =
    let left = (get zero_entry a found).order in
    let right = (get zero_entry b found).order in
    if left == right then text_lt a b else ltb left right

pub sort_addresses_by_order : Entries → List Text → List Text
unfolding order_before
sort_addresses_by_order found addresses = sort_stable (order_before found) addresses

pub wave_item : Active → Dict Text → Entries → Text → ScheduleItem
wave_item active aliases found address =
    let entry = get zero_entry address found in
    record entry.item {
      depends_on = active_dependencies_with_aliases entry.depends_on active aliases;
    }

pub item_before : ScheduleItem → ScheduleItem → Bool
item_before a b = text_lt a.address b.address

-- A wave's items, sorted by address.
pub wave_items : Active → Dict Text → Entries → List Text → List ScheduleItem
unfolding wave_item item_before
wave_items active aliases found wave =
    sort_stable item_before (map (wave_item active aliases found) wave)

-- The loop over the active entries of a checked graph, and its last check.
pub run_waves : Active → Dict Text → Entries → Result ScheduleError (List (List ScheduleItem))
unfolding active_edges sort_addresses_by_order wave_items
run_waves active aliases found =
    let edges = active_edges active aliases found in
    elim (address_waves (sort_addresses_by_order found) edges) [
      | none ↦ err out_of_fuel
      | some waves ↦
          if emitted waves == length (tally edges [] []).0
          then ok (map (wave_items active aliases found) waves)
          else err wave_cycle
    ]

unfoldable pub schedule_waves_with_aliases :
    ResourceGraph
    → Active
    → Dict Text
    → Dict (List Text)
    → Result ScheduleError (List (List ScheduleItem))
unfolding run_waves active_entries
schedule_waves_with_aliases g active aliases overrides = do
  entries ← schedule_entries g
  _ ← validate_acyclic entries
  found ← active_entries entries aliases overrides active
  run_waves active aliases found

-- Validate
pub validate : ResourceGraph → Result ScheduleError (Unit {0})
validate g = do entries ← schedule_entries g; validate_acyclic entries

pub schedule_waves : ResourceGraph → Active → Result ScheduleError (List (List ScheduleItem))
schedule_waves g active = schedule_waves_with_aliases g active [] []

-- Waves
pub waves : ResourceGraph → Result ScheduleError (List (List ScheduleItem))
unfolding schedule_waves
waves g = schedule_waves g none

-- ActiveWaves
pub active_waves : ResourceGraph → Dict Bool → Result ScheduleError (List (List ScheduleItem))
unfolding schedule_waves
active_waves g active = schedule_waves g (some active)

unfoldable pub append_waves : List (List ScheduleItem) → List ScheduleItem
append_waves [] = []
append_waves (wave ∷ rest) = wave ++ append_waves rest

-- TopologicalSort
pub topological_sort : ResourceGraph → Result ScheduleError (List ScheduleItem)
unfolding waves append_waves
topological_sort g = do found ← waves g; ok (append_waves found)
