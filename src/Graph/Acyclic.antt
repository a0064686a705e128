-- ===== src/Graph/Acyclic.antt =====
-- validateAcyclic of internal/core/graph/schedule.go: a depth-first search with three marks.
--
-- The state map is handed from call to call. The stack is pushed before the loop over the
-- dependencies and popped after it, so each call gets its caller's stack, its top first;
-- `stack[stackIndex[address]:]` is the part of it down to `address`. The depth of the recursion is
-- bounded by fuel, one more than the number of entries.
pub mod Walks
pub mod Search
pub mod Decide
use debianform.Base.{
  Text, ℕ, zero, suc, List, [], ◌∷◌, ◌++◌, none, some, length, if◌then◌else◌, text_eq, sort_strings,
  Result, ok, err, ◌>>=◌,
}
use debianform.Base.Dict.{Dict, lookup, insert, keys, get}
use debianform.Ir.{SourceRef}
use debianform.Graph.Schedule.{
  ScheduleEntry, Entries, zero_entry, ScheduleError, cycle, out_of_fuel,
}

pub data Mark : Type 0 where
  unvisited visiting visited : Mark

abbrev pub Marks : Type 0
Marks = Dict Mark

-- `entries[address]`, with the zero entry where there is none.
unfoldable pub entry_at : Entries → Text → ScheduleEntry
entry_at entries address = get zero_entry address entries

unfoldable pub deps_of : Entries → Text → List Text
unfolding entry_at
deps_of entries address = (entry_at entries address).depends_on

-- `stack[start:]`: from `address` up to the top.
pub stack_from : Text → List Text → List Text → List Text
stack_from address [] above = above
stack_from address (x ∷ below) above =
    if text_eq x address then x ∷ above else stack_from address below (x ∷ above)

-- The source that the message of a cycle names.
cycle_source : Entries → Text → List Text → SourceRef
unfolding entry_at
cycle_source entries address [] = (entry_at entries address).source
cycle_source entries address (parent ∷ below) =
    elim (lookup address (entry_at entries parent).dependency_sources) [
      | some source ↦ source
      | none ↦ (entry_at entries address).source
    ]

cycle_error : Entries → Text → List Text → ScheduleError
unfolding stack_from cycle_source
cycle_error entries address stack =
    cycle (stack_from address stack [] ++ address ∷ []) (cycle_source entries address stack)

-- The loop over the dependencies, with `visit` for the recursive call.
pub visit_all :
    (Text → Marks → Result ScheduleError Marks) → List Text → Marks → Result ScheduleError Marks
visit_all visit [] marks = ok marks
visit_all visit (dep ∷ deps) marks = do marks' ← visit dep marks; visit_all visit deps marks'

pub visit : ℕ → Entries → List Text → Text → Marks → Result ScheduleError Marks
unfolding visit_all cycle_error deps_of
visit zero entries stack address marks = err out_of_fuel
visit (suc fuel) entries stack address marks = elim (get unvisited address marks) [
  | visiting ↦ err (cycle_error entries address stack)
  | visited ↦ ok marks
  | unvisited ↦ do
    marks' ←
        visit_all (visit fuel entries (address ∷ stack)) (deps_of entries address)
          (insert address visiting marks)
    ok (insert address visited marks')
]

unfoldable pub validate_acyclic : Entries → Result ScheduleError (Unit {0})
unfolding visit
validate_acyclic entries = do
  _ ← visit_all (visit (suc (length entries)) entries []) (sort_strings (keys entries)) []
  ok tt
