-- ===== src/Graph/Kahn.antt =====
-- The scheduling loop that internal/core/graph/schedule.go (scheduleWavesWithAliases) and
-- internal/core/engine/engine.go (orphanExecutionWaves) share: indegrees, dependents, and waves
-- of addresses whose dependencies are all emitted.
--
-- An indegree is counted down and only compared with zero. Go's int would go on below zero where
-- a natural number stays at zero, and in neither case does a later decrement meet zero again.
pub mod Release
pub mod Tally
pub mod Waiting
pub mod Rounds
pub mod Complete
use debianform.Base.{
  Text, ℕ, zero, suc, ◌+◌, ◌-◌, List, [], ◌∷◌, ◌++◌, Option, none, some, length, ◌==◌,
  if◌then◌else◌,
}
use debianform.Base.Dict.{Dict, insert, get}

-- `for _, dep := range activeDeps { dependents[dep] = append(dependents[dep], address) }`
unfoldable pub add_dependents : Text → List Text → Dict (List Text) → Dict (List Text)
add_dependents address [] dependents = dependents
add_dependents address (dep ∷ deps) dependents =
    add_dependents address deps (insert dep (get [] dep dependents ++ address ∷ []) dependents)

-- The loop over the active entries, here the list of their addresses and dependencies.
unfoldable pub tally : Dict (List Text) → Dict ℕ → Dict (List Text) → Dict ℕ × Dict (List Text)
unfolding add_dependents
tally [] indegree dependents = (indegree, dependents)
tally ((address, deps) ∷ edges) indegree dependents =
    tally edges (insert address (length deps) indegree) (add_dependents address deps dependents)

-- The addresses with indegree zero.
unfoldable pub zero_degrees : Dict ℕ → List Text
zero_degrees [] = []
zero_degrees ((address, n) ∷ indegree) =
    if n == 0 then address ∷ zero_degrees indegree else zero_degrees indegree

-- `for _, dependent := range dependents[address]`: one more dependency is emitted.
unfoldable pub release : Dict ℕ → List Text → List Text → Dict ℕ × List Text
release indegree ready [] = (indegree, ready)
release indegree ready (dependent ∷ rest) =
    let n = get 0 dependent indegree in
    release (insert dependent (n - 1) indegree) (if n == 1 then ready ++ dependent ∷ [] else ready)
      rest

-- `for _, address := range waveAddresses`
unfoldable pub run_wave : Dict (List Text) → Dict ℕ → List Text → List Text → Dict ℕ × List Text
unfolding release
run_wave dependents indegree ready [] = (indegree, ready)
run_wave dependents indegree ready (address ∷ rest) =
    let (indegree', ready') = release indegree ready (get [] address dependents) in
    run_wave dependents indegree' ready' rest

-- `for len(ready) > 0`, with fuel; `order` sorts what became ready. `none` means that the fuel ran
-- out.
unfoldable pub rounds :
    (List Text → List Text) → ℕ → Dict (List Text) → Dict ℕ → List Text → Option (List (List Text))
unfolding run_wave
rounds order fuel dependents indegree [] = some []
rounds order zero dependents indegree (address ∷ wave) = none
rounds order (suc fuel) dependents indegree (address ∷ wave) =
    let (indegree', next) = run_wave dependents indegree [] (address ∷ wave) in
    elim (rounds order fuel dependents indegree' (order next)) [
      | none ↦ none
      | some waves ↦ some ((address ∷ wave) ∷ waves)
    ]

-- How many addresses the waves hold.
unfoldable pub emitted : List (List Text) → ℕ
emitted [] = 0
emitted (wave ∷ waves) = length wave + emitted waves

-- Indegrees and dependents are built, the first wave is sorted, and the loop runs.
unfoldable pub address_waves :
    (List Text → List Text) → Dict (List Text) → Option (List (List Text))
unfolding tally zero_degrees rounds
address_waves order edges =
    let (indegree, dependents) = tally edges [] [] in
    rounds order (suc (length edges)) dependents indegree (order (zero_degrees indegree))
