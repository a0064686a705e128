-- ===== src/Engine/Execution.antt =====
-- runExecutionWaves, runExecutionWave and blockedDependency of internal/core/engine/engine.go.
--
-- The items of a wave run at once, and each of them works on the shared state under its host's
-- lock. `arrange` is the order in which they take effect, and `execute` is executeItem. The
-- semaphores only bound how many run at the same time, and their acquisition fails only when the
-- context is cancelled, which is not modelled. `hosts` are those that have a semaphore, the hosts of
-- the program. `started` are the items whose goroutine was started.
pub mod Blocking
pub mod Calls
use debianform.Base.{
  Text, text, List, [], ◌∷◌, ◌++◌, map, Option, none, some, Bool, true, false, not, if◌then◌else◌,
  text_eq, is_empty, ◌&&◌, contains,
}
use debianform.Base.Dict.{Dict, insert, lookup, has}
use debianform.Engine.{EngineError, unknown_host}
use debianform.Engine.Order.{ExecutionItem}

unfoldable pub blocked_dependency : List Text → Dict EngineError → Dict Text → Text
blocked_dependency [] failed blocked = []
blocked_dependency (dep ∷ deps) failed blocked =
    let later = blocked_dependency deps failed blocked in
    if has dep failed
    then dep
    else elim (lookup dep blocked) [ some blocked_by ↦ blocked_by | none ↦ later ]

pub record Run (S : Type 0) : Type 0 where
  pub state : S
  pub failed : Dict EngineError
  pub blocked : Dict Text
  pub first_error : Option EngineError
  pub started : List ExecutionItem

-- The items of a wave that run; the others are recorded as blocked.
unfoldable pub split_wave :
    Dict EngineError → List ExecutionItem → Dict Text → List ExecutionItem × Dict Text
unfolding blocked_dependency
split_wave failed [] blocked = ([], blocked)
split_wave failed (item ∷ rest) blocked =
    let dep = blocked_dependency item.depends_on failed blocked in
    let (runnable, blocked') =
      split_wave failed rest (if is_empty dep then blocked else insert item.address dep blocked) in
    (if is_empty dep then item ∷ runnable else runnable, blocked')

-- The results of the runnable items, in the order of the wave.
unfoldable pub record_results :
    List ExecutionItem
    → Dict (Option EngineError)
    → Dict EngineError
    → Option EngineError
    → Dict EngineError × Option EngineError
record_results [] results failed first_error = (failed, first_error)
record_results (item ∷ rest) results failed first_error =
    let result : Option EngineError = elim (lookup item.address results) [
      | some r ↦ r
      | none ↦ none
    ] in
    record_results rest results
      (elim result [ some e ↦ insert item.address e failed | none ↦ failed ])
      (elim result [
        | none ↦ first_error
        | some e ↦ elim first_error [ none ↦ some e | some first ↦ some first ]
      ])

-- The item names a host that the program does not have.
unfoldable pub refused : List Text → ExecutionItem → Bool
refused hosts item = not (is_empty item.host) && not (contains hosts item.host)

module _ {S : Type 0} (hosts : List Text)
    (execute : ExecutionItem → S → S × Option EngineError) where
  -- The goroutine of an item.
  unfoldable pub run_item : ExecutionItem → S → S × Option EngineError
  unfolding refused
  run_item item s =
      if refused hosts item then (s, some (unknown_host item.address item.host)) else execute item s

module _ {S : Type 0} (hosts : List Text) (execute : ExecutionItem → S → S × Option EngineError)
    (arrange : List ExecutionItem → List ExecutionItem) where
  -- The goroutines of a wave, in the order in which they take effect.
  unfoldable pub run_items :
      List ExecutionItem → S → Dict (Option EngineError) → S × Dict (Option EngineError)
  unfolding run_item
  run_items [] s results = (s, results)
  run_items (item ∷ rest) s results =
      let (s', result) = run_item hosts execute item s in
      run_items rest s' (insert item.address result results)

  unfoldable pub run_execution_wave : List ExecutionItem → Run S → Run S
  unfolding split_wave record_results run_items
  run_execution_wave wave r =
      let (runnable, blocked) = split_wave r.failed wave r.blocked in
      let (state, results) = run_items (arrange runnable) r.state [] in
      let (failed, first_error) = record_results runnable results r.failed r.first_error in
      record {
        state = state;
        failed = failed;
        blocked = blocked;
        first_error = first_error;
        started = r.started ++ arrange runnable;
      }

  unfoldable pub run_all : List (List ExecutionItem) → Run S → Run S
  unfolding run_execution_wave
  run_all [] r = r
  run_all (wave ∷ waves) r = run_all waves (run_execution_wave wave r)

  unfoldable pub run_execution_waves : List (List ExecutionItem) → S → Run S
  unfolding run_all
  run_execution_waves waves s =
      run_all waves
        (record { state = s; failed = []; blocked = []; first_error = none; started = [] })
