-- ===== src/Tests/Prepared.antt =====
-- The preparation of the states of two hosts, with a backend that has nothing recorded.
use debianform.Engine.Hosts.{
  run_hosts, is_done, perform_all, perform, take_at, worker_count, finished, outcome,
}
use debianform.Base.{text_eq, sort_stable}
use debianform.State.Moves.Resolve.{resolve_moves}
use debianform.Engine.Preparation.{same_moves, sort_realized_moves, moves_of}
use debianform.Base.Dict.{lookup}
use debianform.Base.{text, ℕ, suc, [], Option, none, some, ◌≡◌, refl, ok, contains}
use debianform.Base.Dict.{Dict, has}
use debianform.State.{State, empty}
use debianform.Engine.{EngineError}
use debianform.Engine.Locks.Held.{names_of}
use debianform.Engine.Preparation.{Store, prepare_host_states}
use debianform.Engine.Preparation.Hosts.{prepare_host_states-has}
use debianform.Tests.{hashing, small_graph}
use debianform.Tests.Hosts.{web_and_db, db_first}

-- The world counts the readings.
abbrev blank_store : Store ℕ
blank_store = record {
  read = λ host count. (suc count, ok (empty host));
  write = λ host st count. (count, ok st);
}

abbrev table_of : Option ((ℕ × Dict State) × Option EngineError) → Dict State
table_of none = []
table_of (some ((count, prepared), e)) = prepared

abbrev two_prepared : Dict State
two_prepared =
    table_of (prepare_host_states hashing small_graph blank_store [] 2 db_first web_and_db 0)

two_prepared_made :
    prepare_host_states hashing small_graph blank_store [] 2 db_first web_and_db 0
    ≡ some ((2, two_prepared), none)
unfolding prepare_host_states run_hosts is_done perform_all perform take_at worker_count finished
    text empty text_eq resolve_moves same_moves sort_realized_moves sort_stable moves_of lookup
    outcome
two_prepared_made = refl

prepare_host_states-has_example :
    has (text "db") two_prepared ≡ contains (names_of web_and_db) (text "db")
prepare_host_states-has_example =
    prepare_host_states-has hashing small_graph blank_store [] 2 db_first web_and_db 0 2
      two_prepared (text "db") two_prepared_made
