-- ===== src/Tests/Hosts.antt =====
-- The worker pool on three numbers, and the locks of two hosts in memory.
use debianform.Engine.Locks.{unlock_hosts, unlock_each}
use debianform.Engine.Memory.{lock, unlock}
use debianform.Base.Dict.{delete}
use debianform.Engine.Locks.InMemory.{memory_unlock}
use debianform.Engine.Hosts.{is_done, perform, take_at, finished, outcome}
use debianform.Engine.Locks.{lock_host}
use debianform.Engine.Locks.InMemory.{memory_lock}
use debianform.Base.Dict.{get, insert}
use debianform.Base.{text_eq}
use debianform.Engine.Hosts.{is_done, perform, take_at, finished, outcome}
use mathlib.Core.List.{Perm}
use debianform.Base.{
  reversed, Text, text, ℕ, ◌+◌, ◌≤◌, List, [], ◌∷◌, ◌++◌, ◌≡◌, refl, Option, none, some, Bool,
  false, true, ok, length, arith,
}
use debianform.Ir.{HostSpec, HostFacts}
use debianform.Engine.{EngineError}
use debianform.Engine.Memory.{MemoryBackend, new_memory_backend}
use debianform.Engine.Hosts.{
  Event, send, finish, cancel, run_hosts, worker_count, bounded_host_parallel, perform_all,
  waiting_hosts,
}
use debianform.Engine.Hosts.Progress.{drain, run_hosts_ends, busy-bounded}
use debianform.Engine.Hosts.Sequential.{run_in_order, run_hosts-Sequential}
use debianform.Engine.Locks.{lock_hosts, with_host_locks}
use debianform.Engine.Locks.InMemory.{memory_locks}
use debianform.Engine.Locks.Held.{IsHeld}
use debianform.Engine.Locks.Restores.{lock_hosts-IsHeld, with_host_locks_restores}

abbrev count_host : Bool → ℕ → ℕ → ℕ × Option EngineError
count_host is_cancelled host total = (host + total, none)

abbrev three_hosts : List ℕ
three_hosts = 1 ∷ 2 ∷ 4 ∷ []

abbrev two_at_once : List Event
two_at_once = send ∷ send ∷ finish 1 ∷ send ∷ finish 0 ∷ finish 0 ∷ []

run_hosts_ends_example :
    (result : ℕ × Option EngineError) × (run_hosts count_host 2
        ((send ∷ cancel ∷ []) ++ drain (length three_hosts + length three_hosts))
        three_hosts
        0
      ≡ some result)
run_hosts_ends_example = run_hosts_ends count_host 2 (send ∷ cancel ∷ []) three_hosts 0

busy-bounded_example :
    let limit = worker_count (bounded_host_parallel 2 (length three_hosts)) (length three_hosts) in
    let w = perform_all count_host limit (send ∷ send ∷ send ∷ []) (waiting_hosts three_hosts 0) in
    (length w.busy ≤ 2) × (length w.busy ≤ length three_hosts)
busy-bounded_example =
    busy-bounded count_host 2 (send ∷ send ∷ send ∷ []) three_hosts 0 (omega arith)

three_counted : run_hosts count_host 2 two_at_once three_hosts 0 ≡ some (7, none)
unfolding run_hosts is_done perform_all perform take_at worker_count finished outcome
three_counted = refl

run_hosts-Sequential_example :
    (order : List ℕ) × Perm order three_hosts × (run_in_order count_host order 0 ≡ some 7)
run_hosts-Sequential_example =
    run_hosts-Sequential count_host 2 two_at_once three_hosts 0 7 three_counted

abbrev pub no_facts : HostFacts
no_facts = record {
  system = record {
    hostname = [];
    distribution = [];
    version = [];
    architecture = [];
    codename = [];
    detected_at = [];
  };
}

abbrev pub a_host : Text → HostSpec
a_host name = record { name = name; facts = no_facts; moves = []; components = [] }

abbrev pub web_and_db : List HostSpec
web_and_db = a_host (text "web") ∷ a_host (text "db") ∷ []

abbrev pub db_first : List Event
db_first = send ∷ send ∷ finish 1 ∷ finish 0 ∷ []

abbrev db_and_web : List HostSpec
db_and_web = a_host (text "db") ∷ a_host (text "web") ∷ []

abbrev both_locked : MemoryBackend
both_locked = record { states = []; locked = (text "db", true) ∷ (text "web", true) ∷ [] }

both_made :
    lock_hosts memory_locks 2 db_first web_and_db new_memory_backend
    ≡ some (both_locked, ok db_and_web)
unfolding lock_hosts run_hosts is_done perform_all perform take_at worker_count finished lock_host
    memory_lock get insert text_eq text outcome
both_made = refl

lock_hosts-IsHeld_example :
    Perm db_and_web web_and_db
    × IsHeld memory_locks
        (λ x. memory_locks.is_locked x new_memory_backend)
        (both_locked, db_and_web)
lock_hosts-IsHeld_example =
    lock_hosts-IsHeld memory_locks 2 db_first web_and_db db_and_web new_memory_backend both_locked
      both_made

-- The body counts nothing and fails.
abbrev idle_body : MemoryBackend → MemoryBackend × ℕ × List EngineError
idle_body b = (b, 3, [])

abbrev no_lease_error : MemoryBackend → Option EngineError
no_lease_error b = none

abbrev never : EngineError → List EngineError → Bool
never e errors = false

all_released :
    with_host_locks memory_locks 0 no_lease_error never 2 db_first web_and_db idle_body
      new_memory_backend
    ≡ some (new_memory_backend, 3, [])
unfolding with_host_locks lock_hosts run_hosts is_done perform_all perform take_at worker_count
    finished lock_host memory_lock get insert text_eq text outcome unlock_hosts unlock_each reversed
    lock memory_unlock unlock delete
all_released = refl

with_host_locks_restores_example :
    memory_locks.is_locked (text "db") new_memory_backend
    ≡ memory_locks.is_locked (text "db") new_memory_backend
with_host_locks_restores_example =
    with_host_locks_restores memory_locks 0 no_lease_error never 2 db_first web_and_db idle_body
      new_memory_backend new_memory_backend 3 [] (λ x t. refl) all_released refl (text "db")
