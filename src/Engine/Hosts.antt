-- ===== src/Engine/Hosts.antt =====
-- The worker pool over the hosts: runHosts of internal/core/engine/engine.go, and
-- boundedHostParallel of internal/core/engine/facts.go.
--
-- What the scheduler of the threads decides is a list of events: a free worker takes the next host,
-- the call of one of the busy workers takes effect, the caller's context is cancelled, or the
-- sender sees the cancelled context. An event that cannot happen changes nothing. The effect of
-- one call is one step; the call knows whether the context is cancelled at that time.
pub mod Steps
pub mod Progress
pub mod Sequential
pub mod Keeps
use debianform.Base.{
  ℕ, zero, suc, ◌+◌, List, [], ◌∷◌, ◌++◌, Option, none, some, Bool, true, false, not, ◌&&◌,
  if◌then◌else◌, length, ltb,
}
use debianform.Engine.{EngineError, cancelled}

pub data Event : Type 0 where
  send stop cancel : Event
  finish : ℕ → Event

pub record Workers (H S : Type 0) : Type 0 where
  pub waiting : List H
  pub busy : List H
  pub is_cancelled : Bool
  pub errors : List EngineError
  pub world : S

abbrev pub is_nil : {A : Type 0} → List A → Bool
is_nil [] = true
is_nil (x ∷ xs) = false

-- The n-th item, and the others.
unfoldable pub take_at : {A : Type 0} → ℕ → List A → Option (A × List A)
take_at n [] = none
take_at zero (x ∷ xs) = some (x, xs)
take_at (suc n) (x ∷ xs) = elim (take_at n xs) [
  | none ↦ none
  | some (y, others) ↦ some (y, x ∷ others)
]

-- defaultHostParallel
abbrev pub default_host_parallel : ℕ
default_host_parallel = 4

-- boundedHostParallel; the default is at least one.
unfoldable pub bounded_host_parallel : ℕ → ℕ → ℕ
bounded_host_parallel parallel hosts =
    if ltb hosts 1
    then 1
    else (let wanted = if ltb parallel 1 then default_host_parallel else parallel in
        let least = if ltb wanted 1 then 1 else wanted in if ltb hosts least then hosts else least)

-- The number of workers of runHosts.
unfoldable pub worker_count : ℕ → ℕ → ℕ
worker_count parallel hosts =
    let wanted = if ltb parallel 1 then hosts else parallel in
    if ltb hosts wanted then hosts else wanted

module _ {H S : Type 0} where
  unfoldable pub is_done : Workers H S → Bool
  is_done w = is_nil w.waiting && is_nil w.busy

  -- The first error, or that of the context.
  unfoldable pub outcome : Workers H S → Option EngineError
  outcome w = elim w.errors [
    | first ∷ others ↦ some first
    | [] ↦ if w.is_cancelled then some cancelled else none
  ]

  abbrev pub waiting_hosts : List H → S → Workers H S
  waiting_hosts hosts s = record {
    waiting = hosts;
    busy = [];
    is_cancelled = false;
    errors = [];
    world = s;
  }

  module _ (call : Bool → H → S → S × Option EngineError) where
    -- A call has ended: an error goes to the channel and cancels the context.
    unfoldable pub finished : Workers H S → H → List H → Workers H S
    finished w host others =
        let (s, e) = call w.is_cancelled host w.world in
        elim e [
          | none ↦ record w { busy = others; world = s }
          | some problem ↦ record {
            waiting = w.waiting;
            busy = others;
            is_cancelled = true;
            errors = w.errors ++ problem ∷ [];
            world = s;
          }
        ]

    unfoldable pub perform : ℕ → Workers H S → Event → Workers H S
    perform limit w send = elim w.waiting [
      | [] ↦ w
      | host ∷ rest ↦
          if ltb (length w.busy) limit
          then record w { waiting = rest; busy = w.busy ++ host ∷ [] }
          else w
    ]
    perform limit w (finish n) = elim (take_at n w.busy) [
      | none ↦ w
      | some (host, others) ↦ finished w host others
    ]
    perform limit w cancel = record w { is_cancelled = true }
    perform limit w stop = if w.is_cancelled then record w { waiting = [] } else w

    unfoldable pub perform_all : ℕ → List Event → Workers H S → Workers H S
    perform_all limit [] w = w
    perform_all limit (event ∷ events) w = perform_all limit events (perform limit w event)

    -- runHosts; no result where the events do not bring it to its end.
    unfoldable pub run_hosts : ℕ → List Event → List H → S → Option (S × Option EngineError)
    run_hosts parallel events [] s = some (s, none)
    run_hosts parallel events (first ∷ others) s =
        let hosts = first ∷ others in
        let w = perform_all (worker_count parallel (length hosts)) events (waiting_hosts hosts s) in
        if is_done w then some (w.world, outcome w) else none
