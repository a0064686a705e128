-- ===== src/Engine/Hosts/Keeps.antt =====
-- What every call keeps, the worker pool of internal/core/engine/engine.go keeps.
use debianform.Base.{
  ℕ, List, [], ◌∷◌, Option, none, some, Bool, length, ◌≡◌, refl, arith, inl, inr, Bool-cases,
}
use debianform.Engine.{EngineError}
use debianform.Engine.Hosts.{
  Event, send, stop, cancel, finish, Workers, worker_count, finished, perform, perform_all,
  run_hosts, waiting_hosts,
}
use debianform.Engine.Hosts.Steps.{perform-send, perform-finish}
use debianform.Engine.Hosts.Sequential.{run_hosts_end}

module _ {H S : Type 0} (call : Bool → H → S → S × Option EngineError) (P : S → Type 0)
    (keeps : (b : Bool) (host : H) (s : S) → P s → P (call b host s).0) where
  world-finished :
      (w : Workers H S) (host : H) (others : List H)
      → (finished call w host others).world ≡ (call w.is_cancelled host w.world).0
  unfolding finished
  world-finished w host others = go ((call w.is_cancelled host w.world).1) refl
    where
      go :
          (o : Option EngineError)
          → (call w.is_cancelled host w.world).1 ≡ o
          → (finished call w host others).world ≡ (call w.is_cancelled host w.world).0
      go none e = rw (finished, e) refl
      go (some problem) e = rw (finished, e) refl

  perform_keeps :
      (limit : ℕ) (w : Workers H S) (event : Event)
      → P w.world
      → P (perform call limit w event).world
  unfolding perform
  perform_keeps limit w send h = elim (perform-send call limit w) [
    | inl (same, _) ↦ rw same h
    | inr (host, rest, e, free, same) ↦ rw same h
  ]
  perform_keeps limit w (finish n) h = elim (perform-finish call limit n w) [
    | inl (same, _) ↦ rw same h
    | inr (host, others, e, same) ↦
        rw (same, world-finished w host others) (keeps w.is_cancelled host w.world h)
  ]
  perform_keeps limit w cancel h = h
  perform_keeps limit w stop h = elim (Bool-cases w.is_cancelled) [
    | inl e ↦ rw e h
    | inr e ↦ rw e h
  ]

  perform_all_keeps :
      (limit : ℕ) (events : List Event) (w : Workers H S)
      → P w.world
      → P (perform_all call limit events w).world
  unfolding perform_all
  perform_all_keeps limit [] w h = h
  perform_all_keeps limit (event ∷ events) w h =
      perform_all_keeps limit events (perform call limit w event) (perform_keeps limit w event h)

  pub run_hosts_keeps :
      (parallel : ℕ) (events : List Event) (hosts : List H) (s s' : S) (result : Option EngineError)
      → run_hosts call parallel events hosts s ≡ some (s', result)
      → P s
      → P s'
  unfolding run_hosts
  run_hosts_keeps parallel events [] s s' result e h =
      let same : s ≡ s' = ground (arith, e) in rw (← same) h
  run_hosts_keeps parallel events (first ∷ others) s s' result e h =
      let (w, same, _, world, _) = run_hosts_end call parallel events first others s s' result e in
      let kept : P w.world = rw same (
        perform_all_keeps (worker_count parallel (length (first ∷ others))) events
          (waiting_hosts (first ∷ others) s) h) in
      rw world at kept
