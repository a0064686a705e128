-- ===== src/Engine/Locks.antt =====
-- The locks of the hosts: lockHosts, unlockHosts and withHostLocks of internal/core/engine/engine.go.
--
-- A backend's locks are an interface: what Lock and Unlock do to the world, and whether a host is
-- locked in it. The laws say that Lock succeeds only on a free host and that neither touches the
-- lock of another one. An unlocking that fails may leave its host in any state. The context of a
-- cleanup cannot be cancelled, and its timeout is one way in which Unlock fails.
pub mod Held
pub mod Restores
pub mod InMemory
use debianform.Base.{
  reversed, Text, ℕ, List, [], ◌∷◌, ◌++◌, Option, none, some, Bool, true, false, if◌then◌else◌, ◌≡◌,
  text_eq, Result, ok, err, map,
}
use debianform.Ir.{HostSpec}
use debianform.Engine.{EngineError, unlock_failed}
use debianform.Engine.Hosts.{Event, run_hosts}

pub record LockService (S : Type 0) : Type 0 where
  pub lock : Bool → Text → S → S × Option EngineError
  pub unlock : Text → S → S × Option EngineError
  pub is_locked : Text → S → Bool
  pub lock_takes :
      (b : Bool) (host : Text) (s : S)
      → (lock b host s).1 ≡ none
      → (is_locked host s ≡ false) × (is_locked host (lock b host s).0 ≡ true)
  pub lock_refused :
      (b : Bool) (host : Text) (s : S) (e : EngineError)
      → (lock b host s).1 ≡ some e
      → is_locked host (lock b host s).0 ≡ is_locked host s
  pub lock_apart :
      (b : Bool) (host other : Text) (s : S)
      → text_eq host other ≡ false
      → is_locked other (lock b host s).0 ≡ is_locked other s
  pub unlock_frees :
      (host : Text) (s : S) → (unlock host s).1 ≡ none → is_locked host (unlock host s).0 ≡ false
  pub unlock_apart :
      (host other : Text) (s : S)
      → text_eq host other ≡ false
      → is_locked other (unlock host s).0 ≡ is_locked other s

-- The locks that are held, by host, and the world.
abbrev pub Locking : Type 0 → Type 0
Locking S = S × List HostSpec

module _ {S : Type 0} (service : LockService S) where
  -- The function that lockHosts gives to runHosts.
  unfoldable pub lock_host : Bool → HostSpec → Locking S → Locking S × Option EngineError
  lock_host is_cancelled host (s, locks) =
      let (s', e) = service.lock is_cancelled host.name s in
      elim e [
        | none ↦ ((s', locks ++ host ∷ []), none)
        | some problem ↦ ((s', locks), some problem)
      ]

  -- The loop of unlockHostsWithTimeout, over the locks in the order in which they are released.
  unfoldable pub unlock_each : List HostSpec → S → S × List EngineError
  unlock_each [] s = (s, [])
  unlock_each (host ∷ rest) s =
      let (s', e) = service.unlock host.name s in
      let (s'', errors) = unlock_each rest s' in
      elim e [
        | none ↦ (s'', errors)
        | some problem ↦ (s'', unlock_failed host.name problem ∷ errors)
      ]

  -- unlockHosts: the last lock first; the errors are joined.
  unfoldable pub unlock_hosts : List HostSpec → S → S × List EngineError
  unlock_hosts locks s = unlock_each (reversed locks) s

  -- lockHosts: where one lock fails, those that were taken are released.
  unfoldable pub lock_hosts :
      ℕ → List Event → List HostSpec → S → Option (S × Result (List EngineError) (List HostSpec))
  lock_hosts parallel events hosts s = elim (run_hosts lock_host parallel events hosts (s, [])) [
    | none ↦ none
    | some ((s', locks), result) ↦ elim result [
      | none ↦ some (s', ok locks)
      | some problem ↦
          let (s'', errors) = unlock_hosts locks s' in some (s'', err (problem ∷ errors))
    ]
  ]

  -- What is left of the lease's error beside the errors of the unlocking.
  abbrev pub lease_errors :
      (EngineError → List EngineError → Bool)
      → Option EngineError
      → List EngineError
      → List EngineError
  lease_errors is_among none unlock_errors = []
  lease_errors is_among (some e) unlock_errors = if is_among e unlock_errors then [] else e ∷ []

  -- withHostLocks. The body returns a plan and perhaps an error, in a plan of type A; `no_plan` is
  -- the zero one. What the lease monitor has recorded when it stops is `lease_error`, which is
  -- dropped where the errors of the unlocking contain it (`is_among`, for errors.Is).
  unfoldable pub with_host_locks :
      {A : Type 0}
      → A
      → (S → Option EngineError)
      → (EngineError → List EngineError → Bool)
      → ℕ
      → List Event
      → List HostSpec
      → (S → S × A × List EngineError)
      → S
      → Option (S × A × List EngineError)
  with_host_locks no_plan lease_error is_among parallel events hosts body s =
      elim (lock_hosts parallel events hosts s) [
        | none ↦ none
        | some (s', err problems) ↦ some (s', no_plan, problems)
        | some (s', ok locks) ↦
            let (s1, plan, problems) = body s' in
            let (s2, unlock_errors) = unlock_hosts locks s1 in
            let lease = lease_errors is_among (lease_error s2) unlock_errors in
            some (s2, plan, (problems ++ lease) ++ unlock_errors)
      ]
