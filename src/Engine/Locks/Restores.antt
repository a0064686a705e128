-- ===== src/Engine/Locks/Restores.antt =====
-- What lockHosts takes, and what withHostLocks of internal/core/engine/engine.go leaves locked.
use mathlib.Core.List.{Perm, append-nil, append_assoc}
use debianform.Base.{
  reversed, Text, ℕ, List, [], ◌∷◌, ◌++◌, Option, none, some, Bool, true, false, not, ◌&&◌, ◌≡◌,
  refl, sym, ◌∙◌, ◌⊎◌, Result, ok, err, arith, inl, inr,
}
use debianform.Ir.{HostSpec}
use debianform.Engine.{EngineError, unlock_failed}
use debianform.Engine.Hosts.{Event, run_hosts}
use debianform.Engine.Hosts.Sequential.{run_in_order, run_in_order_cons, run_hosts-Sequential}
use debianform.Engine.Locks.{
  LockService, Locking, lock_host, unlock_each, unlock_hosts, lock_hosts, with_host_locks,
  lease_errors,
}
use debianform.Engine.Locks.Held.{IsHeld, unlock_hosts_frees, run_hosts-IsHeld}

abbrev is_unlock_failure : EngineError → Bool
is_unlock_failure (unlock_failed host e) = true
is_unlock_failure e = false

-- No error tells of an unlocking that failed.
abbrev pub unlocks : List EngineError → Bool
unlocks [] = true
unlocks (e ∷ errors) = not (is_unlock_failure e) && unlocks errors

unlocks-append : (xs ys : List EngineError) → unlocks (xs ++ ys) ≡ true → unlocks ys ≡ true
unlocks-append [] ys h = h
unlocks-append (x ∷ xs) ys h = unlocks-append xs ys (ground (arith, h))

module _ {S : Type 0} (service : LockService S) where
  unlock_each-unlocks :
      (hosts : List HostSpec) (s : S)
      → unlocks (unlock_each service hosts s).1 ≡ true
      → (unlock_each service hosts s).1 ≡ []
  unfolding unlock_each
  unlock_each-unlocks [] s h = refl
  unlock_each-unlocks (host ∷ hosts) s h =
      go ((service.unlock host.name s).1) refl
        (unlock_each-unlocks hosts (service.unlock host.name s).0)
    where
      go :
          (o : Option EngineError)
          → (service.unlock host.name s).1 ≡ o
          → (unlocks (unlock_each service hosts (service.unlock host.name s).0).1 ≡ true
              → (unlock_each service hosts (service.unlock host.name s).0).1 ≡ [])
          → (unlock_each service (host ∷ hosts) s).1 ≡ []
      go none e later = rw (unlock_each, e) (later (rw (unlock_each, e) at h))
      go (some problem) e later =
          let failed : false ≡ true = rw (unlock_each, e) at h in absurd (ground (arith, failed))

  unlock_hosts-unlocks :
      (locks : List HostSpec) (s : S)
      → unlocks (unlock_hosts service locks s).1 ≡ true
      → (unlock_hosts service locks s).1 ≡ []
  unfolding unlock_hosts
  unlock_hosts-unlocks locks s h = unlock_each-unlocks (reversed locks) s h

  lock_host_taken :
      (b : Bool) (host : HostSpec) (s : S) (locks : List HostSpec)
      → (lock_host service b host (s, locks)).1 ≡ none
      → (lock_host service b host (s, locks)).0
        ≡ ((service.lock b host.name s).0, locks ++ host ∷ [])
  unfolding lock_host
  lock_host_taken b host s locks h = go ((service.lock b host.name s).1) refl
    where
      go :
          (o : Option EngineError)
          → (service.lock b host.name s).1 ≡ o
          → (lock_host service b host (s, locks)).0
            ≡ ((service.lock b host.name s).0, locks ++ host ∷ [])
      go none e = rw (lock_host, e) refl
      go (some problem) e = absurd (ground (arith, h, e))

  -- The locks of a run in some order.
  locks_in_order :
      (order : List HostSpec) (s s' : S) (locks locks' : List HostSpec)
      → run_in_order (lock_host service) order (s, locks) ≡ some (s', locks')
      → locks' ≡ locks ++ order
  locks_in_order [] s s' locks locks' h =
      let same : locks ≡ locks' = unfold run_in_order in ground (arith, h) in
      rw (append-nil locks) (sym same)
  locks_in_order (host ∷ order) s s' locks locks' h =
      let (taken, later) =
        run_in_order_cons (lock_host service) host order (s, locks) (s', locks') h in
      let next = lock_host_taken false host s locks taken in
      let t = (service.lock false host.name s).0 in
      let all : locks' ≡ (locks ++ host ∷ []) ++ order =
        locks_in_order order t s' (locks ++ host ∷ []) locks' (rw next at later) in
      all ∙ append_assoc locks (host ∷ []) order

  -- The ways in which lockHosts can end.
  lock_hosts_cases :
      (parallel : ℕ) (events : List Event) (hosts : List HostSpec) (s : S)
      (final : S × Result (List EngineError) (List HostSpec))
      → lock_hosts service parallel events hosts s ≡ some final
      → (world : Locking S) × (((run_hosts (lock_host service) parallel events hosts (s, [])
              ≡ some (world, none))
            × (final ≡ (world.0, ok world.1)))
          ⊎ ((problem : EngineError) × (run_hosts (lock_host service) parallel events hosts (s, [])
                ≡ some (world, some problem))
              × (final ≡ (
                (unlock_hosts service world.1 world.0).0,
                err (problem ∷ (unlock_hosts service world.1 world.0).1),
              ))))
  unfolding lock_hosts
  lock_hosts_cases parallel events hosts s final h =
      go (run_hosts (lock_host service) parallel events hosts (s, [])) refl
    where
      go :
          (o : Option (Locking S × Option EngineError))
          → run_hosts (lock_host service) parallel events hosts (s, []) ≡ o
          → (world : Locking S) × (((run_hosts (lock_host service) parallel events hosts (s, [])
                  ≡ some (world, none))
                × (final ≡ (world.0, ok world.1)))
              ⊎ ((problem : EngineError) × (run_hosts
                      (lock_host service)
                      parallel
                      events
                      hosts
                      (s, [])
                    ≡ some (world, some problem))
                  × (final ≡ (
                    (unlock_hosts service world.1 world.0).0,
                    err (problem ∷ (unlock_hosts service world.1 world.0).1),
                  ))))
      go none e = absurd (ground (arith, h, e))
      go (some ((s', locks), none)) e =
          let same : some (s', ok locks) ≡ some final = rw (lock_hosts, e) at h in
          ((s', locks), inl (e, ground (arith, same)))
      go (some ((s', locks), some problem)) e =
          let u = unlock_hosts service locks s' in
          let same : some (u.0, err (problem ∷ u.1)) ≡ some final = rw (lock_hosts, e) at h in
          ((s', locks), inr (problem, e, ground (arith, same)))

-- Where lockHosts succeeds, the locks that it returns are those of the hosts, each once, in the
-- order in which they were taken; each of these hosts was free and is locked now, and every other
-- host is locked or free as before.
pub lock_hosts-IsHeld :
    {S : Type 0} (service : LockService S) (parallel : ℕ) (events : List Event)
    (hosts locks : List HostSpec) (s s' : S)
    → lock_hosts service parallel events hosts s ≡ some (s', ok locks)
    → Perm locks hosts × IsHeld service (λ x. service.is_locked x s) (s', locks)
lock_hosts-IsHeld service parallel events hosts locks s s' h =
    let (world, ends) = lock_hosts_cases service parallel events hosts s (s', ok locks) h in
    elim ends [
      | inr (problem, _, same) ↦ absurd (ground (arith, same))
      | inl (e, same) ↦
          let final : world ≡ (s', locks) = ground (arith, same) in
          let run : run_hosts (lock_host service) parallel events hosts (s, [])
              ≡ some ((s', locks), none) =
            rw final at e in
          let (order, p, in_order) =
            run_hosts-Sequential (lock_host service) parallel events hosts (s, []) (s', locks)
              run in
          let all : locks ≡ order = locks_in_order service order s s' [] locks in_order in
          (
            rw all p,
            run_hosts-IsHeld service (λ x. service.is_locked x s) parallel events hosts s
                (s', locks) none (λ x. refl) run,
          )
    ]

lock_failed_restores :
    {S : Type 0} (service : LockService S) (parallel : ℕ) (events : List Event)
    (hosts : List HostSpec) (problems : List EngineError) (s s' : S)
    → lock_hosts service parallel events hosts s ≡ some (s', err problems)
    → unlocks problems ≡ true
    → (x : Text) → service.is_locked x s' ≡ service.is_locked x s
lock_failed_restores service parallel events hosts problems s s' h fine x =
    let (world, ends) = lock_hosts_cases service parallel events hosts s (s', err problems) h in
    elim ends [
      | inl (_, same) ↦ absurd (ground (arith, same))
      | inr (problem, e, same) ↦
          let u = unlock_hosts service world.1 world.0 in
          let all : problems ≡ problem ∷ u.1 = ground (arith, same) in
          let final : s' ≡ u.0 = ground (arith, same) in
          let fine' : unlocks u.1 ≡ true = unlocks-append (problem ∷ []) u.1 (rw all at fine) in
          let held =
            run_hosts-IsHeld service (λ y. service.is_locked y s) parallel events hosts s world
              (some problem) (λ y. refl) e in
          rw final (
            unlock_hosts_frees service (λ y. service.is_locked y s) world.1 world.0 held
              (unlock_hosts-unlocks service world.1 world.0 fine') x)
    ]

-- What withHostLocks leaves locked, however the locking and the body end: where the body leaves the
-- locks alone and no unlocking is reported to have failed, every host is locked or free as before.
pub with_host_locks_restores :
    {S A : Type 0} (service : LockService S) (no_plan : A) (lease_error : S → Option EngineError)
    (is_among : EngineError → List EngineError → Bool) (parallel : ℕ) (events : List Event)
    (hosts : List HostSpec) (body : S → S × A × List EngineError) (s s' : S) (plan : A)
    (errors : List EngineError)
    → ((x : Text) (t : S) → service.is_locked x (body t).0 ≡ service.is_locked x t)
    → with_host_locks service no_plan lease_error is_among parallel events hosts body s
      ≡ some (s', plan, errors)
    → unlocks errors ≡ true
    → (x : Text) → service.is_locked x s' ≡ service.is_locked x s
unfolding with_host_locks
with_host_locks_restores {S} {A} service no_plan lease_error is_among parallel events hosts body s
      s' plan errors apart h fine x =
    go (lock_hosts service parallel events hosts s) refl
  where
    go :
        (o : Option (S × Result (List EngineError) (List HostSpec)))
        → lock_hosts service parallel events hosts s ≡ o
        → service.is_locked x s' ≡ service.is_locked x s
    go none e = absurd (ground (arith, h, e))
    go (some (t, err problems)) e =
        let same : some (t, no_plan, problems) ≡ some (s', plan, errors) =
          rw (with_host_locks, e) at h in
        let final : t ≡ s' = ground (arith, same) in
        let all : problems ≡ errors = ground (arith, same) in
        rw (← final)
          (lock_failed_restores service parallel events hosts problems s t e (rw (← all) at fine) x)
    go (some (t, ok locks)) e =
        let (t1, made, problems) = body t in
        let u = unlock_hosts service locks t1 in
        let (_, held) = lock_hosts-IsHeld service parallel events hosts locks s t e in
        let still : IsHeld service (λ y. service.is_locked y s) (t1, locks) =
          λ y. rw (apart y t) (held y) in
        let lease = lease_errors service is_among (lease_error u.0) u.1 in
        let same : some (u.0, made, (problems ++ lease) ++ u.1) ≡ some (s', plan, errors) =
          rw (with_host_locks, e) at h in
        let final : u.0 ≡ s' = ground (arith, same) in
        let all : (problems ++ lease) ++ u.1 ≡ errors = ground (arith, same) in
        let fine' : unlocks u.1 ≡ true =
          unlocks-append (problems ++ lease) u.1 (rw (← all) at fine) in
        rw (← final) (
          unlock_hosts_frees service (λ y. service.is_locked y s) locks t1 still
            (unlock_hosts-unlocks service locks t1 fine') x)
