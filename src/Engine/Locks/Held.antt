-- ===== src/Engine/Locks/Held.antt =====
-- Which hosts are locked during lockHosts and unlockHosts of internal/core/engine/engine.go.
use debianform.Base.{
  reversed, Text, ℕ, ◌+◌, List, [], ◌∷◌, ◌++◌, Option, none, some, Bool, true, false, ◌≡◌, refl,
  text_eq, text_eq_iff, count, count-append, arith, ◌⊎◌, inl, inr, Bool-cases,
}
use mathlib.Core.Path.{subst}
use debianform.Ir.{HostSpec}
use debianform.Engine.{EngineError}
use debianform.Engine.Hosts.{Event, run_hosts}
use debianform.Engine.Hosts.Keeps.{run_hosts_keeps}
use debianform.Engine.Locks.{LockService, Locking, lock_host, unlock_each, unlock_hosts}

unfoldable pub names_of : List HostSpec → List Text
names_of [] = []
names_of (host ∷ hosts) = host.name ∷ names_of hosts

pub names_of-append : (xs ys : List HostSpec) → names_of (xs ++ ys) ≡ names_of xs ++ names_of ys
unfolding names_of
names_of-append [] ys = refl
names_of-append (x ∷ xs) ys = cc (names_of-append xs ys)

count-names_of-reversed :
    (x : Text) (hosts : List HostSpec)
    → count x (names_of (reversed hosts)) ≡ count x (names_of hosts)
unfolding names_of reversed count
count-names_of-reversed x [] = refl
count-names_of-reversed x (host ∷ hosts) = rw (names_of-append (reversed hosts) (host ∷ [])) (
    ground (
      arith,
      count-append x (names_of (reversed hosts)) (host.name ∷ []),
      count-names_of-reversed x hosts,
    ))

module _ {S : Type 0} (service : LockService S) (before : Text → Bool) where
  -- A host is locked if it was before, or else by the one lock of it in the list.
  abbrev pub Holds : List Text → S → Text → Type 0
  Holds names s x =
      ((count x names ≡ 0) × (service.is_locked x s ≡ before x))
      ⊎ ((count x names ≡ 1) × (before x ≡ false) × (service.is_locked x s ≡ true))

  abbrev pub IsHeld : Locking S → Type 0
  IsHeld (s, locks) = (x : Text) → Holds (names_of locks) s x

  Holds-lock_host :
      (b : Bool) (host : HostSpec) (s : S) (locks : List HostSpec)
      → IsHeld (s, locks)
      → (x : Text) → (service.lock b host.name s).1 ≡ none
      → Holds (names_of (locks ++ host ∷ [])) (service.lock b host.name s).0 x
  unfolding names_of count
  Holds-lock_host b host s locks held x e =
      let (free, taken) = service.lock_takes b host.name s e in
      let total : count x (names_of (locks ++ host ∷ []))
          ≡ count x (names_of locks) + count x (host.name ∷ []) =
        rw (names_of-append locks (host ∷ [])) (count-append x (names_of locks) (host.name ∷ [])) in
      elim (Bool-cases (text_eq host.name x)) [
        | inl same ↦
            let named : host.name ≡ x = (text_eq_iff host.name x).0 same in
            let was_free : service.is_locked x s ≡ false = rw named at free in
            let is_taken : service.is_locked x (service.lock b host.name s).0 ≡ true =
              subst (λ (y : Text). service.is_locked y (service.lock b host.name s).0 ≡ true) named
                taken in
            elim (held x) [
              | inl (absent, as_before) ↦ inr (
                ground (arith, total, absent, same),
                ground (arith, as_before, was_free),
                is_taken,
              )
              | inr (_, _, locked) ↦ absurd (ground (arith, locked, was_free))
            ]
        | inr apart ↦
            let as_before = service.lock_apart b host.name x s apart in
            elim (held x) [
              | inl (absent, kept) ↦ inl (ground (arith, total, absent, apart), rw as_before kept)
              | inr (once, was_free, locked) ↦
                  inr (ground (arith, total, once, apart), was_free, rw as_before locked)
            ]
      ]

  Holds-refused :
      (b : Bool) (host : HostSpec) (s : S) (names : List Text) (e : EngineError) (x : Text)
      → Holds names s x
      → (service.lock b host.name s).1 ≡ some e
      → Holds names (service.lock b host.name s).0 x
  Holds-refused b host s names e x held refused =
      let as_before : service.is_locked x (service.lock b host.name s).0 ≡ service.is_locked x s =
        elim (Bool-cases (text_eq host.name x)) [
          | inl same ↦
              subst
                (λ (y : Text).
                  service.is_locked y (service.lock b host.name s).0 ≡ service.is_locked y s)
                ((text_eq_iff host.name x).0 same) (service.lock_refused b host.name s e refused)
          | inr apart ↦ service.lock_apart b host.name x s apart
        ] in
      elim held [
        | inl (absent, kept) ↦ inl (absent, rw as_before kept)
        | inr (once, was_free, locked) ↦ inr (once, was_free, rw as_before locked)
      ]

  IsHeld-lock_host :
      (b : Bool) (host : HostSpec) (world : Locking S)
      → IsHeld world
      → IsHeld (lock_host service b host world).0
  unfolding lock_host
  IsHeld-lock_host b host (s, locks) held = go ((service.lock b host.name s).1) refl
    where
      go :
          (o : Option EngineError)
          → (service.lock b host.name s).1 ≡ o
          → IsHeld (lock_host service b host (s, locks)).0
      go none e = rw (lock_host, e) (λ x. Holds-lock_host b host s locks held x e)
      go (some problem) e =
          rw (lock_host, e) (λ x. Holds-refused b host s (names_of locks) problem x (held x) e)

  unlock_each_next :
      (host : HostSpec) (hosts : List HostSpec) (s : S)
      → (unlock_each service (host ∷ hosts) s).1 ≡ []
      → ((service.unlock host.name s).1 ≡ none)
        × (unlock_each service (host ∷ hosts) s
            ≡ unlock_each service hosts (service.unlock host.name s).0)
  unfolding unlock_each
  unlock_each_next host hosts s h = go ((service.unlock host.name s).1) refl
    where
      go :
          (o : Option EngineError)
          → (service.unlock host.name s).1 ≡ o
          → ((service.unlock host.name s).1 ≡ none)
            × (unlock_each service (host ∷ hosts) s
                ≡ unlock_each service hosts (service.unlock host.name s).0)
      go none e = (e, rw (unlock_each, e) refl)
      go (some problem) e = absurd (ground (arith, h, e))

  Holds-unlock :
      (host : HostSpec) (hosts : List HostSpec) (s : S) (x : Text)
      → Holds (names_of (host ∷ hosts)) s x
      → (service.unlock host.name s).1 ≡ none
      → Holds (names_of hosts) (service.unlock host.name s).0 x
  unfolding names_of count
  Holds-unlock host hosts s x held e = elim (Bool-cases (text_eq host.name x)) [
    | inl same ↦
        let is_free : service.is_locked x (service.unlock host.name s).0 ≡ false =
          subst (λ (y : Text). service.is_locked y (service.unlock host.name s).0 ≡ false)
            ((text_eq_iff host.name x).0 same) (service.unlock_frees host.name s e) in
        elim held [
          | inl (absent, _) ↦ absurd (ground (arith, absent, same))
          | inr (once, was_free, _) ↦
              inl (ground (arith, once, same), ground (arith, is_free, was_free))
        ]
    | inr apart ↦
        let as_before = service.unlock_apart host.name x s apart in
        elim held [
          | inl (absent, kept) ↦ inl (ground (arith, absent, apart), rw as_before kept)
          | inr (once, was_free, locked) ↦
              inr (ground (arith, once, apart), was_free, rw as_before locked)
        ]
  ]

  -- A list of hosts that is held is released by an unlocking that reports no error.
  unlock_each_frees :
      (hosts : List HostSpec) (s : S)
      → ((x : Text) → Holds (names_of hosts) s x)
      → (unlock_each service hosts s).1 ≡ []
      → (x : Text) → service.is_locked x (unlock_each service hosts s).0 ≡ before x
  unlock_each_frees [] s held h x = elim (held x) [
    | inl (_, kept) ↦ unfold unlock_each in kept
    | inr (once, _, _) ↦ absurd (unfold names_of count in omega (arith, once))
  ]
  unlock_each_frees (host ∷ hosts) s held h x =
      let (fine, same) = unlock_each_next host hosts s h in
      let s' = (service.unlock host.name s).0 in
      let later : (unlock_each service hosts s').1 ≡ [] = rw same at h in
      rw same (unlock_each_frees hosts s' (λ y. Holds-unlock host hosts s y (held y) fine) later x)

  pub unlock_hosts_frees :
      (locks : List HostSpec) (s : S)
      → IsHeld (s, locks)
      → (unlock_hosts service locks s).1 ≡ []
      → (x : Text) → service.is_locked x (unlock_hosts service locks s).0 ≡ before x
  unfolding unlock_hosts
  unlock_hosts_frees locks s held h x =
      unlock_each_frees (reversed locks) s (λ y. rw (count-names_of-reversed y locks) (held y)) h x

  pub run_hosts-IsHeld :
      (parallel : ℕ) (events : List Event) (hosts : List HostSpec) (s : S) (world : Locking S)
      (result : Option EngineError)
      → ((x : Text) → service.is_locked x s ≡ before x)
      → run_hosts (lock_host service) parallel events hosts (s, []) ≡ some (world, result)
      → IsHeld world
  run_hosts-IsHeld parallel events hosts s world result same e =
      run_hosts_keeps (lock_host service) IsHeld IsHeld-lock_host parallel events hosts (s, [])
        world result e (λ x. inl (unfold names_of count in refl, same x))
