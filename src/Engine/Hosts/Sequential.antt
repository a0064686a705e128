-- ===== src/Engine/Hosts/Sequential.antt =====
-- The worker pool of internal/core/engine/engine.go and the sequential loop that it stands for: a
-- run without an error is one call after the other, each host once, in some order.
use mathlib.Core.List.{Perm, append-nil, append_assoc}
use mathlib.Core.List.Perm
use debianform.Base.{
  ℕ, zero, suc, List, [], ◌∷◌, ◌++◌, Option, none, some, Bool, true, false, not, ◌&&◌, length, ◌≡◌,
  refl, arith, ◌⊎◌, inl, inr, Bool-cases,
}
use debianform.Engine.{EngineError}
use debianform.Engine.Hosts.{
  Event, send, stop, cancel, finish, Workers, is_nil, take_at, worker_count, is_done, finished,
  perform, perform_all, run_hosts, waiting_hosts, outcome,
}
use debianform.Engine.Hosts.Steps.{perform-send, perform-finish}

pub Perm-take_at :
    {A : Type 0} (n : ℕ) (xs : List A) (x : A) (others : List A)
    → take_at n xs ≡ some (x, others)
    → Perm xs (x ∷ others)
unfolding take_at
Perm-take_at n [] x others h = absurd (ground (arith, h))
Perm-take_at zero (y ∷ xs) x others h =
    let same : y ∷ xs ≡ x ∷ others = ground (arith, h) in rw same Perm.rfl
Perm-take_at (suc n) (y ∷ xs) x others h =
    go (take_at n xs) refl (λ z zs e. Perm-take_at n xs z zs e)
  where
    go :
        (o : Option _)
        → take_at n xs ≡ o
        → ((z : _) (zs : List _) → take_at n xs ≡ some (z, zs) → Perm xs (z ∷ zs))
        → Perm (y ∷ xs) (x ∷ others)
    go none e taken = absurd (ground (arith, h, e))
    go (some (z, zs)) e taken =
        let same : z ∷ y ∷ zs ≡ x ∷ others = ground (arith, h, e) in
        rw (← same) (Perm.trans (Perm.cons y (taken z zs e)) (Perm.swap z y zs))

module _ {H S : Type 0} (call : Bool → H → S → S × Option EngineError) where
  -- The loop: each host in turn, none where a call fails.
  unfoldable pub run_in_order : List H → S → Option S
  run_in_order [] s = some s
  run_in_order (host ∷ rest) s =
      let (s', e) = call false host s in
      elim e [ none ↦ run_in_order rest s' | some problem ↦ none ]

  run_in_order_next :
      (host : H) (rest : List H) (s : S)
      → (call false host s).1 ≡ none
      → run_in_order (host ∷ rest) s ≡ run_in_order rest (call false host s).0
  unfolding run_in_order
  run_in_order_next host rest s h = rw (run_in_order, h) refl

  pub run_in_order_cons :
      (host : H) (rest : List H) (s r : S)
      → run_in_order (host ∷ rest) s ≡ some r
      → ((call false host s).1 ≡ none) × (run_in_order rest (call false host s).0 ≡ some r)
  unfolding run_in_order
  run_in_order_cons host rest s r h = go ((call false host s).1) refl
    where
      go :
          (o : Option EngineError)
          → (call false host s).1 ≡ o
          → ((call false host s).1 ≡ none) × (run_in_order rest (call false host s).0 ≡ some r)
      go none e = (e, rw (run_in_order, e) at h)
      go (some problem) e = absurd (ground (arith, h, e))

  run_in_order-append_one :
      (order : List H) (host : H) (s0 s : S)
      → run_in_order order s0 ≡ some s
      → (call false host s).1 ≡ none
      → run_in_order (order ++ host ∷ []) s0 ≡ some ((call false host s).0)
  run_in_order-append_one [] host s0 s h e =
      let same : s0 ≡ s = unfold run_in_order in ground (arith, h) in
      rw same (rw (run_in_order_next host [] s e) (unfold run_in_order in refl))
  run_in_order-append_one (first ∷ order) host s0 s h e =
      let (fine, later) = run_in_order_cons first order s0 s h in
      rw (run_in_order_next first (order ++ host ∷ []) s0 fine)
        (run_in_order-append_one order host (call false first s0).0 s later e)

  -- No error yet, and not cancelled.
  is_clean : Workers H S → Bool
  is_clean w = is_nil w.errors && not w.is_cancelled

  -- The calls so far, in an order, and the hosts that are left.
  abbrev InOrder : List H → S → Workers H S → Type 0
  InOrder hosts s w =
      (is_clean w ≡ false)
      ⊎ ((is_clean w ≡ true)
          × (order : List H) × (run_in_order order s ≡ some w.world)
          × Perm (order ++ (w.busy ++ w.waiting)) hosts)

  finished-dirty :
      (w : Workers H S) (host : H) (others : List H)
      → is_clean w ≡ false
      → is_clean (finished call w host others) ≡ false
  unfolding is_clean finished
  finished-dirty w host others dirty = go ((call w.is_cancelled host w.world).1) refl
    where
      go :
          (o : Option EngineError)
          → (call w.is_cancelled host w.world).1 ≡ o
          → is_clean (finished call w host others) ≡ false
      go (some problem) e = rw (finished, e) (ground arith)
      go none e = rw (finished, e) dirty

  Perm-moved :
      (order others busy waiting : List H) (host : H)
      → Perm busy (host ∷ others)
      → Perm ((order ++ host ∷ []) ++ (others ++ waiting)) (order ++ (busy ++ waiting))
  Perm-moved order others busy waiting host p =
      rw (append_assoc order (host ∷ []) (others ++ waiting))
        (Perm.append_left order (Perm.append_right waiting (Perm.symm p)))

  finished-InOrder :
      (hosts : List H) (s : S) (n : ℕ) (w : Workers H S) (host : H) (others : List H)
      → take_at n w.busy ≡ some (host, others)
      → InOrder hosts s w
      → InOrder hosts s (finished call w host others)
  finished-InOrder hosts s n w host others e (inl dirty) = inl (finished-dirty w host others dirty)
  finished-InOrder hosts s n w host others e (inr (clean, order, run, p)) =
      go ((call w.is_cancelled host w.world).1) refl
    where
      kept : w.is_cancelled ≡ false
      kept = unfold is_clean in ground (arith, clean)

      go :
          (o : Option EngineError)
          → (call w.is_cancelled host w.world).1 ≡ o
          → InOrder hosts s (finished call w host others)
      go (some problem) e' = inl (unfold is_clean finished in rw (finished, e') (ground arith))
      go none e' =
          let fine : (call false host w.world).1 ≡ none = rw kept at e' in
          let done : finished call w host others
              ≡ record w { busy = others; world = (call w.is_cancelled host w.world).0 } =
            unfold finished in rw (finished, e') refl in
          rw done (
            inr (
              unfold is_clean in clean,
              order ++ host ∷ [],
              rw kept (run_in_order-append_one order host s w.world run fine),
              Perm.trans
                  (Perm-moved order others w.busy w.waiting host
                    (Perm-take_at n w.busy host others e))
                  p,
            ))

  perform-InOrder :
      (limit : ℕ) (hosts : List H) (s : S) (w : Workers H S) (event : Event)
      → InOrder hosts s w
      → InOrder hosts s (perform call limit w event)
  unfolding perform is_clean
  perform-InOrder limit hosts s w send h = elim (perform-send call limit w) [
    | inl (same, _) ↦ rw same h
    | inr (host, rest, e, free, same) ↦ elim h [
      | inl dirty ↦ rw same (inl dirty)
      | inr (clean, order, run, p) ↦
          rw same (inr (clean, order, run, rw (append_assoc w.busy (host ∷ []) rest) (rw e at p)))
    ]
  ]
  perform-InOrder limit hosts s w (finish n) h = elim (perform-finish call limit n w) [
    | inl (same, _) ↦ rw same h
    | inr (host, others, e, same) ↦ rw same (finished-InOrder hosts s n w host others e h)
  ]
  perform-InOrder limit hosts s w cancel h = inl (ground arith)
  perform-InOrder limit hosts s w stop h = elim (Bool-cases w.is_cancelled) [
    | inl e ↦ inl (rw e (ground (arith, e)))
    | inr e ↦ let same : perform call limit w stop ≡ w = ground (arith, e) in rw same h
  ]

  perform_all-InOrder :
      (limit : ℕ) (hosts : List H) (s : S) (events : List Event) (w : Workers H S)
      → InOrder hosts s w
      → InOrder hosts s (perform_all call limit events w)
  unfolding perform_all
  perform_all-InOrder limit hosts s [] w h = h
  perform_all-InOrder limit hosts s (event ∷ events) w h =
      perform_all-InOrder limit hosts s events (perform call limit w event)
        (perform-InOrder limit hosts s w event h)

  nothing_left : (w : Workers H S) → is_done w ≡ true → (w.waiting ≡ []) × (w.busy ≡ [])
  unfolding is_done
  nothing_left w h = go w.waiting w.busy refl refl h
    where
      go :
          (waiting busy : List H)
          → w.waiting ≡ waiting
          → w.busy ≡ busy
          → (is_nil w.waiting && is_nil w.busy) ≡ true
          → (w.waiting ≡ []) × (w.busy ≡ [])
      go [] [] e e' k = (e, e')
      go (x ∷ xs) busy e e' k = absurd (ground (arith, rw e at k))
      go [] (x ∷ xs) e e' k = absurd (ground (arith, rw (e, e') at k))

  outcome-clean : (w : Workers H S) → outcome w ≡ none → is_clean w ≡ true
  unfolding outcome is_clean
  outcome-clean w h = go w.errors refl
    where
      go : (l : List EngineError) → w.errors ≡ l → is_clean w ≡ true
      go [] e = ground (arith, h, e)
      go (x ∷ xs) e = absurd (ground (arith, h, e))

  -- The end of a run of at least one host.
  pub run_hosts_end :
      (parallel : ℕ) (events : List Event) (first : H) (others : List H) (s s' : S)
      (result : Option EngineError)
      → run_hosts call parallel events (first ∷ others) s ≡ some (s', result)
      → (w : Workers H S) × (w
          ≡ perform_all call
              (worker_count parallel (length (first ∷ others)))
              events
              (waiting_hosts (first ∷ others) s))
        × (is_done w ≡ true)
        × (w.world ≡ s')
        × (outcome w ≡ result)
  unfolding run_hosts
  run_hosts_end parallel events first others s s' result h =
      let w =
        perform_all call (worker_count parallel (length (first ∷ others))) events
          (waiting_hosts (first ∷ others) s) in
      elim (Bool-cases (is_done w)) [
        | inl ends ↦
            let same : some (w.world, outcome w) ≡ some (s', result) = rw (run_hosts, ends) at h in
            (w, refl, ends, ground (arith, same), ground (arith, same))
        | inr left ↦ absurd (ground (arith, h, left))
      ]

-- A run of runHosts that returns no error did what the sequential loop over the hosts does in some
-- order: each host was called once, without an error, and the world is what these calls leave.
pub run_hosts-Sequential :
    {H S : Type 0} (call : Bool → H → S → S × Option EngineError) (parallel : ℕ)
    (events : List Event) (hosts : List H) (s s' : S)
    → run_hosts call parallel events hosts s ≡ some (s', none)
    → (order : List H) × Perm order hosts × (run_in_order call order s ≡ some s')
unfolding run_hosts run_in_order
run_hosts-Sequential call parallel events [] s s' h = ([], Perm.rfl, ground (arith, h))
run_hosts-Sequential call parallel events (first ∷ others) s s' h =
    let (w, same, ends, world, result) =
      run_hosts_end call parallel events first others s s' none h in
    let hosts = first ∷ others in
    let (waiting, busy) = nothing_left call w ends in
    let done : InOrder call hosts s w = rw same (
      perform_all-InOrder call (worker_count parallel (length hosts)) hosts s events
        (waiting_hosts hosts s) (inr (unfold is_clean in refl, [], refl, Perm.rfl))) in
    elim done [
      | inl dirty ↦ absurd (ground (arith, dirty, outcome-clean call w result))
      | inr (_, order, run, p) ↦
          (order, rw (append-nil order) at (rw (busy, waiting) at p), rw world at run)
    ]
