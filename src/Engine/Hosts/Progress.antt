-- ===== src/Engine/Hosts/Progress.antt =====
-- Progress and bounds of the worker pool of internal/core/engine/engine.go: whatever has happened,
-- the pool can be brought to its end, and no more workers are busy than allowed.
use debianform.Base.{
  length-append, ℕ, zero, suc, ◌+◌, ◌≤◌, ◌<◌, List, [], ◌∷◌, ◌++◌, Option, none, some, Bool, true,
  length, ◌≡◌, refl, arith, ◌⊎◌, inl, inr, Bool-cases,
}
use debianform.Engine.{EngineError}
use debianform.Engine.Hosts.Steps.{length-take_at, finished-waiting, perform-send, perform-finish}
use debianform.Engine.Hosts.{
  Event, send, stop, cancel, finish, Workers, take_at, worker_count, is_done, perform, perform_all,
  run_hosts, waiting_hosts, outcome, bounded_host_parallel,
}

-- The events that let every worker end: a busy one returns, and a free one takes the next host.
unfoldable pub drain : ℕ → List Event
drain zero = []
drain (suc k) = finish 0 ∷ send ∷ drain k

module _ {H S : Type 0} (call : Bool → H → S → S × Option EngineError) where
  -- What is left to do: two steps for a host that waits, and one for a busy worker.
  left_to_do : Workers H S → ℕ
  left_to_do w = (length w.waiting + length w.waiting) + length w.busy

  left-send :
      (limit : ℕ) (w : Workers H S)
      → (left_to_do (perform call limit w send) ≤ left_to_do w)
        × ((suc (left_to_do (perform call limit w send)) ≡ left_to_do w)
            ⊎ (length w.waiting ≡ 0)
            ⊎ (limit ≤ length w.busy))
  unfolding left_to_do
  left-send limit w = elim (perform-send call limit w) [
    | inl (same, inl e) ↦ (rw same (omega arith), inr (inl (rw e refl)))
    | inl (same, inr full) ↦ (rw same (omega arith), inr (inr full))
    | inr (host, rest, e, free, same) ↦
        let less : suc (left_to_do (perform call limit w send)) ≡ left_to_do w =
          rw (same, e) (omega (arith, length-append w.busy (host ∷ []))) in
        (omega (arith, less), inl less)
  ]

  left-finish :
      (limit n : ℕ) (w : Workers H S)
      → ((take_at n w.busy ≡ none) × (perform call limit w (finish n) ≡ w))
        ⊎ (suc (left_to_do (perform call limit w (finish n))) ≡ left_to_do w)
  unfolding left_to_do
  left-finish limit n w = elim (perform-finish call limit n w) [
    | inl (same, e) ↦ inl (e, same)
    | inr (host, others, e, same) ↦
        let (waiting, busy) = finished-waiting call w host others in
        inr (rw (same, waiting, busy) (omega (arith, length-take_at n w.busy host others e)))
  ]

  left-perform :
      (limit : ℕ) (w : Workers H S) (event : Event)
      → left_to_do (perform call limit w event) ≤ left_to_do w
  unfolding left_to_do perform
  left-perform limit w send = (left-send limit w).0
  left-perform limit w (finish n) = elim (left-finish limit n w) [
    | inl (e, same) ↦ rw same (omega arith)
    | inr less ↦ omega (arith, less)
  ]
  left-perform limit w cancel = omega arith
  left-perform limit w stop = elim (Bool-cases w.is_cancelled) [
    | inl e ↦ rw e (omega arith)
    | inr e ↦ rw e (omega arith)
  ]

  left-perform_all :
      (limit : ℕ) (events : List Event) (w : Workers H S)
      → left_to_do (perform_all call limit events w) ≤ left_to_do w
  unfolding perform_all
  left-perform_all limit [] w = omega arith
  left-perform_all limit (event ∷ events) w = omega (
    arith,
    left-perform limit w event,
    left-perform_all limit events (perform call limit w event),
  )

  length-take_first : {A : Type 0} (xs : List A) → take_at 0 xs ≡ none → length xs ≡ 0
  unfolding take_at
  length-take_first [] h = refl
  length-take_first (x ∷ xs) h = absurd (ground (arith, h))

  -- A busy worker returns and a free one takes the next host: where anything is left, it gets less.
  left-pair :
      (limit : ℕ) (w : Workers H S)
      → 0 < limit
      → (suc (left_to_do (perform call limit (perform call limit w (finish 0)) send))
          ≤ left_to_do w)
        ⊎ (left_to_do w ≡ 0)
  unfolding left_to_do
  left-pair limit w positive = elim (left-finish limit 0 w) [
    | inr less ↦ inl (omega (arith, less, (left-send limit (perform call limit w (finish 0))).0))
    | inl (e, same) ↦
        let idle = length-take_first w.busy e in
        elim (left-send limit w).1 [
          | inl less ↦ inl (rw same (omega (arith, less)))
          | inr (inl none_left) ↦ inr (omega (arith, none_left, idle))
          | inr (inr full) ↦ absurd (omega (arith, full, idle, positive))
        ]
  ]

  is_done-nothing_left : (w : Workers H S) → left_to_do w ≡ 0 → is_done w ≡ true
  unfolding left_to_do is_done
  is_done-nothing_left w h = go w.waiting w.busy refl refl h
    where
      go :
          (waiting busy : List H)
          → w.waiting ≡ waiting
          → w.busy ≡ busy
          → (length w.waiting + length w.waiting) + length w.busy ≡ 0
          → is_done w ≡ true
      go [] [] e e' k = rw (is_done, e, e') refl
      go (x ∷ waiting) busy e e' k = absurd (omega (arith, rw (e, e') at k))
      go [] (x ∷ busy) e e' k = absurd (omega (arith, rw (e, e') at k))

  drain-ends :
      (limit k : ℕ) (w : Workers H S)
      → 0 < limit
      → left_to_do w ≤ k
      → is_done (perform_all call limit (drain k) w) ≡ true
  unfolding drain perform_all
  drain-ends limit zero w positive h = is_done-nothing_left w (omega (arith, h))
  drain-ends limit (suc k) w positive h =
      let w' = perform call limit (perform call limit w (finish 0)) send in
      drain-ends limit k w' positive (elim (left-pair limit w positive) [
        | inl less ↦ omega (arith, less, h)
        | inr nothing ↦ omega (
          arith,
          nothing,
          left-perform limit w (finish 0),
          left-perform limit (perform call limit w (finish 0)) send,
        )
      ])

  perform_all-append :
      (limit : ℕ) (events later : List Event) (w : Workers H S)
      → perform_all call limit (events ++ later) w
        ≡ perform_all call limit later (perform_all call limit events w)
  unfolding perform_all
  perform_all-append limit [] later w = refl
  perform_all-append limit (event ∷ events) later w =
      perform_all-append limit events later (perform call limit w event)

  worker_count_positive : (parallel n : ℕ) → 0 < n → 0 < worker_count parallel n
  unfolding worker_count
  worker_count_positive parallel n h = ground arith

  -- Whatever has happened, runHosts comes to its end once every busy worker returns and every free
  -- one takes the next host: twice as many rounds as there are hosts are enough.
  pub run_hosts_ends :
      (parallel : ℕ) (events : List Event) (hosts : List H) (s : S)
      → (result : S × Option EngineError) × (run_hosts call parallel
            (events ++ drain (length hosts + length hosts))
            hosts
            s
          ≡ some result)
  unfolding run_hosts left_to_do
  run_hosts_ends parallel events [] s = ((s, none), refl)
  run_hosts_ends parallel events (first ∷ others) s =
      let hosts = first ∷ others in
      let limit = worker_count parallel (length hosts) in
      let w = perform_all call limit events (waiting_hosts hosts s) in
      let rest = drain (length hosts + length hosts) in
      let w' = perform_all call limit rest w in
      let ends : is_done w' ≡ true =
        drain-ends limit (length hosts + length hosts) w
          (worker_count_positive parallel (length hosts) (omega arith))
          (omega (arith, left-perform_all limit events (waiting_hosts hosts s))) in
      (
        (w'.world, outcome w'),
        rw (perform_all-append limit events rest (waiting_hosts hosts s), ends) refl,
      )

  busy-perform :
      (limit : ℕ) (w : Workers H S) (event : Event)
      → length w.busy ≤ limit
      → length (perform call limit w event).busy ≤ limit
  unfolding perform
  busy-perform limit w send h = elim (perform-send call limit w) [
    | inl (same, _) ↦ rw same h
    | inr (host, rest, e, free, same) ↦
        rw same (omega (arith, length-append w.busy (host ∷ []), free))
  ]
  busy-perform limit w (finish n) h = elim (perform-finish call limit n w) [
    | inl (same, _) ↦ rw same h
    | inr (host, others, e, same) ↦
        let busy = (finished-waiting call w host others).1 in
        rw (same, busy) (omega (arith, length-take_at n w.busy host others e, h))
  ]
  busy-perform limit w cancel h = h
  busy-perform limit w stop h = elim (Bool-cases w.is_cancelled) [ inl e ↦ rw e h | inr e ↦ rw e h ]

  busy-perform_all :
      (limit : ℕ) (events : List Event) (w : Workers H S)
      → length w.busy ≤ limit
      → length (perform_all call limit events w).busy ≤ limit
  unfolding perform_all
  busy-perform_all limit [] w h = h
  busy-perform_all limit (event ∷ events) w h =
      busy-perform_all limit events (perform call limit w event) (busy-perform limit w event h)

-- With at least one worker wanted, the pool that boundedHostParallel asks for never has more busy
-- workers than wanted, nor more than there are hosts.
pub busy-bounded :
    {H S : Type 0} (call : Bool → H → S → S × Option EngineError) (wanted : ℕ) (events : List Event)
    (hosts : List H) (s : S)
    → 0 < wanted
    → let limit = worker_count (bounded_host_parallel wanted (length hosts)) (length hosts) in
      let w = perform_all call limit events (waiting_hosts hosts s) in
      (length w.busy ≤ wanted) × (length w.busy ≤ length hosts)
unfolding bounded_host_parallel worker_count
busy-bounded call wanted events hosts s h =
    let limit = worker_count (bounded_host_parallel wanted (length hosts)) (length hosts) in
    let small : (limit ≤ wanted) × (limit ≤ length hosts) = ground (arith, h) in
    let bound = busy-perform_all call limit events (waiting_hosts hosts s) (omega arith) in
    (omega (arith, bound, small.0), omega (arith, bound, small.1))
