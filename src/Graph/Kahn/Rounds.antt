-- ===== src/Graph/Kahn/Rounds.antt =====
-- The loop emits every address once, after its dependencies, and stops only when no further
-- address has all of its dependencies emitted.
use debianform.Base.{
  Text, ℕ, zero, suc, ◌+◌, ◌-◌, ◌≤◌, ◌<◌, List, [], ◌∷◌, ◌++◌, ◌≡◌, refl, length, ◌==◌, arith, some,
  if◌then◌else◌, count, count-append, IsDistinct, length-append, length-le_of_count,
}
use debianform.Base.Dict.{Dict, get, keys, length-keys}
use debianform.Graph.Kahn.{run_wave, rounds, tally, zero_degrees, address_waves}
use debianform.Graph.Kahn.Release.{falls, demand, run_wave_degree, run_wave_ready}
use debianform.Graph.Kahn.Waiting.{
  waiting, waiting_none, waiting-nil, waiting-append, demand-eq-hits,
}
use debianform.Graph.Kahn.Tally.{
  tally_degree, tally_dependents, tally-keys, count-zero_degrees, get_of_absent,
}

-- The waves follow the dependencies: an address stands in a wave only if all of its dependencies
-- are done, no address stands twice, and at the end no address is left whose dependencies are done.
abbrev pub IsSchedule : Dict (List Text) → List Text → List (List Text) → Type 0
IsSchedule edges done [] =
    (x : Text) → 0 < count x (keys edges) → waiting done (get [] x edges) ≡ 0 → 0 < count x done
IsSchedule edges done (wave ∷ waves) =
    ((x : Text) → 0 < count x wave → waiting done (get [] x edges) ≡ 0)
    × ((x : Text) → count x wave + count x done ≤ count x (keys edges))
    × IsSchedule edges (wave ++ done) waves

module _ (edges : Dict (List Text)) (distinct : IsDistinct (keys edges))
    (dependents : Dict (List Text))
    (inverse : (x a : Text) → count x (get [] a dependents) ≡ count a (get [] x edges)) where
  -- Before a round: `done` is emitted and `wave` is ready.
  pub record Inv (done wave : List Text) (indegree : Dict ℕ) : Type 0 where
    pub within : (x : Text) → count x wave + count x done ≤ count x (keys edges)
    pub degree :
        (x : Text) → 0 < count x (keys edges) → get 0 x indegree ≡ waiting done (get [] x edges)
    pub ready :
        (x : Text)
        → 0 < count x (keys edges)
        → count x wave ≡ (if waiting done (get [] x edges) == 0 then 1 - count x done else 0)
    pub closed : (x : Text) → 0 < count x done → waiting done (get [] x edges) ≡ 0

  module _ (order : List Text → List Text)
      (same : (x : Text) (xs : List Text) → count x (order xs) ≡ count x xs) where
    module _ (done wave : List Text) (indegree : Dict ℕ) (inv : Inv done wave indegree) where
      open inv use {within, degree, ready, closed}

      abbrev after : Dict ℕ × List Text
      after = run_wave dependents indegree [] wave

      next_wave : List Text
      next_wave = order after.1

      left :
          (x : Text)
          → waiting (wave ++ done) (get [] x edges) + demand dependents x wave
            ≡ waiting done (get [] x edges)
      left x = omega (
        arith,
        waiting-append wave done (get [] x edges) (λ a. omega (arith, within a, distinct a)),
        demand-eq-hits dependents x (get [] x edges) (inverse x) wave,
      )

      next_count :
          (x : Text) → count x next_wave ≡ falls (get 0 x indegree) (demand dependents x wave)
      unfolding next_wave
      next_count x =
          unfold count in
          omega (arith, same x after.1, run_wave_ready dependents x indegree [] wave)

      key_of_wave : (x : Text) → 0 < count x wave → 0 < count x (keys edges)
      key_of_wave x h = omega (arith, within x)

      no_demand : (x : Text) → count x (keys edges) ≡ 0 → demand dependents x wave ≡ 0
      no_demand x h =
          omega (arith, left x, waiting_none done (get [] x edges) (get_of_absent x edges h))

      Inv-next : Inv (wave ++ done) next_wave after.0
      Inv-next = record {
        within = λ x. ground (
          arith,
          within x,
          left x,
          next_count x,
          no_demand x,
          degree x,
          ready x,
          closed x,
          count-append x wave done,
          distinct x,
        );
        degree = λ x key.
            omega (arith, left x, degree x key, run_wave_degree dependents x indegree [] wave);
        ready = λ x key. ground (
          arith,
          within x,
          left x,
          next_count x,
          degree x,
          ready x,
          closed x,
          count-append x wave done,
          distinct x,
        );
        closed = λ x old.
            ground
              (arith, within x, left x, ready x, closed x, count-append x wave done, distinct x);
      }

    within_length :
        (done wave : List Text) (indegree : Dict ℕ)
        → Inv done wave indegree
        → length wave + length done ≤ length edges
    within_length done wave indegree inv = omega (
      arith,
      length-le_of_count (wave ++ done) (keys edges)
          (λ a. omega (arith, count-append a wave done, inv.within a)),
      length-append wave done,
      length-keys edges,
    )

    -- With enough fuel the loop ends, and its waves are a schedule.
    pub rounds_lem :
        (fuel : ℕ) (done wave : List Text) (indegree : Dict ℕ)
        → Inv done wave indegree
        → length edges < length done + fuel
        → (waves : List (List Text)) × (rounds order fuel dependents indegree wave ≡ some waves)
          × IsSchedule edges done waves
    unfolding rounds next_wave
    rounds_lem zero done [] indegree inv enough =
        absurd (omega (arith, within_length done [] indegree inv))
    rounds_lem (suc fuel) done [] indegree inv enough =
        ([], refl, λ x key free. unfold count in ground (arith, inv.ready x key))
    rounds_lem zero done (a ∷ wave) indegree inv enough =
        absurd (omega (arith, within_length done (a ∷ wave) indegree inv))
    rounds_lem (suc fuel) done (a ∷ wave) indegree inv enough =
        let now = a ∷ wave in
        let (waves, e, p) =
          rounds_lem fuel (now ++ done) (next_wave done now indegree inv)
            (after done now indegree inv).0 (Inv-next done now indegree inv)
            (omega (arith, length-append now done)) in
        (
          now ∷ waves,
          rw e,
          (λ x h. ground (arith, inv.ready x (omega (arith, inv.within x))), inv.within, p),
        )

module _ (order : List Text → List Text) (edges : Dict (List Text))
    (same : (x : Text) (xs : List Text) → count x (order xs) ≡ count x xs)
    (distinct : IsDistinct (keys edges)) where
  abbrev built : Dict ℕ × Dict (List Text)
  built = tally edges [] []

  first : List Text
  first = order (zero_degrees built.0)

  built_keys : (x : Text) → count x (keys built.0) ≡ count x (keys edges)
  built_keys x =
      unfold keys count in
      omega (arith, tally-keys x edges [] [] (λ a. unfold keys count in omega (arith, distinct a)))

  built_inverse : (x a : Text) → count x (get [] a built.1) ≡ count a (get [] x edges)
  built_inverse x a = unfold get count in omega (arith, tally_dependents x a edges [] [] distinct)

  built_degree :
      (x : Text) → 0 < count x (keys edges) → get 0 x built.0 ≡ waiting [] (get [] x edges)
  built_degree x key =
      ground (arith, tally_degree x edges [] [] distinct, waiting-nil (get [] x edges))

  count-first :
      (x : Text) → count x first ≡ (if get 0 x built.0 == 0 then count x (keys edges) else 0)
  unfolding first
  count-first x = ground (
    arith,
    same x (zero_degrees built.0),
    built_keys x,
    count-zero_degrees x built.0 (λ a. omega (arith, built_keys a, distinct a)),
  )

  Inv-first : Inv edges distinct built.1 built_inverse [] first built.0
  Inv-first = record {
    within = λ x. unfold count in ground (arith, count-first x);
    degree = built_degree;
    ready = λ x key. unfold count in ground (arith, count-first x, built_degree x key, distinct x);
    closed = λ x h. absurd (unfold count in omega arith);
  }

  -- From the active entries the loop yields a schedule, whatever the order within a wave.
  pub address_waves_lem :
      (waves : List (List Text)) × (address_waves order edges ≡ some waves)
      × IsSchedule edges [] waves
  unfolding address_waves first
  address_waves_lem =
      rounds_lem edges distinct built.1 built_inverse order same (suc (length edges)) [] first
        built.0 Inv-first (omega arith)
