-- ===== src/Graph/Kahn/Release.antt =====
-- What the emission of a wave does to the indegrees and to the next wave.
use debianform.Base.{
  Text, ℕ, ◌+◌, ◌-◌, List, [], ◌∷◌, ◌++◌, ◌≡◌, ◌==◌, leb, arith, if◌then◌else◌, count, count-append,
  text_eq_iff,
}
use debianform.Base.Dict.{Dict, insert, get, get-insert}
use debianform.Graph.Kahn.{release, run_wave}

-- Whether `c` decrements take the indegree `n` down to zero.
abbrev pub falls : ℕ → ℕ → ℕ
falls n c = if n == 0 then 0 else if leb n c then 1 else 0

pub release_degree :
    (x : Text) (indegree : Dict ℕ) (ready ds : List Text)
    → get 0 x (release indegree ready ds).0 ≡ get 0 x indegree - count x ds
unfolding release count
release_degree x indegree ready [] = omega arith
release_degree x indegree ready (d ∷ ds) =
    let n = get 0 d indegree in
    let next = insert d (n - 1) indegree in
    ground (
      arith,
      text_eq_iff d x,
      get-insert 0 d x (n - 1) indegree,
      release_degree x next (if n == 1 then ready ++ d ∷ [] else ready) ds,
    )

pub release_ready :
    (x : Text) (indegree : Dict ℕ) (ready ds : List Text)
    → count x (release indegree ready ds).1 ≡ count x ready + falls (get 0 x indegree) (count x ds)
unfolding release count
release_ready x indegree ready [] = ground arith
release_ready x indegree ready (d ∷ ds) =
    let n = get 0 d indegree in
    let next = insert d (n - 1) indegree in
    ground (
      arith,
      text_eq_iff d x,
      get-insert 0 d x (n - 1) indegree,
      count-append x ready (d ∷ []),
      release_ready x next (if n == 1 then ready ++ d ∷ [] else ready) ds,
    )

-- How often `x` depends on an address of the wave.
unfoldable pub demand : Dict (List Text) → Text → List Text → ℕ
demand dependents x [] = 0
demand dependents x (a ∷ wave) = count x (get [] a dependents) + demand dependents x wave

pub run_wave_degree :
    (dependents : Dict (List Text)) (x : Text) (indegree : Dict ℕ) (ready wave : List Text)
    → get 0 x (run_wave dependents indegree ready wave).0
      ≡ get 0 x indegree - demand dependents x wave
unfolding run_wave demand
run_wave_degree dependents x indegree ready [] = omega arith
run_wave_degree dependents x indegree ready (a ∷ wave) =
    let freed = get [] a dependents in
    let after = release indegree ready freed in
    omega (
      arith,
      release_degree x indegree ready freed,
      run_wave_degree dependents x after.0 after.1 wave,
    )

falls-add : (n c d : ℕ) → falls n c + falls (n - c) d ≡ falls n (c + d)
falls-add n c d = ground arith

pub run_wave_ready :
    (dependents : Dict (List Text)) (x : Text) (indegree : Dict ℕ) (ready wave : List Text)
    → count x (run_wave dependents indegree ready wave).1
      ≡ count x ready + falls (get 0 x indegree) (demand dependents x wave)
unfolding run_wave demand
run_wave_ready dependents x indegree ready [] = ground arith
run_wave_ready dependents x indegree ready (a ∷ wave) =
    let freed = get [] a dependents in
    let after = release indegree ready freed in
    ground (
      arith,
      release_degree x indegree ready freed,
      release_ready x indegree ready freed,
      run_wave_ready dependents x after.0 after.1 wave,
      falls-add (get 0 x indegree) (count x freed) (demand dependents x wave),
    )
