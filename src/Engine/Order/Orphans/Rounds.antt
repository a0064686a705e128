-- ===== src/Engine/Order/Orphans/Rounds.antt =====
-- The rounds of orphanExecutionWaves of internal/core/engine/engine.go are those of a schedule of the
-- orphans.
use debianform.Base.{
  Text, ℕ, suc, ◌+◌, ◌≤◌, List, [], ◌∷◌, ◌≡◌, refl, sym, arith, some, true, false, if◌then◌else◌,
  ◌==◌, text_eq, text_eq_iff, text_eq_refl, length, length-append, count, count-append, IsDistinct,
  inl, inr, Bool-cases, ◌∙◌, count-sort_stable,
}
use debianform.Base.Dict.{
  Dict, insert, lookup, get, has, keys, get-insert, has-insert, count-keys-insert, lookup-insert,
  has-true,
}
use debianform.Graph.Kahn.{zero_degrees}
use debianform.Graph.Kahn.Waiting.{waiting-nil}
use debianform.Graph.Kahn.Tally.{count-zero_degrees}
use debianform.Graph.Kahn.Rounds.{Inv, IsSchedule, rounds_lem}
use debianform.Engine.{Step}
use debianform.Engine.Planning.{step_by_address}
use debianform.Engine.Order.{
  prior_dependencies, count_dependencies, count_orphans, zero_indegrees, sort_orphans,
}
use debianform.Engine.Order.Forward.{orphan_table, orphan_counts, orphan_rounds}
use debianform.Engine.Order.Orphans.{
  step_addresses, waiters, copies, count-copies, length-copies, Covers, count_dependencies_degree,
  count_dependencies_dependents, count_dependencies-keys,
}

module _ (by_address : Dict Step) where
  -- What the loop over the orphans adds to the indegrees and to the dependents.
  count_orphans_lem :
      (steps : List Step) (indegree : Dict ℕ) (dependents : Dict (List Text))
      → Covers by_address indegree
      → let out = count_orphans by_address steps (indegree, dependents) in
        ((x : Text)
          → get 0 x out.0
            ≡ get 0 x indegree + (if has x by_address then length (waiters x steps) else 0))
        × ((x a : Text)
            → count x (get [] a out.1)
              ≡ count x (get [] a dependents)
                + (if has x by_address then count a (waiters x steps) else 0))
        × ((x : Text) → count x (keys out.0) ≡ count x (keys indegree))
  unfolding count_orphans waiters count
  count_orphans_lem [] indegree dependents covers =
      ((λ x. ground arith), (λ x a. ground arith), λ x. refl)
  count_orphans_lem (step ∷ steps) indegree dependents covers =
      let deps = prior_dependencies step in
      let out = count_dependencies by_address step.address deps (indegree, dependents) in
      let (kept, same) =
        count_dependencies-keys by_address step.address deps indegree dependents covers in
      let (degree, inverse, all) = count_orphans_lem steps out.0 out.1 kept in
      (
        (λ x. ground (
          arith,
          degree x,
          count_dependencies_degree by_address x step.address deps indegree dependents,
          length-append (copies (count x deps) step.address) (waiters x steps),
          length-copies (count x deps) step.address,
        )),
        (λ x a. ground (
          arith,
          inverse x a,
          count_dependencies_dependents by_address x a step.address deps indegree dependents,
          count-append a (copies (count x deps) step.address) (waiters x steps),
          count-copies a step.address (count x deps),
        )),
        λ x. all x ∙ same x,
      )

has-step_by_address :
    (x : Text) (steps : List Step) (found : Dict Step)
    → has x (step_by_address steps found)
      ≡ (if count x (step_addresses steps) == 0 then has x found else true)
unfolding step_by_address step_addresses count
has-step_by_address x [] found = refl
has-step_by_address x (step ∷ steps) found = ground (
  arith,
  has-step_by_address x steps (insert step.address step found),
  has-insert step.address x step found,
  text_eq_iff step.address x,
)

-- Every step stands under its own address.
pub step_by_address-own :
    (steps : List Step) (found : Dict Step)
    → ((x : Text) (s : Step) → lookup x found ≡ some s → s.address ≡ x)
    → (x : Text) (s : Step) → lookup x (step_by_address steps found) ≡ some s
    → s.address ≡ x
unfolding step_by_address
step_by_address-own [] found own = own
step_by_address-own (step ∷ steps) found own =
    step_by_address-own steps (insert step.address step found) λ x s h.
      elim (Bool-cases (text_eq step.address x)) [
        | inl here ↦
            let this : step ≡ s =
              ground (arith, h, here, lookup-insert step.address x step found) in
            rw (← this) ((text_eq_iff step.address x).0 here)
        | inr apart ↦ own x s (ground (arith, h, apart, lookup-insert step.address x step found))
      ]

zero_indegrees_lem :
    (steps : List Step) (indegree : Dict ℕ)
    → ((a : Text) → count a (keys indegree) + count a (step_addresses steps) ≤ 1)
    → (x : Text) → get 0 x indegree ≡ 0
    → (get 0 x (zero_indegrees steps indegree) ≡ 0)
      × (has x (zero_indegrees steps indegree)
          ≡ (if count x (step_addresses steps) == 0 then has x indegree else true))
      × (count x (keys (zero_indegrees steps indegree))
          ≡ count x (keys indegree) + count x (step_addresses steps))
unfolding zero_indegrees step_addresses count
zero_indegrees_lem [] indegree fresh x h = (h, refl, omega arith)
zero_indegrees_lem (step ∷ steps) indegree fresh x h =
    let next = insert step.address 0 indegree in
    let keyed = λ (a : Text). count-keys-insert step.address a 0 indegree in
    let absent : count step.address (keys indegree) ≡ 0 =
      ground (arith, fresh step.address, text_eq_refl step.address) in
    let missing : has step.address indegree ≡ false = not_has step.address indegree absent in
    let (zeroed, present, counted) =
      zero_indegrees_lem steps next
        (λ a. ground (arith, fresh a, keyed a, missing, absent, text_eq_iff step.address a)) x
        (ground (arith, h, get-insert 0 step.address x 0 indegree)) in
    (
      zeroed,
      ground (arith, present, has-insert step.address x 0 indegree, text_eq_iff step.address x),
      ground (arith, counted, keyed x, missing, absent, text_eq_iff step.address x),
    )
  where
    not_has : (a : Text) (m : Dict ℕ) → count a (keys m) ≡ 0 → has a m ≡ false
    not_has a m h = elim (Bool-cases (has a m)) [
      | inl there ↦ absurd (omega (arith, has-true a m there, h))
      | inr missing ↦ missing
    ]

-- The graph of the orphans: each address with those that it waits for.
pub orphan_edges : List Step → List Step → Dict (List Text)
orphan_edges all [] = []
orphan_edges all (step ∷ steps) = (step.address, waiters step.address all) ∷ orphan_edges all steps

pub keys-orphan_edges :
    (all steps : List Step) → keys (orphan_edges all steps) ≡ step_addresses steps
unfolding orphan_edges keys step_addresses
keys-orphan_edges all [] = refl
keys-orphan_edges all (step ∷ steps) = λ i. step.address ∷ keys-orphan_edges all steps i

pub length-orphan_edges : (all steps : List Step) → length (orphan_edges all steps) ≡ length steps
unfolding orphan_edges
length-orphan_edges all [] = refl
length-orphan_edges all (step ∷ steps) = omega (arith, length-orphan_edges all steps)

get-orphan_edges :
    (x : Text) (all steps : List Step)
    → get [] x (orphan_edges all steps)
      ≡ (if count x (step_addresses steps) == 0 then [] else waiters x all)
unfolding orphan_edges get step_addresses count
get-orphan_edges x all [] = refl
get-orphan_edges x all (step ∷ steps) =
    ground (arith, get-orphan_edges x all steps, text_eq_iff step.address x)

module _ (steps : List Step) (distinct : IsDistinct (step_addresses steps)) where
  unfoldable pub edges : Dict (List Text)
  edges = orphan_edges steps steps

  pub distinct_edges : IsDistinct (keys edges)
  unfolding edges
  distinct_edges = rw (keys-orphan_edges steps steps) distinct

  pub present :
      (x : Text)
      → has x (orphan_table steps) ≡ (if count x (step_addresses steps) == 0 then false else true)
  present x = has-step_by_address x steps [] ∙ unfold has in refl

  zeroed :
      (x : Text)
      → (get 0 x (zero_indegrees steps []) ≡ 0)
        × (has x (zero_indegrees steps [])
            ≡ (if count x (step_addresses steps) == 0 then false else true))
        × (count x (keys (zero_indegrees steps [])) ≡ count x (step_addresses steps))
  zeroed x =
      let (degree, there, counted) =
        zero_indegrees_lem steps [] (λ a. unfold keys count in omega (arith, distinct a)) x
          (unfold get in refl) in
      (degree, there ∙ unfold has in refl, counted ∙ unfold keys count in omega arith)

  made :
      ((x : Text)
        → get 0 x (orphan_counts steps).0
          ≡ get 0 x (zero_indegrees steps [])
            + (if has x (orphan_table steps) then length (waiters x steps) else 0))
      × ((x a : Text)
          → count x (get [] a (orphan_counts steps).1)
            ≡ count x (get [] a [])
              + (if has x (orphan_table steps) then count a (waiters x steps) else 0))
      × ((x : Text)
          → count x (keys (orphan_counts steps).0) ≡ count x (keys (zero_indegrees steps [])))
  made =
      count_orphans_lem (orphan_table steps) steps (zero_indegrees steps []) []
        λ y h. ground (arith, h, present y, (zeroed y).1)

  pub edges_of :
      (x : Text)
      → get [] x edges ≡ (if count x (step_addresses steps) == 0 then [] else waiters x steps)
  unfolding edges
  edges_of x = get-orphan_edges x steps steps

  orphan_degree : (x : Text) → get 0 x (orphan_counts steps).0 ≡ length (get [] x edges)
  orphan_degree x = ground (arith, made.0 x, (zeroed x).0, present x, edges_of x)

  orphan_inverse :
      (x a : Text) → count x (get [] a (orphan_counts steps).1) ≡ count a (get [] x edges)
  orphan_inverse x a =
      let start : count x (get [] a []) ≡ 0 = unfold get count in refl in
      let nothing : count a [] ≡ 0 = unfold count in refl in
      ground (arith, made.1 x a, present x, edges_of x, start, nothing)

  orphan_keys : (x : Text) → count x (keys (orphan_counts steps).0) ≡ count x (keys edges)
  unfolding edges
  orphan_keys x = rw (keys-orphan_edges steps steps) (made.2 x ∙ (zeroed x).2)

  abbrev order : List Text → List Text
  order = sort_orphans (orphan_table steps)

  order_same : (x : Text) (xs : List Text) → count x (order xs) ≡ count x xs
  unfolding sort_orphans
  order_same x xs = count-sort_stable _ x xs

  abbrev first : List Text
  first = order (zero_degrees (orphan_counts steps).0)

  count-first :
      (x : Text)
      → count x first ≡ (if get 0 x (orphan_counts steps).0 == 0 then count x (keys edges) else 0)
  count-first x = ground (
    arith,
    order_same x (zero_degrees (orphan_counts steps).0),
    orphan_keys x,
    count-zero_degrees x (orphan_counts steps).0
        (λ a. omega (arith, orphan_keys a, distinct_edges a)),
  )

  Inv-first :
      Inv edges distinct_edges
        (orphan_counts steps).1
        orphan_inverse
        []
        first
        (orphan_counts steps).0
  Inv-first = record {
    within = λ x. unfold count in ground (arith, count-first x);
    degree = λ x key. orphan_degree x ∙ sym (waiting-nil (get [] x edges));
    ready = λ x key.
        unfold count in
        ground
          (arith, count-first x, orphan_degree x, waiting-nil (get [] x edges), distinct_edges x);
    closed = λ x h. absurd (unfold count in omega arith);
  }

  pub orphan_rounds_lem :
      (found : List (List Text)) × (orphan_rounds steps ≡ some found) × IsSchedule edges [] found
  orphan_rounds_lem =
      rounds_lem edges distinct_edges (orphan_counts steps).1 orphan_inverse order order_same
        (suc (length steps)) [] first (orphan_counts steps).0 Inv-first
        (unfold edges in omega (arith, length-orphan_edges steps steps))
