-- ===== src/Graph/Kahn/Tally.antt =====
-- What the first loop builds: the indegrees and the dependents.
use debianform.Base.{
  Text, ℕ, ◌+◌, ◌≤◌, List, [], ◌∷◌, ◌++◌, ◌≡◌, refl, length, ◌==◌, arith, if◌then◌else◌, count,
  count-append, text_eq, text_eq_iff, true, IsDistinct,
}
use debianform.Base.Dict.{
  Dict, insert, get, get-insert, keys, count-keys-insert, length-insert_new, has-true,
}
use debianform.Graph.Kahn.{add_dependents, tally, zero_degrees}

add_dependents_lem :
    (x a y : Text) (ds : List Text) (dependents : Dict (List Text))
    → count x (get [] a (add_dependents y ds dependents))
      ≡ count x (get [] a dependents) + (if text_eq y x then count a ds else 0)
unfolding add_dependents count
add_dependents_lem x a y [] dependents = ground arith
add_dependents_lem x a y (d ∷ ds) dependents =
    let old = get [] d dependents in
    let next = insert d (old ++ y ∷ []) dependents in
    ground (
      arith,
      add_dependents_lem x a y ds next,
      get-insert [] d a (old ++ y ∷ []) dependents,
      count-append x old (y ∷ []),
      text_eq_iff d a,
    )

-- An address that is no key has no dependencies.
pub get_of_absent :
    (x : Text) (edges : Dict (List Text)) → count x (keys edges) ≡ 0 → get [] x edges ≡ []
unfolding get keys count
get_of_absent x [] h = refl
get_of_absent x ((y, ds) ∷ edges) h = ground (arith, get_of_absent x edges)

IsDistinct-tail :
    (y : Text) (ds : List Text) (edges : Dict (List Text))
    → IsDistinct (keys ((y, ds) ∷ edges))
    → IsDistinct (keys edges)
unfolding keys count
IsDistinct-tail y ds edges h a = ground (arith, h a)

absent_of_head :
    (x y : Text) (ds : List Text) (edges : Dict (List Text))
    → IsDistinct (keys ((y, ds) ∷ edges))
    → text_eq y x ≡ true
    → count x (keys edges) ≡ 0
unfolding keys count
absent_of_head x y ds edges h e = ground (arith, h x)

-- Each key's indegree is the number of its dependencies.
pub tally_degree :
    (x : Text) (edges : Dict (List Text)) (indegree : Dict ℕ) (dependents : Dict (List Text))
    → IsDistinct (keys edges)
    → get 0 x (tally edges indegree dependents).0
      ≡ (if count x (keys edges) == 0 then get 0 x indegree else length (get [] x edges))
unfolding tally count keys get
tally_degree x [] indegree dependents h = ground arith
tally_degree x ((y, ds) ∷ edges) indegree dependents h = ground (
  arith,
  tally_degree x edges (insert y (length ds) indegree) (add_dependents y ds dependents)
      (IsDistinct-tail y ds edges h),
  get-insert 0 y x (length ds) indegree,
  absent_of_head x y ds edges h,
)

-- The dependents of `a` hold each key as often as that key depends on `a`.
pub tally_dependents :
    (x a : Text) (edges : Dict (List Text)) (indegree : Dict ℕ) (dependents : Dict (List Text))
    → IsDistinct (keys edges)
    → count x (get [] a (tally edges indegree dependents).1)
      ≡ count x (get [] a dependents) + count a (get [] x edges)
unfolding tally count get
tally_dependents x a [] indegree dependents h = ground arith
tally_dependents x a ((y, ds) ∷ edges) indegree dependents h = ground (
  arith,
  tally_dependents x a edges (insert y (length ds) indegree) (add_dependents y ds dependents)
      (IsDistinct-tail y ds edges h),
  add_dependents_lem x a y ds dependents,
  absent_of_head x y ds edges h,
  get_of_absent x edges,
)

-- The keys that are left to count are new.
abbrev AreNew : Dict ℕ → Dict (List Text) → Type 0
AreNew indegree edges = (a : Text) → count a (keys indegree) + count a (keys edges) ≤ 1

module _ (y : Text) (ds : List Text) (edges : Dict (List Text)) (indegree : Dict ℕ)
    (fresh : AreNew indegree ((y, ds) ∷ edges)) where
  head_new : count y (keys indegree) ≡ 0
  unfolding keys count
  head_new = ground (arith, fresh y, text_eq_iff y y)

  insert-keys :
      (a : Text)
      → count a (keys (insert y (length ds) indegree)) + count a (keys edges)
        ≡ count a (keys indegree) + count a (keys ((y, ds) ∷ edges))
  unfolding keys count
  insert-keys a = ground (
    arith,
    count-keys-insert y a (length ds) indegree,
    has-true a indegree,
    head_new,
    text_eq_iff y a,
  )

  AreNew-tail : AreNew (insert y (length ds) indegree) edges
  AreNew-tail a = omega (arith, insert-keys a, fresh a)

-- One entry for each key, with no key twice.
pub tally-keys :
    (x : Text) (edges : Dict (List Text)) (indegree : Dict ℕ) (dependents : Dict (List Text))
    → AreNew indegree edges
    → count x (keys (tally edges indegree dependents).0)
      ≡ count x (keys indegree) + count x (keys edges)
unfolding tally
tally-keys x [] indegree dependents h = unfold keys count in omega arith
tally-keys x ((y, ds) ∷ edges) indegree dependents h = omega (
  arith,
  insert-keys y ds edges indegree h x,
  tally-keys x edges (insert y (length ds) indegree) (add_dependents y ds dependents)
      (AreNew-tail y ds edges indegree h),
)

-- `len(indegree)` is the number of active entries.
pub length-tally :
    (edges : Dict (List Text)) (indegree : Dict ℕ) (dependents : Dict (List Text))
    → AreNew indegree edges
    → length (tally edges indegree dependents).0 ≡ length indegree + length edges
unfolding tally
length-tally [] indegree dependents h = omega arith
length-tally ((y, ds) ∷ edges) indegree dependents h = omega (
  arith,
  length-insert_new y (length ds) indegree (head_new y ds edges indegree h),
  length-tally edges (insert y (length ds) indegree) (add_dependents y ds dependents)
      (AreNew-tail y ds edges indegree h),
)

-- The addresses with indegree zero.
pub count-zero_degrees :
    (x : Text) (indegree : Dict ℕ)
    → IsDistinct (keys indegree)
    → count x (zero_degrees indegree)
      ≡ (if get 0 x indegree == 0 then count x (keys indegree) else 0)
unfolding zero_degrees count keys get
count-zero_degrees x [] h = ground arith
count-zero_degrees x ((a, n) ∷ indegree) h =
    ground (arith, count-zero_degrees x indegree (λ b. ground (arith, h b)), h x, text_eq_iff a x)
