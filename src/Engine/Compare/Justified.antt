-- ===== src/Engine/Compare/Justified.antt =====
-- When Compare chooses which action.
use debianform.Base.{
  ◌≡◌, refl, arith, Option, none, some, Bool, true, false, text_eq, text_eq_iff, ◌⊎◌, inl, inr,
}
use debianform.State.{Resource, Hashing, desired_digest}
use debianform.Graph.{Node}
use debianform.Engine.{Action, create, update, delete, adopt, no_op, Observed}
use debianform.Engine.Values.{desired_ensure_absent}
use debianform.Engine.Compare.{
  change_action_completion_pending, observed_values, planned, in_sync, out_of_sync, compare_node,
}

module _ (hashing : Hashing) where
  -- The resource is wanted, and it is there.
  abbrev pub IsPresent : Node → Observed → Type 0
  IsPresent node observed = (desired_ensure_absent node ≡ false) × (observed.exists ≡ true)

  abbrev pub Justifies : Node → Option Resource → Observed → Action → Type 0
  Justifies node prior observed create =
      (desired_ensure_absent node ≡ false) × (observed.exists ≡ false)
  Justifies node prior observed delete =
      (desired_ensure_absent node ≡ true) × (observed.exists ≡ true)
  Justifies node prior observed update =
      IsPresent node observed
      × ((text_eq observed.desired_digest (desired_digest hashing node.desired) ≡ false)
          ⊎ (change_action_completion_pending hashing node prior ≡ true))
  Justifies node prior observed adopt =
      IsPresent node observed
      × (observed.desired_digest ≡ desired_digest hashing node.desired)
      × (prior ≡ none)
  Justifies node prior observed no_op =
      ((desired_ensure_absent node ≡ true) × (observed.exists ≡ false))
      ⊎ (IsPresent node observed
          × (observed.desired_digest ≡ desired_digest hashing node.desired)
          × (change_action_completion_pending hashing node prior ≡ false)
          × ((recorded : Resource) × (prior ≡ some recorded)))
  Justifies node prior observed _ = ⊥

  in_sync-Justifies :
      (node : Node) (prior : Option Resource) (observed : Observed)
      → IsPresent node observed
      → text_eq observed.desired_digest (desired_digest hashing node.desired) ≡ true
      → Justifies node prior observed
          (in_sync hashing node prior (observed_values hashing observed)).action
  unfolding in_sync
  in_sync-Justifies node none observed here same = (
    here,
    (text_eq_iff observed.desired_digest (desired_digest hashing node.desired)).0 same,
    refl,
  )
  in_sync-Justifies node (some prior) observed here same =
      go (change_action_completion_pending hashing node (some prior)) refl
    where
      go :
          (pending : Bool)
          → change_action_completion_pending hashing node (some prior) ≡ pending
          → Justifies node
              (some prior)
              observed
              (in_sync hashing node (some prior) (observed_values hashing observed)).action
      go true e = rw (e, in_sync) (here, inr e)
      go false e =
          rw (e, in_sync)
            (inr (
              here,
              (text_eq_iff observed.desired_digest (desired_digest hashing node.desired)).0 same,
              e,
              (prior, refl),
            ))

  out_of_sync_action :
      (node : Node) (prior : Option Resource) (observed : Observed)
      → (out_of_sync hashing node prior observed.desired_digest
          (observed_values hashing observed)).action
        ≡ update
  unfolding out_of_sync
  out_of_sync_action node none observed = refl
  out_of_sync_action node (some prior) observed = ground arith

  -- Compare creates only a resource that is wanted and missing, deletes only one that is there and
  -- wanted absent, updates one whose digest differs or whose change action has not completed,
  -- adopts one in sync that the state does not record, and leaves one alone that is absent as
  -- wanted or recorded and in sync. It chooses no other action.
  pub compare_node-Justifies :
      (node : Node) (prior : Option Resource) (observed : Observed)
      → Justifies node prior observed (compare_node hashing node prior observed).action
  unfolding compare_node planned
  compare_node-Justifies node prior observed =
      go (desired_ensure_absent node) refl observed.exists refl
        (text_eq observed.desired_digest (desired_digest hashing node.desired)) refl
    where
      go :
          (absent : Bool)
          → desired_ensure_absent node ≡ absent
          → (there : Bool) → observed.exists ≡ there
          → (same : Bool)
          → text_eq observed.desired_digest (desired_digest hashing node.desired) ≡ same
          → Justifies node prior observed (compare_node hashing node prior observed).action
      go true a true t same s =
          let e : (compare_node hashing node prior observed).action ≡ delete =
            ground (arith, a, t) in
          rw e (a, t)
      go true a false t same s =
          let e : (compare_node hashing node prior observed).action ≡ no_op =
            ground (arith, a, t) in
          rw e (inl (a, t))
      go false a false t same s =
          let e : (compare_node hashing node prior observed).action ≡ create =
            ground (arith, a, t) in
          rw e (a, t)
      go false a true t true s =
          let e : compare_node hashing node prior observed
              ≡ in_sync hashing node prior (observed_values hashing observed) =
            ground (arith, a, t, s) in
          rw e (in_sync-Justifies node prior observed (a, t) s)
      go false a true t false s =
          let e : (compare_node hashing node prior observed).action ≡ update =
            ground (arith, a, t, s, out_of_sync_action node prior observed) in
          rw e ((a, t), inl s)

-- A recorded resource that is wanted and there, in sync, with no change action to run.
pub compare_node_no_op :
    (hashing : Hashing) (node : Node) (prior : Resource) (observed : Observed)
    → desired_ensure_absent node ≡ false
    → observed.exists ≡ true
    → observed.desired_digest ≡ desired_digest hashing node.desired
    → change_action_completion_pending hashing node (some prior) ≡ false
    → (compare_node hashing node (some prior) observed).action ≡ no_op
unfolding compare_node in_sync planned
compare_node_no_op hashing node prior observed wanted exists same pending =
    let equal : text_eq observed.desired_digest (desired_digest hashing node.desired) ≡ true =
      (text_eq_iff observed.desired_digest (desired_digest hashing node.desired)).1 same in
    rw (compare_node, wanted, exists, equal, in_sync, pending) refl
