-- ===== src/Engine/Preparation/Tracks.antt =====
-- What reconcileStateDependencies of internal/core/engine/engine.go makes of the dependencies.
use debianform.Base.{
  Text, List, [], ◌∷◌, map, Bool, true, ◌&&◌, if◌then◌else◌, ◌≡◌, refl, text_eq, text_eq_iff, ◌∙◌,
  Option, none, some, arith, inl, inr, Bool-cases, Option-cases, count, IsDistinct,
}
use debianform.Base.Dict.{Dict, lookup, insert, has, lookup-insert, has-insert, has-some, has-none}
use debianform.Graph.{Node}
use debianform.State.{Resource}
use debianform.Engine.Apply.{texts_eq, tracked_state_dependencies, reconcile_state_dependencies}

texts_eq-true : (xs ys : List Text) → texts_eq xs ys ≡ true → xs ≡ ys
unfolding texts_eq
texts_eq-true [] [] h = refl
texts_eq-true [] (b ∷ bs) h = absurd (ground (arith, h))
texts_eq-true (a ∷ rest) [] h = absurd (ground (arith, h))
texts_eq-true (a ∷ rest) (b ∷ bs) h =
    let first : a ≡ b = (text_eq_iff a b).0 (ground (arith, h)) in
    let others : rest ≡ bs = texts_eq-true rest bs (ground (arith, h)) in cc (first, others)

-- Two tables hold the same addresses.
abbrev SameKeys : Dict Resource → Dict Resource → Type 0
SameKeys resources resources' = (a : Text) → has a resources' ≡ has a resources

tracked_same :
    (deps : List Text) (resources resources' : Dict Resource)
    → SameKeys resources resources'
    → tracked_state_dependencies deps resources' ≡ tracked_state_dependencies deps resources
unfolding tracked_state_dependencies
tracked_same [] resources resources' same = refl
tracked_same (d ∷ deps) resources resources' same =
    ground (arith, same d, tracked_same deps resources resources' same)

-- The resource with the dependencies that are tracked.
abbrev tracked_resource : Node → Dict Resource → Resource → Resource
tracked_resource node resources resource = record resource {
  depends_on = tracked_state_dependencies node.depends_on resources;
}

-- The entry of an address after the round of a node.
abbrev tracked_entry : Node → Dict Resource → Option Resource → Option Resource
tracked_entry node resources none = none
tracked_entry node resources (some resource) = some (tracked_resource node resources resource)

tracked_entry_same :
    (node : Node) (resources resources' : Dict Resource) (o : Option Resource)
    → SameKeys resources resources'
    → tracked_entry node resources' o ≡ tracked_entry node resources o
tracked_entry_same node resources resources' none same = refl
tracked_entry_same node resources resources' (some resource) same =
    let deps = tracked_same node.depends_on resources resources' same in cc deps

-- One round of the loop: the entry of the node's address gets the tracked dependencies.
abbrev Rounds : Text → Node → List Node → Dict Resource → Bool → Type 0
Rounds host node nodes resources changed =
    (resources' : Dict Resource) × (changed' : Bool) × (reconcile_state_dependencies host
        (node ∷ nodes) resources changed
      ≡ reconcile_state_dependencies host nodes resources' changed')
    × SameKeys resources resources'
    × ((a : Text)
        → lookup a resources' ≡ (
            if text_eq node.host host && text_eq node.address a
            then tracked_entry node resources (lookup a resources)
            else lookup a resources))

one_round :
    (host : Text) (node : Node) (nodes : List Node) (resources : Dict Resource) (changed : Bool)
    → Rounds host node nodes resources changed
unfolding reconcile_state_dependencies
one_round host node nodes resources changed = elim (Bool-cases (text_eq node.host host)) [
  | inr foreign ↦
      (resources, changed, ground (arith, foreign), (λ a. refl), λ a. ground (arith, foreign))
  | inl own ↦ go own (lookup node.address resources) refl
]
  where
    go :
        text_eq node.host host ≡ true
        → (o : Option Resource) → lookup node.address resources ≡ o
        → Rounds host node nodes resources changed
    go own none e = (
      resources,
      changed,
      ground (arith, own, e),
      (λ a. refl),
      λ a. ground (arith, own, e, text_eq_iff node.address a),
    )
    go own (some resource) e =
        let deps = tracked_state_dependencies node.depends_on resources in
        elim (Bool-cases (texts_eq resource.depends_on deps)) [
          | inl equal ↦
              let already : resource ≡ tracked_resource node resources resource =
                rw (← texts_eq-true resource.depends_on deps equal) refl in
              (
                resources,
                changed,
                ground (arith, own, e, equal),
                (λ a. refl),
                λ a. ground (arith, own, e, already, text_eq_iff node.address a),
              )
          | inr differ ↦
              let next = tracked_resource node resources resource in
              (
                insert node.address next resources,
                true,
                ground (arith, own, e, differ),
                (λ a. ground (
                  arith,
                  has-insert node.address a next resources,
                  has-some node.address resource resources e,
                  text_eq_iff node.address a,
                )),
                λ a. ground (
                  arith,
                  own,
                  e,
                  lookup-insert node.address a next resources,
                  text_eq_iff node.address a,
                ),
              )
        ]

-- The node of a host with an address: the first, if any.
abbrev pub node_at : Text → Text → List Node → Option Node
node_at host a [] = none
node_at host a (node ∷ nodes) =
    if text_eq node.host host && text_eq node.address a then some node else node_at host a nodes

abbrev pub addresses_of_nodes : List Node → List Text
addresses_of_nodes nodes = map (λ (node : Node). node.address) nodes

node_at_absent :
    (host a : Text) (nodes : List Node)
    → count a (addresses_of_nodes nodes) ≡ 0
    → node_at host a nodes ≡ none
unfolding count
node_at_absent host a [] h = refl
node_at_absent host a (node ∷ nodes) h = ground (arith, h, node_at_absent host a nodes)

-- What an address holds after the reconciliation.
abbrev reconciled_entry : Option Node → Dict Resource → Option Resource → Option Resource
reconciled_entry none resources o = o
reconciled_entry (some node) resources o = tracked_entry node resources o

reconciled_entry_same :
    (n : Option Node) (resources resources' : Dict Resource) (o : Option Resource)
    → SameKeys resources resources'
    → reconciled_entry n resources' o ≡ reconciled_entry n resources o
reconciled_entry_same none resources resources' o same = refl
reconciled_entry_same (some node) resources resources' o same =
    tracked_entry_same node resources resources' o same

-- What the reconciliation leaves, by the node of an address and by the code's own filter.
reconcile_state_dependencies-entry :
    (host : Text) (nodes : List Node) (resources : Dict Resource) (changed : Bool)
    → IsDistinct (addresses_of_nodes nodes)
    → (a : Text)
    → (lookup a (reconcile_state_dependencies host nodes resources changed).0
        ≡ reconciled_entry (node_at host a nodes) resources (lookup a resources))
      × (has a (reconcile_state_dependencies host nodes resources changed).0 ≡ has a resources)
reconcile_state_dependencies-entry host [] resources changed distinct a =
    unfold reconcile_state_dependencies in (refl, refl)
reconcile_state_dependencies-entry host (node ∷ nodes) resources changed distinct a =
    let (resources', changed', next, keys, holds) = one_round host node nodes resources changed in
    let rest : IsDistinct (addresses_of_nodes nodes) =
      λ x. unfold count in ground (arith, distinct x) in
    let (entry, kept) = reconcile_state_dependencies-entry host nodes resources' changed' rest a in
    let held : lookup a (reconcile_state_dependencies host nodes resources' changed').0
        ≡ reconciled_entry (node_at host a (node ∷ nodes)) resources (lookup a resources) =
      elim (Bool-cases (text_eq node.host host && text_eq node.address a)) [
        | inl here ↦
            let later : node_at host a nodes ≡ none =
              node_at_absent host a nodes (unfold count in ground (arith, distinct a, here)) in
            ground (arith, entry, later, holds a, here)
        | inr elsewhere ↦ ground (
          arith,
          entry,
          holds a,
          elsewhere,
          reconciled_entry_same (node_at host a nodes) resources resources' (lookup a resources)
              keys,
        )
      ] in
    rw next (held, kept ∙ keys a)

-- The dependencies that are a resource of the table, in their order.
abbrev pub recorded_ones : Dict Resource → List Text → List Text
recorded_ones resources [] = []
recorded_ones resources (d ∷ deps) = elim (lookup d resources) [
  | none ↦ recorded_ones resources deps
  | some resource ↦ d ∷ recorded_ones resources deps
]

tracked_state_dependencies-recorded_ones :
    (deps : List Text) (resources : Dict Resource)
    → tracked_state_dependencies deps resources ≡ recorded_ones resources deps
unfolding tracked_state_dependencies
tracked_state_dependencies-recorded_ones [] resources = refl
tracked_state_dependencies-recorded_ones (d ∷ deps) resources =
    elim (Option-cases (lookup d resources)) [
      | inl absent ↦ ground (
        arith,
        absent,
        has-none d resources absent,
        tracked_state_dependencies-recorded_ones deps resources,
      )
      | inr (resource, found) ↦ ground (
        arith,
        found,
        has-some d resource resources found,
        tracked_state_dependencies-recorded_ones deps resources,
      )
    ]

-- What becomes of the entry of an address: only a recorded resource of a node of the host changes,
-- and only in its dependencies, which are then those of the node that the table records.
abbrev pub Tracked : Dict Resource → Option Node → Option Resource → Option Resource → Type 0
Tracked resources owner none after = after ≡ none
Tracked resources none (some resource) after = after ≡ some resource
Tracked resources (some node) (some resource) after =
    after ≡ some (record resource { depends_on = recorded_ones resources node.depends_on })

entry-Tracked :
    (resources : Dict Resource) (node : Option Node) (o after : Option Resource)
    → after ≡ reconciled_entry node resources o
    → Tracked resources node o after
entry-Tracked resources none none after h = h
entry-Tracked resources (some node) none after h = h
entry-Tracked resources none (some resource) after h = h
entry-Tracked resources (some node) (some resource) after h =
    let same = tracked_state_dependencies-recorded_ones node.depends_on resources in
    h ∙ (λ i. some (record resource { depends_on = same i }))

-- With the addresses of the nodes distinct: a recorded resource whose address a node of the host has
-- gets those dependencies of the node that are addresses of recorded resources, in the node's
-- order, and nothing else of it changes; every other address holds what it held, and no address is
-- added or lost.
pub reconcile_state_dependencies-Tracked :
    (host : Text) (nodes : List Node) (resources : Dict Resource) (changed : Bool)
    → IsDistinct (addresses_of_nodes nodes)
    → (a : Text)
    → Tracked resources
        (node_at host a nodes)
        (lookup a resources)
        (lookup a (reconcile_state_dependencies host nodes resources changed).0)
      × (has a (reconcile_state_dependencies host nodes resources changed).0 ≡ has a resources)
reconcile_state_dependencies-Tracked host nodes resources changed distinct a =
    let (entry, kept) =
      reconcile_state_dependencies-entry host nodes resources changed distinct a in
    (entry-Tracked resources (node_at host a nodes) (lookup a resources) _ entry, kept)
