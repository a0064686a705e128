-- ===== src/Engine/Orphans/Protection.antt =====
-- What is destroyed when resources leave the configuration.
use debianform.Base.{
  Text, text, List, [], ◌∷◌, ◌≡◌, refl, arith, some, true, false, ◌&&◌, text_eq, Result, ok, err,
  Bool-cases, inl, inr, ◌⊎◌,
}
use debianform.Base.Dict.{Dict, has}
use debianform.State.{Resource}
use debianform.Graph.{Node}
use debianform.Engine.{destroy, forget, Step, EngineError, no_node}
use debianform.Engine.Values.{prevents_destroy}
use debianform.Engine.Orphans.{orphan_action, forget_orphan, is_destroy, orphans_of}

-- What holds of the step for one resource that the graph no longer has.
pub record IsSafe (desired : Dict Node) (host address : Text) (prior : Resource) (step : Step)
    : Type 0 where
  pub named : step.address ≡ address
  pub on_host : step.host ≡ host
  pub recorded : step.prior ≡ some prior
  pub unwanted : has address desired ≡ false
  pub fate :
      (step.action ≡ forget)
      ⊎ ((step.action ≡ destroy)
          × (prevents_destroy prior.lifecycle ≡ false)
          × (text_eq prior.ownership (text "adopted") ≡ false)
          × (forget_orphan prior ≡ false))

-- The steps answer to the resources that are not desired, one each and in their order.
abbrev pub AreSafe : Dict Node → Text → Dict Resource → List Step → Type 0
AreSafe desired host [] [] = Unit
AreSafe desired host [] (step ∷ steps) = ⊥
AreSafe desired host ((address, prior) ∷ rest) [] =
    (has address desired ≡ true) × AreSafe desired host rest []
AreSafe desired host ((address, prior) ∷ rest) (step ∷ steps) =
    ((has address desired ≡ true) × AreSafe desired host rest (step ∷ steps))
    ⊎ (IsSafe desired host address prior step × AreSafe desired host rest steps)

skip :
    (desired : Dict Node) (host address : Text) (prior : Resource) (rest : Dict Resource)
    (steps : List Step)
    → has address desired ≡ true
    → AreSafe desired host rest steps
    → AreSafe desired host ((address, prior) ∷ rest) steps
skip desired host address prior rest [] wanted safe = (wanted, safe)
skip desired host address prior rest (step ∷ steps) wanted safe = inl (wanted, safe)

made : Text → Dict Node → Text → Resource → Step
made host desired address prior = record {
  address = address;
  host = host;
  action = (orphan_action host address prior desired).0;
  summary = (orphan_action host address prior desired).1;
  node = no_node;
  prior = some prior;
  observed = [];
  ownership = [];
  order = 0;
}

made-IsSafe :
    (desired : Dict Node) (host address : Text) (prior : Resource)
    → has address desired ≡ false
    → (is_destroy (orphan_action host address prior desired).0 && prevents_destroy prior.lifecycle)
      ≡ false
    → IsSafe desired host address prior (made host desired address prior)
unfolding made orphan_action is_destroy
made-IsSafe desired host address prior unwanted passed = record {
  named = refl;
  on_host = refl;
  recorded = refl;
  unwanted = unwanted;
  fate = ground (arith, passed);
}

-- One round of the loop.
orphans_of_cons :
    (desired : Dict Node) (host address : Text) (prior : Resource) (rest : Dict Resource)
    (steps : List Step)
    → orphans_of host desired ((address, prior) ∷ rest) ≡ ok steps
    → ((has address desired ≡ true) × (orphans_of host desired rest ≡ ok steps))
      ⊎ ((later : List Step) × (orphans_of host desired rest ≡ ok later)
          × (steps ≡ made host desired address prior ∷ later)
          × IsSafe desired host address prior (made host desired address prior))
unfolding orphans_of made
orphans_of_cons desired host address prior rest steps h = elim (Bool-cases (has address desired)) [
  | inl wanted ↦ inl (wanted, ground (arith, h, wanted))
  | inr unwanted ↦
      elim (Bool-cases (
        is_destroy (orphan_action host address prior desired).0
        && prevents_destroy prior.lifecycle)) [
          | inl refused ↦ absurd (ground (arith, h, unwanted, refused))
          | inr passed ↦ go unwanted passed (orphans_of host desired rest) refl
        ]
]
  where
    go :
        has address desired ≡ false
        → (is_destroy (orphan_action host address prior desired).0
            && prevents_destroy prior.lifecycle)
          ≡ false
        → (r : Result EngineError (List Step)) → orphans_of host desired rest ≡ r
        → ((has address desired ≡ true) × (orphans_of host desired rest ≡ ok steps))
          ⊎ ((later : List Step) × (orphans_of host desired rest ≡ ok later)
              × (steps ≡ made host desired address prior ∷ later)
              × IsSafe desired host address prior (made host desired address prior))
    go unwanted passed (ok later) e = inr (
      later,
      e,
      ground (arith, h, unwanted, passed, e),
      made-IsSafe desired host address prior unwanted passed,
    )
    go unwanted passed (err x) e = absurd (ground (arith, h, unwanted, passed, e))

-- Where the loop over a host's resources succeeds, it makes one step for each resource that the
-- graph no longer has, in their order, and none for another. The step destroys or forgets; it
-- destroys only a resource that is not protected, was not adopted and is not of a kept kind.
pub orphans_of-AreSafe :
    (desired : Dict Node) (host : Text) (resources : Dict Resource) (steps : List Step)
    → orphans_of host desired resources ≡ ok steps
    → AreSafe desired host resources steps
orphans_of-AreSafe desired host [] steps h =
    let e : [] ≡ steps = unfold orphans_of in cc in rw (← e) tt
orphans_of-AreSafe desired host ((address, prior) ∷ rest) steps h =
    elim (orphans_of_cons desired host address prior rest steps h) [
      | inl (wanted, later) ↦
          skip desired host address prior rest steps wanted
            (orphans_of-AreSafe desired host rest steps later)
      | inr (later, e, same, safe) ↦
          rw same (inr (safe, orphans_of-AreSafe desired host rest later e))
    ]
