-- ===== src/Engine/Apply/Records.antt =====
-- What a resource step leaves in the state.
use debianform.Base.{
  Text, text, Bool-cases, ◌⊎◌, List, [], ◌∷◌, ◌≡◌, refl, arith, Option, none, some, false,
  if◌then◌else◌, text_eq, text_eq_iff, text_eq_refl, count, inl, inr,
}
use debianform.Base.Dict.{Dict, lookup, delete, lookup-insert, lookup-delete, has}
use debianform.State.{Resource, State, Hashing}
use debianform.Value.{Attributes}
use debianform.Engine.{
  Step, Action, create, update, delete as act_delete, destroy, adopt, forget, no_op, run, other,
}
use debianform.Engine.Apply.{
  drop_dependency, remove_state_dependency_references, tracked_state_dependencies,
  resource_state_for_step, recorded, removed, applied, state_for_action, state_after,
}

count-drop_dependency :
    (removed d : Text) (deps : List Text)
    → count d (drop_dependency removed deps) ≡ (if text_eq removed d then 0 else count d deps)
unfolding drop_dependency count
count-drop_dependency removed d [] = ground arith
count-drop_dependency removed d (e ∷ deps) = ground (
  arith,
  count-drop_dependency removed d deps,
  text_eq_iff e removed,
  text_eq_iff e d,
  text_eq_iff removed d,
)

-- The resource without the removed dependency.
pub forgets : Text → Resource → Resource
forgets removed resource = record resource {
  depends_on = drop_dependency removed resource.depends_on;
}

-- After the removal an address holds what it held, without the removed dependency, and no
-- resource depends on the removed address.
pub lookup-remove_state_dependency_references :
    (removed address : Text) (resources : Dict Resource)
    → lookup address (remove_state_dependency_references resources removed)
      ≡ elim (lookup address resources) [ none ↦ none | some r ↦ some (forgets removed r) ]
unfolding remove_state_dependency_references lookup forgets
lookup-remove_state_dependency_references removed address [] = refl
lookup-remove_state_dependency_references removed address ((a, r) ∷ rest) =
    ground (arith, lookup-remove_state_dependency_references removed address rest)

no_dependency_left :
    (removed address : Text) (r : Resource) (resources : Dict Resource)
    → lookup address (remove_state_dependency_references resources removed) ≡ some r
    → count removed r.depends_on ≡ 0
unfolding forgets
no_dependency_left removed address r resources h = go (lookup address resources) refl
  where
    go : (o : Option Resource) → lookup address resources ≡ o → count removed r.depends_on ≡ 0
    go none e =
        absurd (
          ground (arith, h, e, lookup-remove_state_dependency_references removed address resources))
    go (some q) e =
        let same : r ≡ forgets removed q =
          unfold forgets in
          ground
            (arith, h, e, lookup-remove_state_dependency_references removed address resources) in
        rw same
          (ground (arith, count-drop_dependency removed removed q.depends_on, text_eq_refl removed))

-- The dependencies that stay are those with a resource in the state.
pub count-tracked_state_dependencies :
    (d : Text) (deps : List Text) (resources : Dict Resource)
    → count d (tracked_state_dependencies deps resources)
      ≡ (if has d resources then count d deps else 0)
unfolding tracked_state_dependencies count
count-tracked_state_dependencies d [] resources = ground arith
count-tracked_state_dependencies d (e ∷ deps) resources =
    ground (arith, count-tracked_state_dependencies d deps resources, text_eq_iff e d)

-- The state after a step that removes its resource.
pub record IsRemoved (step : Step) (st st' : State) : Type 0 where
  pub unneeded :
      (a : Text) (r : Resource)
      → lookup a st'.resources ≡ some r
      → count step.address r.depends_on ≡ 0
  pub holds :
      (a : Text)
      → lookup a st'.resources ≡ (
          if text_eq step.address a then none else elim (lookup a st.resources) [
            | none ↦ none
            | some r ↦ some (forgets step.address r)
          ])
  pub serial : st'.serial ≡ st.serial

-- The state after a step that records its resource.
pub record IsRecorded (hashing : Hashing) (step : Step) (now : Text) (values : Attributes)
    (st st' : State) : Type 0 where
  pub holds :
      (a : Text)
      → lookup a st'.resources ≡ (
          if text_eq step.address a
          then some (resource_state_for_step hashing step values now)
          else lookup a st.resources)
  pub serial : st'.serial ≡ st.serial

module _ (hashing : Hashing) where
  removed-IsRemoved : (step : Step) (st : State) → IsRemoved step st (removed hashing step st)
  unfolding removed
  removed-IsRemoved step st =
      let left = delete step.address st.resources in
      record {
        unneeded = λ a r h. no_dependency_left step.address a r left (unfold removed in h);
        holds = λ a. ground (
          arith,
          lookup-remove_state_dependency_references step.address a left,
          lookup-delete step.address a st.resources,
        );
        serial = refl;
      }

  recorded-IsRecorded :
      (step : Step) (now : Text) (values : Attributes) (st : State)
      → IsRecorded hashing step now values st (recorded hashing step values now st)
  unfolding recorded
  recorded-IsRecorded step now values st =
      let kept = resource_state_for_step hashing step values now in
      record { holds = λ a. lookup-insert step.address a kept st.resources; serial = refl }

  abbrev pub LeavesRecorded : Step → Text → Attributes → State → Option State → Type 0
  LeavesRecorded step now values st out =
      (st' : State) × (out ≡ some st') × IsRecorded hashing step now values st st'

  abbrev pub LeavesRemoved : Step → State → Option State → Type 0
  LeavesRemoved step st out = (st' : State) × (out ≡ some st') × IsRemoved step st st'

  -- The values are the provider's answer, or else the step's.
  abbrev pub LeavesApplied : Step → Text → Option Attributes → State → Option State → Type 0
  LeavesApplied step now observed st out =
      ((step.node.kind ≡ text "component_script_output") × (out ≡ none))
      ⊎ ((text_eq step.node.kind (text "component_script_output") ≡ false)
          × LeavesRecorded step now (elim observed [ none ↦ step.observed | some values ↦ values ])
              st out)

  applied-LeavesApplied :
      (step : Step) (now : Text) (observed : Option Attributes) (st : State)
      → LeavesApplied step now observed st (applied hashing step now observed st)
  unfolding applied
  applied-LeavesApplied step now observed st =
      let values : Attributes = elim observed [ none ↦ step.observed | some values ↦ values ] in
      elim (Bool-cases (text_eq step.node.kind (text "component_script_output"))) [
        | inl script ↦
            inl ((text_eq_iff step.node.kind (text "component_script_output")).0 script, rw script)
        | inr resource ↦ inr (
          resource,
          (
            recorded hashing step values now st,
            rw resource,
            recorded-IsRecorded step now values st,
          ),
        )
      ]

  -- What a step of the action leaves to be written.
  abbrev pub Leaves : Step → Text → Option Attributes → State → Option State → Action → Type 0
  Leaves step now observed st out create = LeavesApplied step now observed st out
  Leaves step now observed st out update = LeavesApplied step now observed st out
  Leaves step now observed st out act_delete = LeavesRemoved step st out
  Leaves step now observed st out destroy = LeavesRemoved step st out
  Leaves step now observed st out forget = LeavesRemoved step st out
  Leaves step now observed st out adopt = LeavesRecorded step now step.observed st out
  Leaves step now observed st out _ = out ≡ none

  state_for_action-Leaves :
      (action : Action) (step : Step) (now : Text) (observed : Option Attributes) (st : State)
      → Leaves step now observed st (state_for_action hashing action step now observed st) action
  unfolding state_for_action
  state_for_action-Leaves create step now observed st = applied-LeavesApplied step now observed st
  state_for_action-Leaves update step now observed st = applied-LeavesApplied step now observed st
  state_for_action-Leaves act_delete step now observed st =
      (removed hashing step st, refl, removed-IsRemoved step st)
  state_for_action-Leaves destroy step now observed st =
      (removed hashing step st, refl, removed-IsRemoved step st)
  state_for_action-Leaves forget step now observed st =
      (removed hashing step st, refl, removed-IsRemoved step st)
  state_for_action-Leaves adopt step now observed st = (
    recorded hashing step step.observed now st,
    refl,
    recorded-IsRecorded step now step.observed st,
  )
  state_for_action-Leaves no_op step now observed st = refl
  state_for_action-Leaves run step now observed st = refl
  state_for_action-Leaves (other a) step now observed st = refl

  -- After create and update, other than of a script's output, and after adopt, the state holds the
  -- step's resource, and every other address as before. After delete, destroy and forget the
  -- resource is gone, no resource depends on it, and every other address holds what it held, less
  -- that dependency. No other action writes. The serial stays.
  pub state_after-Leaves :
      (step : Step) (now : Text) (observed : Option Attributes) (st : State)
      → Leaves step now observed st (state_after hashing step now observed st) step.action
  unfolding state_after
  state_after-Leaves step now observed st = state_for_action-Leaves step.action step now observed st
