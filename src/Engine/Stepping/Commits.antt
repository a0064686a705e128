-- ===== src/Engine/Stepping/Commits.antt =====
-- How a resource step can end.
use debianform.Base.{Text, List, ◌≡◌, Option, none, some, false, contains, ◌⊎◌, ok, err}
use debianform.Base.Dict.{Dict, insert, get}
use debianform.Value.{Attributes}
use debianform.State.{State, StateError, Hashing}
use debianform.Engine.{Step, EngineError, write_failed, unknown_host}
use debianform.Engine.Apply.{state_after}
use debianform.Engine.Stepping.{Services, Stepped, no_state, call_provider}

module _ {W : Type 0} (services : Services W) (hashing : Hashing) where
  -- The world, the states and the failure at the end of a step. With no state to be written nothing
  -- is called. Otherwise the backend's Write is called, and the world is what it leaves: if it fails,
  -- the step has its error and no state changes; if not, the host's state becomes what it returned.
  abbrev pub Commits : Step → W → Dict State → Option State → Stepped W → Type 0
  Commits step w states none r = (r.world ≡ w) × (r.states ≡ states) × (r.failure ≡ none)
  Commits step w states (some next) r =
      (r.world ≡ (services.write step.host next w).0)
      × (((e : StateError) × ((services.write step.host next w).1 ≡ err e)
            × (r.states ≡ states)
            × (r.failure ≡ some (write_failed e)))
          ⊎ ((committed : State) × ((services.write step.host next w).1 ≡ ok committed)
              × (r.states ≡ insert step.host committed states)
              × (r.failure ≡ none)))

  -- The host is unknown, the provider fails, or what the provider observed is committed.
  abbrev pub Ends : List Text → Text → Step → Dict State → W → Stepped W → Type 0
  Ends hosts now step states w r =
      ((contains hosts step.host ≡ false)
        × (r.world ≡ w)
        × (r.states ≡ states)
        × (r.failure ≡ some (unknown_host step.address step.host)))
      ⊎ ((e : EngineError) × ((call_provider services hashing step.action step w).1 ≡ err e)
          × (r.world ≡ (call_provider services hashing step.action step w).0)
          × (r.states ≡ states)
          × (r.failure ≡ some e))
      ⊎ ((observed : Option Attributes) × ((call_provider services hashing step.action step w).1
            ≡ ok observed)
          × Commits step (call_provider services hashing step.action step w).0 states
              (state_after hashing step now observed (get no_state step.host states)) r)
