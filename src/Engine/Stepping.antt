-- ===== src/Engine/Stepping.antt =====
-- executeResourceStep of internal/core/engine/engine.go: the call of the provider, the change of the
-- host's state, and the write. The provider and the backend are parameters that work on a world of
-- their own. The step holds its host's lock from the reading of the state to the end.
pub mod Commits
use debianform.Base.{
  Text, List, [], ◌∷◌, Option, none, some, Bool, true, false, if◌then◌else◌, contains, Result, ok,
  err,
}
use debianform.Base.Dict.{Dict, insert, get}
use debianform.Value.{Attributes}
use debianform.State.{State, StateError, Hashing}
use debianform.Engine.{
  Action, create, update, delete, destroy, adopt, forget, no_op, run, other, Step, EngineError,
  unknown_host, provider_failed, unsupported_action, write_failed,
}
use debianform.Engine.Apply.{provider_step, state_after}
use debianform.Engine.Planning.{action_text}

-- What the engine calls: the provider's Apply and Destroy, and the backend's Write. A failure of
-- the provider is its message.
pub record Services (W : Type 0) : Type 0 where
  pub apply : Step → W → W × Result Text (Option Attributes)
  pub remove : Step → W → W × Option Text
  pub write : Text → State → W → W × Result StateError State

pub record Stepped (W : Type 0) : Type 0 where
  pub world : W
  pub states : Dict State
  pub failure : Option EngineError

-- The state of a host that is not in the map.
abbrev pub no_state : State
no_state = record {
  version = 0;
  host = [];
  serial = 0;
  updated_at = [];
  facts = none;
  resources = [];
}

module _ {W : Type 0} (services : Services W) (hashing : Hashing) where
  pub applied_by : Step → W → W × Result EngineError (Option Attributes)
  applied_by step w =
      let (w', answer) = services.apply (provider_step step) w in
      (
        w',
        elim answer [
          | ok observed ↦ ok observed
          | err message ↦ err (provider_failed step.address message)
        ],
      )

  pub destroyed_by : Step → W → W × Result EngineError (Option Attributes)
  destroyed_by step w =
      let (w', failure) = services.remove step w in
      (
        w',
        elim failure [ none ↦ ok none | some message ↦ err (provider_failed step.address message) ],
      )

  -- The first switch: what the provider does, and the values that it observed.
  pub call_provider : Action → Step → W → W × Result EngineError (Option Attributes)
  unfolding applied_by destroyed_by
  call_provider create step w = applied_by step w
  call_provider update step w = applied_by step w
  call_provider delete step w = applied_by step w
  call_provider destroy step w = destroyed_by step w
  call_provider adopt step w = (w, ok none)
  call_provider forget step w = (w, ok none)
  call_provider no_op step w = (w, ok none)
  call_provider run step w = (w, err (unsupported_action (action_text run)))
  call_provider (other a) step w = (w, err (unsupported_action a))

  -- The write of the new state, if there is one.
  pub commit : Step → W → Dict State → Option State → Stepped W
  commit step w states none = record { world = w; states = states; failure = none }
  commit step w states (some next) =
      let (w', result) = services.write step.host next w in
      elim result [
        | err e ↦ record { world = w'; states = states; failure = some (write_failed e) }
        | ok committed ↦ record {
          world = w';
          states = insert step.host committed states;
          failure = none;
        }
      ]

  -- executeResourceStep, at the time `now`, with the names of the hosts.
  pub execute_resource_step : List Text → Text → Step → Dict State → W → Stepped W
  unfolding call_provider commit
  execute_resource_step hosts now step states w =
      let (w', answer) = call_provider step.action step w in
      let done : Stepped W = elim answer [
        | err e ↦ record { world = w'; states = states; failure = some e }
        | ok observed ↦
            commit step w' states
              (state_after hashing step now observed (get no_state step.host states))
      ] in
      if contains hosts step.host then done else record {
        world = w;
        states = states;
        failure = some (unknown_host step.address step.host);
      }
