-- ===== src/Tests/Runs.antt =====
-- The engine on the small state: the orphans of an empty configuration, two waves of which the
-- first fails, and one step that creates a file.
use debianform.Base.{
  IsDistinct, SameItems, ◌⊎◌, err, Among, Text, text, ℕ, List, [], ◌∷◌, ◌≡◌, refl, Option, none,
  some, false, ok, ◌↔◌, count, text_eq, text_eq_iff, arith, suc,
}
use debianform.Base.Dict.{Dict, has}
use debianform.State.{State, prepare_write}
use debianform.Engine.Stepping.{Services}
use debianform.Engine.{
  orphan_cycle, Step, EngineError, provider_failed, create, forget, destroy, no_step,
}
use debianform.Engine.Order.{ExecutionItem, resource, orphan_execution_waves}
use debianform.Engine.Order.Orphans.{step_addresses}
use debianform.Engine.Order.Orphans.Waves.{IsLater, orphan_execution_waves_ends}
use debianform.Engine.Execution.Blocking.{all_addresses}
use debianform.Engine.Execution.Calls.Waves.{Rearranges}
use debianform.Engine.Values.{prevents_destroy}
use debianform.Engine.Orphans.{orphans_of}
use debianform.Engine.Orphans.Protection.{AreSafe, orphans_of-AreSafe}
use debianform.Engine.Apply.{state_after}
use debianform.Engine.Apply.Records.{Leaves, state_after-Leaves}
use debianform.Tests.{
  hashing, old_address, adopted_resource, dependent_resource, small_state, file_step,
}

abbrev forget_step : Step
forget_step = record no_step {
  address = old_address;
  host = text "web";
  action = forget;
  summary = text "forget adopted file host.web.components.old.file[a]";
  prior = some adopted_resource;
}

abbrev destroy_step : Step
destroy_step = record no_step {
  address = text "site";
  host = text "web";
  action = destroy;
  summary = text "destroy service site";
  prior = some dependent_resource;
}

orphans_found :
    orphans_of (text "web") [] small_state.resources ≡ ok (forget_step ∷ destroy_step ∷ [])
unfolding orphans_of text text_eq has prevents_destroy
orphans_found = refl

orphans_of-AreSafe_example :
    AreSafe [] (text "web") small_state.resources (forget_step ∷ destroy_step ∷ [])
orphans_of-AreSafe_example =
    orphans_of-AreSafe [] (text "web") small_state.resources (forget_step ∷ destroy_step ∷ [])
      orphans_found

abbrev two_orphans : List Step
two_orphans = forget_step ∷ destroy_step ∷ []

addresses_apart : text_eq old_address (text "site") ≡ false
unfolding text text_eq
addresses_apart = refl

two_orphans-IsDistinct : IsDistinct (step_addresses two_orphans)
unfolding step_addresses count
two_orphans-IsDistinct a =
    ground (arith, addresses_apart, text_eq_iff old_address a, text_eq_iff (text "site") a)

orphan_execution_waves_ends_example :
    ((waves : List (List ExecutionItem)) × (orphan_execution_waves two_orphans ≡ ok waves)
      × SameItems (all_addresses waves) (step_addresses two_orphans)
      × IsLater two_orphans [] waves)
    ⊎ (orphan_execution_waves two_orphans ≡ err orphan_cycle)
orphan_execution_waves_ends_example = orphan_execution_waves_ends two_orphans two_orphans-IsDistinct

abbrev base_item : ExecutionItem
base_item = record {
  work = resource no_step;
  address = text "base";
  host = text "web";
  safe_parallel = false;
  depends_on = [];
}

abbrev site_item : ExecutionItem
site_item = record {
  work = resource no_step;
  address = text "site";
  host = text "web";
  safe_parallel = false;
  depends_on = text "base" ∷ [];
}

-- Every item fails; the state counts the calls.
abbrev pub fail : ExecutionItem → ℕ → ℕ × Option EngineError
fail item calls = (suc calls, some (provider_failed item.address []))

abbrev pub in_order : List ExecutionItem → List ExecutionItem
in_order items = items

pub in_order_same :
    (items : List ExecutionItem) (item : ExecutionItem)
    → Among item (in_order items) ↔ Among item items
in_order_same items item = ((λ i. i), λ i. i)

abbrev pub hosts : List Text
hosts = text "web" ∷ []

abbrev two_waves : List (List ExecutionItem)
two_waves = (base_item ∷ []) ∷ (site_item ∷ []) ∷ []

pub in_order-Rearranges : Rearranges in_order
in_order-Rearranges = record { same = in_order_same; often = λ items a. refl }

abbrev create_step : Step
create_step = record file_step { action = create }

state_after-Leaves_example :
    Leaves hashing create_step
      (text "now")
      none
      small_state
      (state_after hashing create_step (text "now") none small_state)
      create
state_after-Leaves_example = state_after-Leaves hashing create_step (text "now") none small_state

-- A provider that always succeeds, and the memory backend's write; the world counts the calls.
abbrev willing : Services ℕ
willing = record {
  apply = λ step calls. (suc calls, ok none);
  remove = λ step calls. (suc calls, none);
  write = λ host st calls. (suc calls, prepare_write (text "now") st host);
}

abbrev states : Dict State
states = (text "web", small_state) ∷ []
