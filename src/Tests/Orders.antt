-- ===== src/Tests/Orders.antt =====
-- The order of a run: the small graph with one address left out, and a plan that creates the
-- service after a forgotten orphan.
use debianform.Base.{
  text_eq, text_lt, contains, sort_strings, Text, text, List, [], ◌∷◌, ◌≡◌, refl, some, true, ok,
  err, Result, count, if◌then◌else◌, Bool, false,
}
use debianform.Base.Dict.{Dict, get, has, insert, keys, lookup}
use debianform.Graph.Schedule.{ScheduleItem, schedule_entries}
use debianform.Graph.Acyclic.{validate_acyclic}
use debianform.Graph.Kahn.{address_waves, emitted}
use debianform.Graph.Waves.{
  schedule_waves_with_aliases, is_active, active_dependencies_with_aliases,
}
use debianform.Graph.Waves.Forward.{IsForwardWaves, later_addresses, schedule_waves_forward}
use debianform.Engine.{Plan, Step, OperationStep, no_step, no_operation_step, create, forget}
use debianform.Engine.Order.{ExecutionItem, execution_waves}
use debianform.Engine.Planning.{summarize}
use debianform.Tests.{small_graph, site_node, reload, adopted_resource, old_address}

abbrev found_or_none : {A B : Type 0} → Result A (List B) → List B
found_or_none (ok x) = x
found_or_none (err e) = []

abbrev two_active : Dict Bool
two_active = (text "site", true) ∷ (text "reload", true) ∷ []

abbrev two_scheduled : List (List ScheduleItem)
two_scheduled = found_or_none (schedule_waves_with_aliases small_graph (some two_active) [] [])

two_scheduled_made :
    schedule_waves_with_aliases small_graph (some two_active) [] [] ≡ ok two_scheduled
unfolding schedule_waves_with_aliases schedule_entries text has insert text_eq contains
    validate_acyclic sort_strings keys text_lt get lookup address_waves is_active
    active_dependencies_with_aliases emitted
two_scheduled_made = refl

schedule_waves_forward_example :
    ((x : Text)
      → count x (later_addresses two_scheduled) ≡ (if get false x two_active then 1 else 0))
    × IsForwardWaves two_scheduled
schedule_waves_forward_example =
    schedule_waves_forward small_graph two_active [] [] two_scheduled two_scheduled_made

-- The service is created and the file of the component forgotten.
abbrev site_created : Step
site_created = record no_step {
  address = text "site";
  host = text "web";
  action = create;
  node = site_node;
}

abbrev file_forgotten : Step
file_forgotten = record no_step {
  address = old_address;
  host = text "web";
  action = forget;
  prior = some adopted_resource;
}

abbrev reload_triggered : OperationStep
reload_triggered = record no_operation_step { address = text "reload"; operation = reload }

abbrev small_plan : Plan
small_plan = record {
  steps = site_created ∷ file_forgotten ∷ [];
  operations = reload_triggered ∷ [];
  moves = [];
  summary = summarize (site_created ∷ file_forgotten ∷ []) (reload_triggered ∷ []) 0 0;
}

abbrev small_waves : List (List ExecutionItem)
small_waves = found_or_none (execution_waves small_graph small_plan)
