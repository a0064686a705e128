-- ===== src/Tests/Plans.antt =====
-- Planning: Compare on the base file, two planned steps, and the reload of the service.
use debianform.Base.{text, ◌+◌, List, [], ◌∷◌, map, ◌≡◌, refl, some, true, ok, length}
use debianform.Base.Dict.{Dict}
use debianform.Engine.{
  create, forget, no_op, Step, OperationStep, Observed, no_step, no_operation_step,
}
use debianform.Engine.Values.{delete_like_action, prevents_destroy}
use debianform.Engine.Compare.{compare_node}
use debianform.Engine.Compare.Justified.{Justifies, compare_node-Justifies}
use debianform.Engine.Operations.{operation_steps, step_operation}
use debianform.Engine.Operations.Active.{AreActive, addresses_of, operation_steps-AreActive}
use debianform.Engine.Planning.{Collected, collect_steps, is_no_op, summarize}
use debianform.Engine.Planning.Collects.{Collects, collect_steps-Collects}
use debianform.Engine.Planning.Counts.{how_many, is_create, is_update, summarize_counts}
use debianform.Tests.{hashing, base_node, adopted_resource, reload, file_step, site_node}

abbrev seen : Observed
seen = record { exists = true; desired_digest = text "sum"; values = [] }

compare_node-Justifies_example :
    Justifies hashing base_node
      (some adopted_resource)
      seen
      (compare_node hashing base_node (some adopted_resource) seen).action
compare_node-Justifies_example =
    compare_node-Justifies hashing base_node (some adopted_resource) seen

abbrev site_step : Step
site_step = record no_step {
  address = text "site";
  host = text "web";
  action = create;
  node = site_node;
}

abbrev kept_step : Step
kept_step = record file_step { action = no_op }

abbrev planned_steps : List Step
planned_steps = kept_step ∷ site_step ∷ []

abbrev nothing : Collected
nothing = record { steps = []; changed = []; no_op = 0 }

abbrev all_collected : Collected
all_collected = record { steps = site_step ∷ []; changed = text "site" ∷ []; no_op = 1 }

steps_collected : collect_steps planned_steps nothing ≡ ok all_collected
unfolding collect_steps prevents_destroy
steps_collected = refl

collect_steps-Collects_example : Collects planned_steps nothing all_collected
collect_steps-Collects_example =
    collect_steps-Collects planned_steps nothing all_collected steps_collected

abbrev changed_steps : Dict Step
changed_steps = (text "site", site_step) ∷ []

abbrev run_steps : List OperationStep
run_steps = operation_steps (λ t. t) (reload ∷ []) (text "site" ∷ []) changed_steps []

operation_steps-AreActive_example :
    AreActive (addresses_of (reload ∷ [])) (map step_operation run_steps) run_steps
operation_steps-AreActive_example =
    operation_steps-AreActive (λ t. t) (reload ∷ []) (text "site" ∷ []) changed_steps []

abbrev forget_step : Step
forget_step = record file_step { action = forget }

abbrev counted_steps : List Step
counted_steps = site_step ∷ forget_step ∷ []

abbrev reloads : List OperationStep
reloads = no_operation_step ∷ []

summarize_counts_example :
    ((summarize counted_steps reloads 3 2).create ≡ how_many is_create counted_steps)
    × ((summarize counted_steps reloads 3 2).update ≡ how_many is_update counted_steps)
    × ((summarize counted_steps reloads 3 2).delete ≡ how_many delete_like_action counted_steps)
    × ((summarize counted_steps reloads 3 2).no_op ≡ how_many is_no_op counted_steps + 3)
    × ((summarize counted_steps reloads 3 2).operations ≡ length reloads)
    × ((summarize counted_steps reloads 3 2).move ≡ 2)
summarize_counts_example = summarize_counts counted_steps reloads 3 2
