-- ===== src/Engine/Compare.antt =====
-- Compare of internal/core/engine/engine.go, with changeActionCompletionPending and
-- completeChangeActionOnAdopt of internal/core/engine/provider_values.go.
pub mod Justified
use debianform.Base.{
  Text, text, ◌++◌, Option, none, some, Bool, false, not, ◌&&◌, if◌then◌else◌, text_eq, is_empty,
}
use debianform.Base.Dict.{insert}
use debianform.Value.{Attributes, str}
use debianform.State.{Resource, Hashing, desired_digest}
use debianform.Graph.{Node}
use debianform.Engine.{Action, create, update, delete, adopt, no_op, ProviderPlan, Observed}
use debianform.Engine.Values.{string_value, desired_ensure_absent, identity}

module _ (hashing : Hashing) where
  unfoldable pub change_action_completion_pending : Node → Option Resource → Bool
  unfolding string_value desired_digest
  change_action_completion_pending node none = false
  change_action_completion_pending node (some prior) =
      not (is_empty (string_value node.desired (text "change_action")))
      && not (
          text_eq (string_value prior.observed (text "change_action_digest"))
            (desired_digest hashing node.desired))

  pub complete_change_action_on_adopt : Node → Option Resource → Attributes → Attributes
  complete_change_action_on_adopt node (some prior) observed = observed
  complete_change_action_on_adopt node none observed =
      if is_empty (string_value node.desired (text "change_action"))
      then observed
      else insert (text "change_action_digest") (str (desired_digest hashing node.desired)) observed

  -- The observed values, with the observed digest where there is one.
  observed_values : Observed → Attributes
  observed_values observed =
      if is_empty observed.desired_digest
      then observed.values
      else insert (text "desired_digest") (str observed.desired_digest) observed.values

  planned : Action → Text → Node → Attributes → Text → ProviderPlan
  unfolding identity
  planned action verb node values ownership = record {
    action = action;
    summary = verb ++ (node.kind ++ (text " " ++ identity node));
    observed = values;
    ownership = ownership;
  }

  -- The resource exists with the desired digest.
  in_sync : Node → Option Resource → Attributes → ProviderPlan
  unfolding planned complete_change_action_on_adopt change_action_completion_pending
  in_sync node none values =
      planned adopt (text "adopt existing ") node (complete_change_action_on_adopt node none values)
        (text "adopted")
  in_sync node (some prior) values =
      if change_action_completion_pending node (some prior)
      then record {
        action = update;
        summary =
            text "retry "
            ++ (string_value node.desired (text "change_action")
                ++ (text " after updating " ++ identity node));
        observed = values;
        ownership = prior.ownership;
      }
      else planned no_op (text "no changes for ") node values prior.ownership

  -- The resource exists with another digest.
  out_of_sync : Node → Option Resource → Text → Attributes → ProviderPlan
  unfolding planned
  out_of_sync node none digest values = planned update (text "update ") node values (text "managed")
  out_of_sync node (some prior) digest values =
      if not (is_empty prior.desired_digest) && not (text_eq digest prior.desired_digest)
      then planned update (text "repair drift for ") node values prior.ownership
      else planned update (text "update ") node values (text "managed")

  pub compare_node : Node → Option Resource → Observed → ProviderPlan
  unfolding in_sync out_of_sync observed_values desired_ensure_absent
  compare_node node prior observed =
      let values = observed_values observed in
      if desired_ensure_absent node
      then (if observed.exists
          then planned delete (text "delete ") node values (text "managed")
          else planned no_op (text "already absent ") node values (text "managed"))
      else if not observed.exists
      then planned create (text "create ") node values (text "managed")
      else if text_eq observed.desired_digest (desired_digest hashing node.desired)
      then in_sync node prior values
      else out_of_sync node prior observed.desired_digest values
