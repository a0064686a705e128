-- ===== src/Engine/Orphans.antt =====
-- Resources in the state that the graph no longer has: orphanSteps, forgetOrphan,
-- desiredStillManagesOrphan and sameDirectoryDesired of internal/core/engine/engine.go.
pub mod Protection
use debianform.Base.{
  Text, text, List, [], ◌∷◌, ◌++◌, Option, none, some, Bool, true, false, not, ◌&&◌, ◌||◌,
  if◌then◌else◌, text_eq, is_empty, Result, ok, err, ◌>>=◌,
}
use debianform.Base.Dict.{Dict, has}
use debianform.Value.{Attributes}
use debianform.State.{State, Resource}
use debianform.Graph.{Node}
use debianform.Engine.{Action, destroy, forget, EngineError, protected, Step, no_node}
use debianform.Engine.Values.{string_value, prevents_destroy}

pub forget_orphan : Resource → Bool
unfolding string_value
forget_orphan prior =
    text_eq prior.kind (text "component_script_output")
    || text_eq prior.kind (text "system_hostname")
    || text_eq prior.kind (text "system_timezone")
    || text_eq prior.kind (text "system_locale")
    || (text_eq prior.kind (text "apt_source_file")
        && text_eq (string_value prior.desired (text "on_destroy")) (text "keep"))

-- The loop over the compared attributes.
pub same_values : Attributes → Attributes → List Text → Bool
unfolding string_value
same_values a b [] = true
same_values a b (key ∷ rest) =
    text_eq (string_value a key) (string_value b key) && same_values a b rest

pub same_directory_desired : Attributes → Attributes → Bool
unfolding same_values
same_directory_desired a b =
    not (is_empty (string_value a (text "path")))
    && same_values a b
        (text "path" ∷ text "owner" ∷ text "group" ∷ text "mode" ∷ text "ensure" ∷ [])

-- Whether a directory node of the host has the same attributes.
pub managed_by : Text → Resource → Dict Node → Bool
unfolding same_directory_desired
managed_by host prior [] = false
managed_by host prior ((address, node) ∷ rest) =
    (text_eq node.host host
      && text_eq node.kind (text "directory")
      && same_directory_desired prior.desired node.desired)
    || managed_by host prior rest

pub desired_still_manages_orphan : Text → Resource → Dict Node → Bool
unfolding managed_by
desired_still_manages_orphan host prior desired =
    text_eq prior.kind (text "directory") && managed_by host prior desired

-- The action for an orphan, with its summary.
pub orphan_action : Text → Text → Resource → Dict Node → Action × Text
unfolding forget_orphan desired_still_manages_orphan
orphan_action host address prior desired =
    let named = prior.kind ++ (text " " ++ address) in
    if text_eq prior.ownership (text "adopted")
    then (forget, text "forget adopted " ++ named)
    else if forget_orphan prior
    then (forget, text "forget " ++ named)
    else if desired_still_manages_orphan host prior desired
    then (forget, text "forget shared " ++ named)
    else (destroy, text "destroy " ++ named)

pub is_destroy : Action → Bool
is_destroy destroy = true
is_destroy _ = false

-- The loop over a host's resources.
unfoldable pub orphans_of : Text → Dict Node → Dict Resource → Result EngineError (List Step)
unfolding orphan_action is_destroy
orphans_of host desired [] = ok []
orphans_of host desired ((address, prior) ∷ rest) =
    let later = orphans_of host desired rest in
    let (action, summary) = orphan_action host address prior desired in
    if has address desired
    then later
    else if is_destroy action && prevents_destroy prior.lifecycle
    then err (protected address prior.kind)
    else (do
      steps ← later
      ok (
          record {
            address = address;
            host = host;
            action = action;
            summary = summary;
            node = no_node;
            prior = some prior;
            observed = [];
            ownership = [];
            order = 0;
          }
          ∷ steps))

-- An empty `only` selects every host.
pub orphan_steps : Dict State → Dict Node → Text → Result EngineError (List Step)
unfolding orphans_of
orphan_steps [] desired only = ok []
orphan_steps ((host, st) ∷ states) desired only =
    let later = orphan_steps states desired only in
    if not (is_empty only) && not (text_eq host only)
    then later
    else (do here ← orphans_of host desired st.resources; rest ← later; ok (here ++ rest))
