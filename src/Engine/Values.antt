-- ===== src/Engine/Values.antt =====
-- Small tests on actions and attributes: internal/core/engine/engine.go and
-- internal/core/engine/provider_values.go. stringMapValue also takes a value with a String
-- method, of which the attributes hold none.
use debianform.Base.{
  Text, text, List, [], ◌∷◌, Option, none, some, Bool, true, false, if◌then◌else◌, text_eq,
  is_empty,
}
use debianform.Base.Dict.{lookup}
use debianform.Value.{Attributes, as_string}
use debianform.Ir.{LifecycleSpec}
use debianform.Graph.{Node}
use debianform.Engine.{Action, create, update, delete, destroy, forget, Step}

-- deleteLikeAction
unfoldable pub delete_like_action : Action → Bool
delete_like_action delete = true
delete_like_action destroy = true
delete_like_action forget = true
delete_like_action _ = false

unfoldable pub destroys_resource : Action → Bool
destroys_resource delete = true
destroys_resource destroy = true
destroys_resource _ = false

unfoldable pub triggers_operation : Action → Bool
triggers_operation create = true
triggers_operation update = true
triggers_operation delete = true
triggers_operation _ = false

unfoldable pub prevents_destroy : Option LifecycleSpec → Bool
prevents_destroy none = false
prevents_destroy (some lifecycle) = lifecycle.prevent_destroy

-- `value, _ := values[name].(string)`
unfoldable pub string_value : Attributes → Text → Text
unfolding as_string
string_value values name = elim (as_string (lookup name values)) [ some s ↦ s | none ↦ [] ]

unfoldable pub desired_ensure_absent : Node → Bool
unfolding string_value
desired_ensure_absent node = text_eq (string_value node.desired (text "ensure")) (text "absent")

unfoldable pub first_value : Attributes → List Text → Text → Text
unfolding string_value
first_value values [] fallback = fallback
first_value values (key ∷ rest) fallback =
    let value = string_value values key in
    let later = first_value values rest fallback in if is_empty value then later else value

-- identity
unfoldable pub identity : Node → Text
unfolding first_value
identity node =
    first_value node.desired
      (text "name" ∷ text "path" ∷ text "output_path" ∷ text "key" ∷ text "user" ∷ []) node.address

-- operationTriggerPath
unfoldable pub operation_trigger_path : Step → Text
unfolding as_string
operation_trigger_path step = elim (as_string (lookup (text "path") step.node.desired)) [
  | some path ↦ path
  | none ↦ elim step.prior [
    | none ↦ []
    | some prior ↦ elim (as_string (lookup (text "path") prior.desired)) [
      | some path ↦ path
      | none ↦ []
    ]
  ]
]
