-- ===== src/Value.antt =====
-- Values of Go's type `any` as desired and observed resource attributes hold them: what
-- `map[string]any` carries in internal/core/graph, internal/core/state and internal/core/engine.
use debianform.Base.{Text, ℤ, List, Bool, false, Option, none, some}
use debianform.Base.Dict.{Dict}

mutual
  pub data Value : Type 0 where
    null : Value
    bool : Bool → Value
    num : ℤ → Value
    str : Text → Value
    strs : List Text → Value
    list : Items → Value
    object : Fields → Value

  -- `map[string]any`
  pub data Fields : Type 0 where
    no_fields : Fields
    with_field : Fields → Text → Value → Fields

  -- `[]any`
  pub data Items : Type 0 where
    no_items : Items
    with_item : Items → Value → Items

-- `v, ok := x.(string)`, where the element may be missing.
unfoldable pub as_string : Option Value → Option Text
as_string (some (str s)) = some s
as_string _ = none

-- `v, _ := x.(bool)`
unfoldable pub as_bool : Option Value → Bool
as_bool (some (bool b)) = b
as_bool _ = false

abbrev pub Attributes : Type 0
Attributes = Dict Value
