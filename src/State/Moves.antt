-- ===== src/State/Moves.antt =====
-- Moved components: internal/core/state/moved.go. The declarations are validated and put in order,
-- and then each renames the state entries below its source. The recursions of `depth` and of the
-- chain in finalMoveTargets take fuel, one more than the number of declarations.
pub mod Resolve
pub mod Ends
pub mod Checks
use debianform.Base.{
  Text, text, ℕ, zero, suc, ◌+◌, List, [], ◌∷◌, ◌++◌, Option, none, some, Bool, true, false, not,
  ◌&&◌, ◌||◌, length, ltb, ◌==◌, if◌then◌else◌, text_eq, text_lt, is_empty, contains, Result, ok,
  err, ◌>>=◌, sort_stable, sort_strings, has_prefix, trim_prefix, strip_prefix,
}
use debianform.Base.Dict.{Dict, lookup, insert, delete, keys, has, get}
use debianform.Ir.{MovedSpec}
use debianform.State.{State, StateError}

pub data MoveError : Type 0 where
  bad_state : StateError → MoveError
  source_no_component target_no_component self_move : MovedSpec → MoveError
  duplicate_source : MovedSpec → Text → MoveError
  duplicate_target : Text → MovedSpec → MoveError
  overlap : MovedSpec → MovedSpec → MoveError
  move_cycle : Text → MoveError
  both_desired : Text → MoveError
  target_not_desired : Text → Text → MoveError
  destination_exists : Text → Text → MoveError
  out_of_fuel : MoveError

-- `prefix + "."`
unfoldable pub below : Text → Text
below prefix = prefix ++ text "."

-- Whether an address is the prefix or stands below it.
unfoldable pub matches : Text → Text → Bool
unfolding below
matches prefix address = text_eq address prefix || has_prefix address (below prefix)

unfoldable pub matching_keys : Text → List Text → List Text
matching_keys prefix [] = []
matching_keys prefix (address ∷ rest) =
    if matches prefix address
    then address ∷ matching_keys prefix rest
    else matching_keys prefix rest

unfoldable pub replace_address_prefix : Text → Text → Text → Text
replace_address_prefix address from to = to ++ trim_prefix address from

pub prefixes_overlap : Text → Text → Bool
unfolding below
prefixes_overlap left right =
    text_eq left right || has_prefix left (below right) || has_prefix right (below left)

-- "host." + host + ".components."
pub component_root : Text → Text
component_root host = text "host." ++ (host ++ text ".components.")

-- The bytes that no component name holds: `.`, `[` and `]`.
pub no_component_byte : Text → Bool
no_component_byte [] = false
no_component_byte (c ∷ cs) = c == b'.' || c == b'[' || c == b']' || no_component_byte cs

unfoldable pub component_from_prefix : Text → Text → Option Text
unfolding component_root no_component_byte
component_from_prefix host prefix = elim (strip_prefix (component_root host) prefix) [
  | none ↦ none
  | some component ↦
      if is_empty component || no_component_byte component then none else some component
]

is_component : Text → Text → Bool
unfolding component_from_prefix
is_component host prefix = elim (component_from_prefix host prefix) [ some c ↦ true | none ↦ false ]

move_before : MovedSpec → MovedSpec → Bool
move_before a b = if text_eq a.from b.from then text_lt a.to b.to else text_lt a.from b.from

-- The first of the validated moves that overlaps the move.
overlapping : MovedSpec → List MovedSpec → Option MovedSpec
unfolding prefixes_overlap
overlapping move [] = none
overlapping move (previous ∷ rest) =
    if prefixes_overlap previous.from move.from || prefixes_overlap previous.to move.to
    then some previous
    else overlapping move rest

-- The validation loop; it returns `bySource`.
pub check_moves :
    Text
    → List MovedSpec
    → Dict MovedSpec
    → Dict MovedSpec
    → List MovedSpec
    → Result MoveError (Dict MovedSpec)
unfolding is_component overlapping
check_moves host [] by_source by_target validated = ok by_source
check_moves host (move ∷ moves) by_source by_target validated =
    let later =
      check_moves host moves (insert move.from move by_source) (insert move.to move by_target)
        (validated ++ move ∷ []) in
    if not (is_component host move.from)
    then err (source_no_component move)
    else if not (is_component host move.to)
    then err (target_no_component move)
    else if text_eq move.from move.to
    then err (self_move move)
    else elim (lookup move.from by_source) [
      | some previous ↦ err (duplicate_source move previous.to)
      | none ↦ elim (lookup move.to by_target) [
        | some previous ↦ err (duplicate_target previous.from move)
        | none ↦ elim (overlapping move validated) [
          | some previous ↦ err (overlap move previous)
          | none ↦ later
        ]
      ]
    ]

-- `bySource[bySource[source].To]`: the move that goes on where this one ends.
next_move : Dict MovedSpec → Text → Option MovedSpec
next_move by_source source = elim (lookup source by_source) [
  | none ↦ lookup [] by_source
  | some move ↦ lookup move.to by_source
]

-- The length of the chain of moves from a source, with the lengths that are known. `visiting` holds
-- the sources whose call is open, and the caller has it back unchanged.
pub depth : ℕ → Dict MovedSpec → List Text → Text → Dict ℕ → Result MoveError (ℕ × Dict ℕ)
unfolding next_move
depth zero by_source visiting source depths = err out_of_fuel
depth (suc fuel) by_source visiting source depths = elim (lookup source depths) [
  | some value ↦ ok (value, depths)
  | none ↦ elim (contains visiting source) [
    | true ↦ err (move_cycle source)
    | false ↦ elim (next_move by_source source) [
      | none ↦ ok (1, insert source 1 depths)
      | some next ↦ do
        (below_depth, known) ← depth fuel by_source (source ∷ visiting) next.from depths
        ok (1 + below_depth, insert source (1 + below_depth) known)
    ]
  ]
]

pub depth_all : Dict MovedSpec → List Text → Dict ℕ → Result MoveError (Dict ℕ)
unfolding depth
depth_all by_source [] depths = ok depths
depth_all by_source (source ∷ sources) depths = do
  (_, known) ← depth (suc (length by_source)) by_source [] source depths
  depth_all by_source sources known

-- The longest chains first, then by the source.
deeper : Dict ℕ → MovedSpec → MovedSpec → Bool
deeper depths a b =
    let left = get 0 a.from depths in
    let right = get 0 b.from depths in
    if left == right then text_lt a.from b.from else ltb right left

unfoldable pub validate_and_order_moves : Text → List MovedSpec → Result MoveError (List MovedSpec)
unfolding check_moves depth_all move_before deeper
validate_and_order_moves host declarations = do
  let moves = sort_stable move_before declarations
  by_source ← check_moves host moves [] [] []
  depths ← depth_all by_source (sort_strings (keys by_source)) []
  ok (sort_stable (deeper depths) moves)

next_targets : List MovedSpec → Dict Text → Dict Text
next_targets [] next = next
next_targets (move ∷ moves) next = next_targets moves (insert move.from move.to next)

-- `for { nextTarget, ok := next[target]; … }`
pub follow : ℕ → Dict Text → Text → Option Text
follow zero next target = none
follow (suc fuel) next target = elim (lookup target next) [
  | none ↦ some target
  | some next_target ↦ follow fuel next next_target
]

final_from : Dict Text → List MovedSpec → Dict Text → Option (Dict Text)
unfolding follow
final_from next [] out = some out
final_from next (move ∷ moves) out = elim (follow (suc (length next)) next move.to) [
  | none ↦ none
  | some target ↦ final_from next moves (insert move.from target out)
]

unfoldable pub final_move_targets : List MovedSpec → Option (Dict Text)
unfolding next_targets final_from
final_move_targets moves = final_from (next_targets moves []) moves []
