-- ===== src/Graph/Schedule/Named.antt =====
-- Every entry stands under its own address.
use debianform.Base.{Text, ℕ, ◌+◌, ◌<◌, List, [], ◌∷◌, ◌≡◌, refl, arith, count, text_eq_iff, ok}
use debianform.Base.Dict.{keys, get, get-insert, insert, count-keys-insert}
use debianform.Graph.{Node, Operation, ResourceGraph}
use debianform.Graph.Schedule.{
  Entries, ScheduleEntry, zero_entry, add_nodes, add_operations, node_entry, operation_entry,
  schedule_entries,
}
use debianform.Graph.Schedule.Table.{add_nodes_cons, add_operations_cons, parts}

abbrev pub IsNamed : Entries → Type 0
IsNamed entries =
    (x : Text) → 0 < count x (keys entries) → (get zero_entry x entries).item.address ≡ x

pub IsNamed-insert :
    (k : Text) (e : ScheduleEntry) (entries : Entries)
    → e.item.address ≡ k
    → IsNamed entries
    → IsNamed (insert k e entries)
IsNamed-insert k e entries h n x =
    let old = n x in
    ground (
      arith,
      get-insert zero_entry k x e entries,
      count-keys-insert k x e entries,
      text_eq_iff k x,
      n x,
    )

add_nodes-IsNamed :
    (nodes : List Node) (order : ℕ) (entries : Entries) (r : ℕ × Entries)
    → add_nodes nodes order entries ≡ ok r
    → IsNamed entries
    → IsNamed r.1
add_nodes-IsNamed [] order entries r h n =
    let e : (order, entries) ≡ r = unfold add_nodes in cc in rw (← e) n
add_nodes-IsNamed (node ∷ nodes) order entries r h n =
    let (_, _, rest) = add_nodes_cons node nodes order entries r h in
    let e = node_entry order node in
    add_nodes-IsNamed nodes (order + 1) (insert node.address e entries) r rest
      (IsNamed-insert node.address e entries (unfold node_entry in refl) n)

add_operations-IsNamed :
    (ops : List Operation) (order : ℕ) (entries r : Entries)
    → add_operations ops order entries ≡ ok r
    → IsNamed entries
    → IsNamed r
add_operations-IsNamed [] order entries r h n =
    let e : entries ≡ r = unfold add_operations in cc in rw (← e) n
add_operations-IsNamed (op ∷ ops) order entries r h n =
    let (_, rest) = add_operations_cons op ops order entries r h in
    let e = operation_entry order op in
    add_operations-IsNamed ops (order + 1) (insert op.address e entries) r rest
      (IsNamed-insert op.address e entries (unfold operation_entry in refl) n)

pub schedule_entries-IsNamed :
    (g : ResourceGraph) (entries : Entries) → schedule_entries g ≡ ok entries → IsNamed entries
schedule_entries-IsNamed g entries h =
    let p = parts g entries h in
    add_operations-IsNamed g.operations p.order p.nodes entries p.extended (
      add_nodes-IsNamed g.nodes 0 [] (p.order, p.nodes) p.added
        (λ x k. absurd (unfold keys count in omega arith)))
