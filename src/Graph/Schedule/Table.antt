-- ===== src/Graph/Schedule/Table.antt =====
-- The table of entries: what `scheduleEntries` guarantees when it returns one.
use debianform.Base.{
  Text, ℕ, ◌+◌, ◌<◌, List, [], ◌∷◌, ◌++◌, ◌≡◌, arith, count, count-append, text_eq_iff, ok, ◌>>=◌,
  >>=-eq-ok, false, is_empty, IsDistinct, none,
}
use debianform.Base.Dict.{keys, get, insert, has, has-true, has-false, count-keys-insert}
use debianform.Graph.{Node, Operation, ResourceGraph}
use debianform.Graph.Schedule.{
  Entries, ScheduleEntry, zero_entry, add_nodes, add_operations, node_entry, operation_entry,
  first_unknown, check_dependencies, check_triggers, schedule_entries,
}
use debianform.Graph.Acyclic.{deps_of}
use debianform.Graph.Acyclic.Walks.{DependsOn}

pub node_addresses : List Node → List Text
node_addresses [] = []
node_addresses (node ∷ nodes) = node.address ∷ node_addresses nodes

pub operation_addresses : List Operation → List Text
operation_addresses [] = []
operation_addresses (op ∷ ops) = op.address ∷ operation_addresses ops

-- The addresses of the graph, the nodes' first.
pub graph_addresses : ResourceGraph → List Text
graph_addresses g = node_addresses g.nodes ++ operation_addresses g.operations

-- A new key makes one more.
count-insert_new :
    (x k : Text) (e : ScheduleEntry) (entries : Entries)
    → has k entries ≡ false
    → count x (keys (insert k e entries)) ≡ count x (keys entries) + count x (k ∷ [])
unfolding count
count-insert_new x k e entries h = ground (
  arith,
  count-keys-insert k x e entries,
  has-false k entries,
  has-true x entries,
  text_eq_iff k x,
)

IsDistinct-insert_new :
    (k : Text) (e : ScheduleEntry) (entries : Entries)
    → has k entries ≡ false
    → IsDistinct (keys entries)
    → IsDistinct (keys (insert k e entries))
unfolding count
IsDistinct-insert_new k e entries h d x =
    ground (arith, count-insert_new x k e entries h, d x, has-false k entries h, text_eq_iff k x)

-- The entries hold the addresses, none of them twice.
abbrev Holds : Entries → List Text → Entries → Type 0
Holds entries addresses entries' =
    IsDistinct (keys entries')
    × ((x : Text) → count x (keys entries') ≡ count x (keys entries) + count x addresses)

pub add_nodes_cons :
    (node : Node) (nodes : List Node) (order : ℕ) (entries : Entries) (r : ℕ × Entries)
    → add_nodes (node ∷ nodes) order entries ≡ ok r
    → (has node.address entries ≡ false)
      × (is_empty node.address ≡ false)
      × (add_nodes nodes (order + 1) (insert node.address (node_entry order node) entries) ≡ ok r)
unfolding add_nodes
add_nodes_cons node nodes order entries r h = ground arith

add_nodes_lem :
    (nodes : List Node) (order : ℕ) (entries : Entries) (r : ℕ × Entries)
    → add_nodes nodes order entries ≡ ok r
    → IsDistinct (keys entries)
    → Holds entries (node_addresses nodes) r.1
unfolding node_addresses
add_nodes_lem [] order entries r h d =
    let e : (order, entries) ≡ r = unfold add_nodes in cc in
    rw (← e) (d, λ x. unfold count in omega arith)
add_nodes_lem (node ∷ nodes) order entries r h d =
    let (new, filled, rest) = add_nodes_cons node nodes order entries r h in
    let e = node_entry order node in
    let (d', c) =
      add_nodes_lem nodes (order + 1) (insert node.address e entries) r rest
        (IsDistinct-insert_new node.address e entries new d) in
    (
      d',
      λ x. omega (
        arith,
        c x,
        count-insert_new x node.address e entries new,
        count-append x (node.address ∷ []) (node_addresses nodes),
      ),
    )

pub add_operations_cons :
    (op : Operation) (ops : List Operation) (order : ℕ) (entries : Entries) (r : Entries)
    → add_operations (op ∷ ops) order entries ≡ ok r
    → (has op.address entries ≡ false)
      × (add_operations ops (order + 1) (insert op.address (operation_entry order op) entries)
          ≡ ok r)
unfolding add_operations
add_operations_cons op ops order entries r h = ground arith

add_operations_lem :
    (ops : List Operation) (order : ℕ) (entries : Entries) (r : Entries)
    → add_operations ops order entries ≡ ok r
    → IsDistinct (keys entries)
    → Holds entries (operation_addresses ops) r
unfolding operation_addresses
add_operations_lem [] order entries r h d =
    let e : entries ≡ r = unfold add_operations in cc in
    rw (← e) (d, λ x. unfold count in omega arith)
add_operations_lem (op ∷ ops) order entries r h d =
    let (new, rest) = add_operations_cons op ops order entries r h in
    let e = operation_entry order op in
    let (d', c) =
      add_operations_lem ops (order + 1) (insert op.address e entries) r rest
        (IsDistinct-insert_new op.address e entries new d) in
    (
      d',
      λ x. omega (
        arith,
        c x,
        count-insert_new x op.address e entries new,
        count-append x (op.address ∷ []) (operation_addresses ops),
      ),
    )

first_unknown-none :
    (entries : Entries) (d : Text) (deps : List Text)
    → first_unknown entries deps ≡ none
    → 0 < count d deps
    → 0 < count d (keys entries)
unfolding first_unknown count
first_unknown-none entries d [] h k = absurd (omega arith)
first_unknown-none entries d (e ∷ deps) h k =
    ground (arith, first_unknown-none entries d deps, has-true e entries, text_eq_iff e d)

-- Every dependency that an entry names is a key.
check_dependencies_lem :
    (entries rest : Entries) (x d : Text)
    → check_dependencies entries rest ≡ ok tt
    → 0 < count d (get zero_entry x rest).depends_on
    → 0 < count d (keys entries)
unfolding check_dependencies get
check_dependencies_lem entries [] x d h k = absurd (unfold count in omega arith)
check_dependencies_lem entries ((y, e) ∷ rest) x d h k =
    ground
      (arith, check_dependencies_lem entries rest x d, first_unknown-none entries d e.depends_on)

-- A table of entries holds exactly the graph's addresses, each once, and every dependency in it
-- is an address of it.
pub record IsTable (g : ResourceGraph) (entries : Entries) : Type 0 where
  pub distinct : IsDistinct (keys entries)
  pub same : (x : Text) → count x (keys entries) ≡ count x (graph_addresses g)
  pub known : (x d : Text) → DependsOn entries x d → 0 < count d (keys entries)

-- The parts of a successful run.
pub record Parts (g : ResourceGraph) (entries : Entries) : Type 0 where
  pub order : ℕ
  pub nodes : Entries
  pub added : add_nodes g.nodes 0 [] ≡ ok (order, nodes)
  pub extended : add_operations g.operations order nodes ≡ ok entries
  pub checked : check_dependencies entries entries ≡ ok tt

pub parts :
    (g : ResourceGraph) (entries : Entries) → schedule_entries g ≡ ok entries → Parts g entries
unfolding schedule_entries
parts g entries h =
    let (r, h1, k1) = >>=-eq-ok (add_nodes g.nodes 0 []) _ h in
    let tail : (checked : Entries) × (add_operations g.operations r.0 r.1 ≡ ok checked)
        × ((check_dependencies checked checked >>= λ _.
              check_triggers checked g.operations >>= λ _. ok checked)
            ≡ ok entries) =
      >>=-eq-ok (add_operations g.operations r.0 r.1) _ k1 in
    let same : tail.0 ≡ entries = ground (arith, tail.2) in
    record {
      order = r.0;
      nodes = r.1;
      added = h1;
      extended = rw (← same) tail.1;
      checked = rw (← same) (ground (arith, tail.2));
    }

pub schedule_entries-IsTable :
    (g : ResourceGraph) (entries : Entries) → schedule_entries g ≡ ok entries → IsTable g entries
unfolding graph_addresses
schedule_entries-IsTable g entries h =
    let p = parts g entries h in
    let (d, c) =
      add_nodes_lem g.nodes 0 [] (p.order, p.nodes) p.added
        (λ x. unfold keys count in omega arith) in
    let (d', c') = add_operations_lem g.operations p.order p.nodes entries p.extended d in
    record {
      distinct = d';
      same = λ x.
          unfold keys count in
          omega (
            arith,
            c x,
            c' x,
            count-append x (node_addresses g.nodes) (operation_addresses g.operations),
          );
      known = λ x y k. unfold deps_of in check_dependencies_lem entries entries x y p.checked k;
    }
