-- ===== src/Graph/Dependencies/Explicit.antt =====
-- What applyExplicitDependencies of internal/core/graph/graph_dependencies.go adds to the nodes.
use debianform.Base.{
  Text, text, text_eq, text_eq_iff, ◌<◌, List, [], ◌∷◌, ◌++◌, map, Option, none, some, Bool, true,
  false, ◌≡◌, refl, ap, ◌∙◌, arith, inl, inr, ◌⊎◌, Bool-cases, is_empty, contains, contains-true,
  has_prefix, strip_prefix, ok, >>=-eq-ok, count, count-append, count-cons_self, Among,
}
use debianform.Ir.{ResourceDependencySpec}
use debianform.Graph.{Node}
use debianform.Graph.Schedule.{dedupe_from, dedupe_strings}
use debianform.Graph.Dependencies.{
  address_of, update_at, add_dependency, apply_dependency, apply_dependencies,
  apply_explicit_dependencies,
}

count-dedupe_from :
    (d : Text) (seen values : List Text)
    → is_empty d ≡ false
    → contains seen d ≡ false
    → 0 < count d values
    → 0 < count d (dedupe_from seen values)
unfolding dedupe_from count contains
count-dedupe_from d seen [] full new h = absurd (omega (arith, h))
count-dedupe_from d seen (value ∷ values) full new h = elim (Bool-cases (text_eq value d)) [
  | inl same ↦
      let one : value ≡ d = (text_eq_iff value d).0 same in
      let full' : is_empty value ≡ false = rw one full in
      let new' : contains seen value ≡ false = rw one new in ground (arith, full', new', same)
  | inr other ↦ ground (
    arith,
    h,
    other,
    count-dedupe_from d seen values full new,
    count-dedupe_from d (value ∷ seen) values full,
    new,
  )
]

-- The node has the dependency, also among those that were declared.
abbrev pub Declares : Text → Node → Type 0
Declares d node = (0 < count d node.depends_on) × (0 < count d node.explicit_depends_on)

add_dependency-Declares :
    (dependency : ResourceDependencySpec) (node : Node)
    → is_empty dependency.depends_on ≡ false
    → Declares dependency.depends_on (add_dependency dependency node)
unfolding add_dependency dedupe_strings
add_dependency-Declares dependency node full =
    let d = dependency.depends_on in
    let last = λ (xs : List Text).
      count-dedupe_from d [] (xs ++ d ∷ []) full (unfold contains in refl)
        (omega (arith, count-append d xs (d ∷ []), count-cons_self d [])) in
    (last node.depends_on, last node.explicit_depends_on)

keeps_declared :
    (dependency : ResourceDependencySpec) (node : Node) (d : Text)
    → is_empty d ≡ false
    → Declares d node
    → Declares d (add_dependency dependency node)
unfolding add_dependency dedupe_strings
keeps_declared dependency node d full (there, there') =
    let more = λ (xs : List Text) (h : 0 < count d xs).
      count-dedupe_from d [] (xs ++ dependency.depends_on ∷ []) full (unfold contains in refl)
        (omega (arith, h, count-append d xs (dependency.depends_on ∷ []))) in
    (more node.depends_on there, more node.explicit_depends_on there')

-- A node with the address that has the dependency.
abbrev pub HasDeclared : Text → Text → List Node → Type 0
HasDeclared address d nodes =
    (node : Node) × Among node nodes × (node.address ≡ address) × Declares d node

-- What the change of one node does to the list.
update_at_lem :
    (address : Text) (change : Node → Node) (nodes nodes' : List Node)
    → ((node : Node) → (change node).address ≡ node.address)
    → update_at address change nodes ≡ some nodes'
    → (map address_of nodes' ≡ map address_of nodes)
      × ((node : Node) × (node.address ≡ address) × Among (change node) nodes')
      × ((node : Node) → Among node nodes → Among node nodes' ⊎ Among (change node) nodes')
unfolding update_at
update_at_lem address change [] nodes' same h = absurd (ground (arith, h))
update_at_lem address change (node ∷ nodes) nodes' same h =
    go (update_at address change nodes) refl
      (λ rest e. update_at_lem address change nodes rest same e)
  where
    go :
        (o : Option (List Node))
        → update_at address change nodes ≡ o
        → ((rest : List Node)
            → update_at address change nodes ≡ some rest
            → (map address_of rest ≡ map address_of nodes)
              × ((n : Node) × (n.address ≡ address) × Among (change n) rest)
              × ((n : Node) → Among n nodes → Among n rest ⊎ Among (change n) rest))
        → (map address_of nodes' ≡ map address_of (node ∷ nodes))
          × ((n : Node) × (n.address ≡ address) × Among (change n) nodes')
          × ((n : Node) → Among n (node ∷ nodes) → Among n nodes' ⊎ Among (change n) nodes')
    go (some rest) e later =
        let made : node ∷ rest ≡ nodes' = ground (arith, h, e) in
        let (kept, (n, named, there), others) = later rest e in
        rw (← made) (
          ap (λ (l : List Text). node.address ∷ l) kept,
          (n, named, inr there),
          λ m i. elim i [
            | inl first ↦ inl (inl first)
            | inr i' ↦ elim (others m i') [ inl k ↦ inl (inr k) | inr k ↦ inr (inr k) ]
          ],
        )
    go none e later = elim (Bool-cases (text_eq node.address address)) [
      | inr other ↦ absurd (ground (arith, h, e, other))
      | inl found ↦
          let made : change node ∷ nodes ≡ nodes' = ground (arith, h, e, found) in
          rw (← made) (
            ap (λ (a : Text). a ∷ map address_of nodes) (same node),
            (node, (text_eq_iff node.address address).0 found, inl refl),
            λ m i. elim i [ inl first ↦ inr (inl (ap change first)) | inr i' ↦ inl (inr i') ],
          )
    ]

-- One declared dependency: the addresses stay, the dependent node has it, it is a known address,
-- and what was declared before stays.
abbrev pub AppliesTo : ResourceDependencySpec → List Node → List Node → Type 0
AppliesTo dependency nodes nodes' =
    (map address_of nodes' ≡ map address_of nodes)
    × HasDeclared dependency.from dependency.depends_on nodes'
    × (0 < count dependency.depends_on (map address_of nodes))
    × (is_empty dependency.depends_on ≡ false)

full_of_prefix :
    (s prefix : Text) → is_empty prefix ≡ false → has_prefix s prefix ≡ true → is_empty s ≡ false
unfolding has_prefix strip_prefix
full_of_prefix [] [] full h = absurd (ground (arith, full))
full_of_prefix [] (c ∷ prefix) full h = absurd (ground (arith, h))
full_of_prefix (c ∷ s) prefix full h = refl

apply_dependency-AppliesTo :
    (prefix : Text) (dependency : ResourceDependencySpec) (nodes nodes' : List Node)
    → is_empty prefix ≡ false
    → apply_dependency prefix dependency nodes ≡ ok nodes'
    → AppliesTo dependency nodes nodes'
      × ((address d : Text)
          → is_empty d ≡ false
          → HasDeclared address d nodes
          → HasDeclared address d nodes')
unfolding apply_dependency
apply_dependency-AppliesTo prefix dependency nodes nodes' full h =
    go (has_prefix dependency.from prefix) refl (has_prefix dependency.depends_on prefix) refl
      (update_at dependency.from (add_dependency dependency) nodes) refl
      (contains (map address_of nodes) dependency.depends_on) refl
  where
    go :
        (b1 : Bool)
        → has_prefix dependency.from prefix ≡ b1
        → (b2 : Bool) → has_prefix dependency.depends_on prefix ≡ b2
        → (o : Option (List Node)) → update_at dependency.from (add_dependency dependency) nodes ≡ o
        → (b3 : Bool) → contains (map address_of nodes) dependency.depends_on ≡ b3
        → AppliesTo dependency nodes nodes'
          × ((address d : Text)
              → is_empty d ≡ false
              → HasDeclared address d nodes
              → HasDeclared address d nodes')
    go false e1 b2 e2 o e3 b3 e4 = absurd (ground (arith, h, e1))
    go true e1 false e2 o e3 b3 e4 = absurd (ground (arith, h, e1, e2))
    go true e1 true e2 none e3 b3 e4 = absurd (ground (arith, h, e1, e2, e3))
    go true e1 true e2 (some rest) e3 false e4 = absurd (ground (arith, h, e1, e2, e3, e4))
    go true e1 true e2 (some rest) e3 true e4 =
        let made : rest ≡ nodes' = ground (arith, h, e1, e2, e3, e4) in
        let some_d = full_of_prefix dependency.depends_on prefix full e2 in
        let (kept, (node, named, there), others) =
          update_at_lem dependency.from (add_dependency dependency) nodes rest
            (λ n. unfold add_dependency in refl) e3 in
        rw (← made) (
          (
            kept,
            (
              add_dependency dependency node,
              there,
              unfold add_dependency in named,
              add_dependency-Declares dependency node some_d,
            ),
            contains-true dependency.depends_on (map address_of nodes) e4,
            some_d,
          ),
          λ address d full_d (n, i, n_named, declared). elim (others n i) [
            | inl k ↦ (n, k, n_named, declared)
            | inr k ↦ (
              add_dependency dependency n,
              k,
              unfold add_dependency in n_named,
              keeps_declared dependency n d full_d declared,
            )
          ],
        )

apply_dependencies-Applied :
    (prefix : Text) (dependencies : List ResourceDependencySpec) (nodes nodes' : List Node)
    → is_empty prefix ≡ false
    → apply_dependencies prefix dependencies nodes ≡ ok nodes'
    → (map address_of nodes' ≡ map address_of nodes)
      × ((dependency : ResourceDependencySpec)
          → Among dependency dependencies
          → HasDeclared dependency.from dependency.depends_on nodes'
            × (0 < count dependency.depends_on (map address_of nodes')))
      × ((address d : Text)
          → is_empty d ≡ false
          → HasDeclared address d nodes
          → HasDeclared address d nodes')
unfolding apply_dependencies
apply_dependencies-Applied prefix [] nodes nodes' full h =
    let same : nodes ≡ nodes' = ground (arith, h) in
    rw (← same) (refl, (λ dependency i. absurd i), λ address d f k. k)
apply_dependencies-Applied prefix (first ∷ rest) nodes nodes' full h =
    let (mid, e, k) = >>=-eq-ok (apply_dependency prefix first nodes) _ h in
    let ((kept, declared, known, full_d), keeps) =
      apply_dependency-AppliesTo prefix first nodes mid full e in
    let (kept', declared', keeps') = apply_dependencies-Applied prefix rest mid nodes' full k in
    let addresses : map address_of nodes' ≡ map address_of nodes = kept' ∙ kept in
    (
      addresses,
      (λ dependency i. elim i [
        | inl same ↦
            rw same (keeps' first.from first.depends_on full_d declared, rw addresses known)
        | inr i' ↦ declared' dependency i'
      ]),
      λ address d f held. keeps' address d f (keeps address d f held),
    )

-- Where applyExplicitDependencies succeeds, the addresses of the nodes stay; for each declared
-- dependency, a node with the dependent address has it, among its dependencies and among the
-- explicit ones, and it is the address of a node; and what a node had declared before it still has.
pub apply_explicit_dependencies-Applied :
    (host : Text) (nodes nodes' : List Node) (dependencies : List ResourceDependencySpec)
    → apply_explicit_dependencies host nodes dependencies ≡ ok nodes'
    → (map address_of nodes' ≡ map address_of nodes)
      × ((dependency : ResourceDependencySpec)
          → Among dependency dependencies
          → HasDeclared dependency.from dependency.depends_on nodes'
            × (0 < count dependency.depends_on (map address_of nodes')))
      × ((address d : Text)
          → is_empty d ≡ false
          → HasDeclared address d nodes
          → HasDeclared address d nodes')
unfolding apply_explicit_dependencies text
apply_explicit_dependencies-Applied host nodes nodes' dependencies h =
    apply_dependencies-Applied (text "host." ++ (host ++ text ".")) dependencies nodes nodes' refl h
