-- ===== src/Graph/Dependencies.antt =====
-- The dependencies that a configuration declares: applyExplicitDependencies of
-- internal/core/graph/graph_dependencies.go, and resolveArtifactDependencies and
-- artifactInstallAddresses of internal/core/merge/resource_dependencies.go. `strconv.Quote` is a
-- parameter.
pub mod Explicit
pub mod Artifacts
use debianform.Base.{
  Text, text, List, [], ◌∷◌, ◌++◌, map, Option, none, some, Bool, true, false, not, ◌||◌,
  if◌then◌else◌, text_eq, is_empty, contains, has_prefix, Result, ok, err, ◌>>=◌,
}
use debianform.Base.Dict.{Dict, insert, get}
use debianform.Ir.{ResourceDependencySpec}
use debianform.Graph.{Node}
use debianform.Graph.Schedule.{dedupe_strings}

pub data DependencyError : Type 0 where
  crosses_host no_dependent no_dependency unknown_artifact :
      ResourceDependencySpec → DependencyError
  ambiguous_artifact : ResourceDependencySpec → List Text → DependencyError

abbrev pub address_of : Node → Text
address_of node = node.address

-- The last node with the address is changed: `byAddress` holds the last index of an address.
unfoldable pub update_at : Text → (Node → Node) → List Node → Option (List Node)
update_at address change [] = none
update_at address change (node ∷ nodes) = elim (update_at address change nodes) [
  | some nodes' ↦ some (node ∷ nodes')
  | none ↦ if text_eq node.address address then some (change node ∷ nodes) else none
]

unfoldable pub add_dependency : ResourceDependencySpec → Node → Node
add_dependency dependency node = record node {
  depends_on = dedupe_strings (node.depends_on ++ dependency.depends_on ∷ []);
  explicit_depends_on = dedupe_strings (node.explicit_depends_on ++ dependency.depends_on ∷ []);
  dependency_sources = insert dependency.depends_on dependency.source node.dependency_sources;
}

-- One round of the loop.
unfoldable pub apply_dependency :
    Text → ResourceDependencySpec → List Node → Result DependencyError (List Node)
apply_dependency prefix dependency nodes =
    if not (has_prefix dependency.from prefix) || not (has_prefix dependency.depends_on prefix)
    then err (crosses_host dependency)
    else elim (update_at dependency.from (add_dependency dependency) nodes) [
      | none ↦ err (no_dependent dependency)
      | some nodes' ↦
          if contains (map address_of nodes) dependency.depends_on
          then ok nodes'
          else err (no_dependency dependency)
    ]

unfoldable pub apply_dependencies :
    Text → List ResourceDependencySpec → List Node → Result DependencyError (List Node)
apply_dependencies prefix [] nodes = ok nodes
apply_dependencies prefix (dependency ∷ dependencies) nodes = do
  nodes' ← apply_dependency prefix dependency nodes
  apply_dependencies prefix dependencies nodes'

unfoldable pub apply_explicit_dependencies :
    Text → List Node → List ResourceDependencySpec → Result DependencyError (List Node)
apply_explicit_dependencies host nodes dependencies =
    apply_dependencies (text "host." ++ (host ++ text ".")) dependencies nodes

-- A component instance: its name, and the path of its artifact if it has one.
pub record ComponentInstall : Type 0 where
  pub name : Text
  pub install_path : Option Text

artifact_address : (Text → Text) → Text → Text → Text → Text
artifact_address quote host component path =
    text "host."
    ++ (host
        ++ (text ".components."
            ++ (component ++ (text ".artifact.install[" ++ (quote path ++ text "]")))))

unfoldable pub artifact_install_addresses :
    (Text → Text) → Text → List ComponentInstall → Dict (List Text) → Dict (List Text)
unfolding artifact_address
artifact_install_addresses quote host [] index = index
artifact_install_addresses quote host (component ∷ components) index =
    artifact_install_addresses quote host components (elim component.install_path [
      | none ↦ index
      | some path ↦
          if is_empty path
          then index
          else insert path
              (get [] path index ++ artifact_address quote host component.name path ∷ []) index
    ])

resolve_artifact :
    Dict (List Text) → ResourceDependencySpec → Result DependencyError ResourceDependencySpec
resolve_artifact index dependency =
    if is_empty dependency.artifact_path
    then ok dependency
    else elim (get [] dependency.artifact_path index) [
      | [] ↦ err (unknown_artifact dependency)
      | address ∷ others ↦ elim others [
        | [] ↦ ok (record dependency { depends_on = address; artifact_path = [] })
        | second ∷ more ↦ err (ambiguous_artifact dependency (address ∷ second ∷ more))
      ]
    ]

unfoldable pub resolve_artifact_dependencies :
    Dict (List Text)
    → List ResourceDependencySpec
    → Result DependencyError (List ResourceDependencySpec)
unfolding resolve_artifact
resolve_artifact_dependencies index [] = ok []
resolve_artifact_dependencies index (dependency ∷ dependencies) = do
  resolved ← resolve_artifact index dependency
  rest ← resolve_artifact_dependencies index dependencies
  ok (resolved ∷ rest)
