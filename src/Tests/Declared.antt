-- ===== src/Tests/Declared.antt =====
-- A declared dependency between two nodes of a host, and a reference to an artifact.
use debianform.Base.Dict.{get}
use debianform.Graph.Dependencies.{apply_dependencies, apply_dependency, update_at}
use debianform.Base.{has_prefix, contains}
use debianform.Base.{
  Text, text, List, [], ◌∷◌, map, ◌≡◌, refl, ok, Among, count, ◌<◌, is_empty, false, Result, err,
  text_eq,
}
use debianform.Base.Dict.{Dict}
use debianform.Ir.{ResourceDependencySpec}
use debianform.Graph.{Node}
use debianform.Graph.Schedule.{no_source}
use debianform.Engine.{no_node}
use debianform.Graph.Dependencies.{
  address_of, apply_explicit_dependencies, resolve_artifact_dependencies,
}
use debianform.Graph.Dependencies.Explicit.{HasDeclared, apply_explicit_dependencies-Applied}
use debianform.Graph.Dependencies.Artifacts.{AllResolve, resolve_artifact_dependencies-AllResolve}

abbrev file_node : Node
file_node = record no_node { host = text "web"; address = text "host.web.file" }

abbrev service_node : Node
service_node = record no_node { host = text "web"; address = text "host.web.service" }

abbrev declared : ResourceDependencySpec
declared = record {
  from = text "host.web.service";
  depends_on = text "host.web.file";
  artifact_path = [];
  source = no_source;
}

abbrev nodes_or_none : {E A : Type 0} → Result E (List A) → List A
nodes_or_none (ok found) = found
nodes_or_none (err e) = []

abbrev two_nodes : List Node
two_nodes = service_node ∷ file_node ∷ []

abbrev after_declared : List Node
after_declared = nodes_or_none (apply_explicit_dependencies (text "web") two_nodes (declared ∷ []))

declared_applied :
    apply_explicit_dependencies (text "web") two_nodes (declared ∷ []) ≡ ok after_declared
unfolding apply_explicit_dependencies apply_dependencies apply_dependency has_prefix text update_at
    text_eq contains
declared_applied = refl

apply_explicit_dependencies-Applied_example :
    (map address_of after_declared ≡ map address_of two_nodes)
    × ((dependency : ResourceDependencySpec)
        → Among dependency (declared ∷ [])
        → HasDeclared dependency.from dependency.depends_on after_declared
          × (0 < count dependency.depends_on (map address_of after_declared)))
    × ((address d : Text)
        → is_empty d ≡ false
        → HasDeclared address d two_nodes
        → HasDeclared address d after_declared)
apply_explicit_dependencies-Applied_example =
    apply_explicit_dependencies-Applied (text "web") two_nodes after_declared (declared ∷ [])
      declared_applied

abbrev to_artifact : ResourceDependencySpec
to_artifact = record declared { depends_on = []; artifact_path = text "bin" }

abbrev installed : Dict (List Text)
installed = (text "bin", text "host.web.tool" ∷ []) ∷ []

abbrev resolved_one : ResourceDependencySpec
resolved_one = record declared { depends_on = text "host.web.tool" }

artifacts_resolved :
    resolve_artifact_dependencies installed (declared ∷ to_artifact ∷ [])
    ≡ ok (declared ∷ resolved_one ∷ [])
unfolding resolve_artifact_dependencies text get text_eq
artifacts_resolved = refl

resolve_artifact_dependencies-AllResolve_example :
    AllResolve installed (declared ∷ to_artifact ∷ []) (declared ∷ resolved_one ∷ [])
resolve_artifact_dependencies-AllResolve_example =
    resolve_artifact_dependencies-AllResolve installed (declared ∷ to_artifact ∷ [])
      (declared ∷ resolved_one ∷ []) artifacts_resolved
