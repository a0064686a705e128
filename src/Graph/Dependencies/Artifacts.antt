-- ===== src/Graph/Dependencies/Artifacts.antt =====
-- What resolveArtifactDependencies of internal/core/merge/resource_dependencies.go resolves.
use debianform.Base.{
  Text, List, [], ◌∷◌, Bool, true, false, ◌≡◌, refl, arith, inl, inr, ◌⊎◌, is_empty, ok, >>=-eq-ok,
}
use debianform.Base.Dict.{Dict, get}
use debianform.Ir.{ResourceDependencySpec}
use debianform.Graph.Dependencies.{resolve_artifact, resolve_artifact_dependencies}

-- A reference to an artifact names the only address that installs it; another dependency stays.
abbrev pub Resolves : Dict (List Text) → ResourceDependencySpec → ResourceDependencySpec → Type 0
Resolves index dependency resolved =
    (is_empty resolved.artifact_path ≡ true)
    × (resolved.from ≡ dependency.from)
    × (((is_empty dependency.artifact_path ≡ true) × (resolved ≡ dependency))
        ⊎ ((is_empty dependency.artifact_path ≡ false)
            × (get [] dependency.artifact_path index ≡ resolved.depends_on ∷ [])))

abbrev pub AllResolve :
    Dict (List Text) → List ResourceDependencySpec → List ResourceDependencySpec → Type 0
AllResolve index [] [] = Unit
AllResolve index [] (r ∷ rs) = ⊥
AllResolve index (d ∷ ds) [] = ⊥
AllResolve index (d ∷ ds) (r ∷ rs) = Resolves index d r × AllResolve index ds rs

resolve_artifact-Resolves :
    (index : Dict (List Text)) (dependency resolved : ResourceDependencySpec)
    → resolve_artifact index dependency ≡ ok resolved
    → Resolves index dependency resolved
unfolding resolve_artifact
resolve_artifact-Resolves index dependency resolved h =
    go (is_empty dependency.artifact_path) refl (get [] dependency.artifact_path index) refl
  where
    go :
        (b : Bool)
        → is_empty dependency.artifact_path ≡ b
        → (found : List Text) → get [] dependency.artifact_path index ≡ found
        → Resolves index dependency resolved
    go true e found e' =
        let same : dependency ≡ resolved = ground (arith, h, e) in
        rw (← same) (e, refl, inl (e, refl))
    go false e [] e' = absurd (ground (arith, h, e, e'))
    go false e (address ∷ second ∷ more) e' = absurd (ground (arith, h, e, e'))
    go false e (address ∷ []) e' =
        let made : record dependency { depends_on = address; artifact_path = [] } ≡ resolved =
          ground (arith, h, e, e') in
        rw (← made) (refl, refl, inr (e, e'))

-- Where the artifact references can be resolved, none is left: each dependency that refers to an
-- artifact now names the only address that installs it, and the others are as they were.
pub resolve_artifact_dependencies-AllResolve :
    (index : Dict (List Text)) (dependencies resolved : List ResourceDependencySpec)
    → resolve_artifact_dependencies index dependencies ≡ ok resolved
    → AllResolve index dependencies resolved
unfolding resolve_artifact_dependencies
resolve_artifact_dependencies-AllResolve index [] resolved h =
    let same : [] ≡ resolved = ground (arith, h) in rw (← same) tt
resolve_artifact_dependencies-AllResolve index (dependency ∷ dependencies) resolved h =
    let (first, e, k) = >>=-eq-ok (resolve_artifact index dependency) _ h in
    let (rest, e', k') = >>=-eq-ok (resolve_artifact_dependencies index dependencies) _ k in
    let same : first ∷ rest ≡ resolved = ground (arith, k') in
    rw (← same) (
      resolve_artifact-Resolves index dependency first e,
      resolve_artifact_dependencies-AllResolve index dependencies rest e',
    )
