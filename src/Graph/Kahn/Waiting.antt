-- ===== src/Graph/Kahn/Waiting.antt =====
-- The dependencies of an address that are not emitted yet, and what a wave takes from them.
use debianform.Base.{
  Text, ℕ, suc, ◌+◌, ◌≤◌, List, [], ◌∷◌, ◌++◌, ◌≡◌, refl, length, ◌==◌, arith, if◌then◌else◌, count,
  count-append, text_eq_iff,
}
use debianform.Base.Dict.{Dict, get}
use debianform.Graph.Kahn.Release.{demand}

-- How many of the dependencies `ds` are not among the addresses `done`.
unfoldable pub waiting : List Text → List Text → ℕ
waiting done [] = 0
waiting done (d ∷ ds) = if count d done == 0 then suc (waiting done ds) else waiting done ds

pub waiting-nil : (ds : List Text) → waiting [] ds ≡ length ds
unfolding waiting count
waiting-nil [] = refl
waiting-nil (d ∷ ds) = omega (arith, waiting-nil ds)

pub waiting_none : (done ds : List Text) → ds ≡ [] → waiting done ds ≡ 0
unfolding waiting
waiting_none done ds h = rw h

-- How often the dependencies `ds` name an address of the wave.
pub hits : List Text → List Text → ℕ
hits wave [] = 0
hits wave (d ∷ ds) = count d wave + hits wave ds

pub waiting-append :
    (wave done ds : List Text)
    → ((a : Text) → count a wave + count a done ≤ 1)
    → waiting (wave ++ done) ds + hits wave ds ≡ waiting done ds
unfolding waiting hits
waiting-append wave done [] h = omega arith
waiting-append wave done (d ∷ ds) h =
    ground (arith, waiting-append wave done ds h, h d, count-append d wave done)

hits-nil : (ds : List Text) → hits [] ds ≡ 0
unfolding hits count
hits-nil [] = refl
hits-nil (d ∷ ds) = omega (arith, hits-nil ds)

hits-cons : (a : Text) (wave ds : List Text) → hits (a ∷ wave) ds ≡ count a ds + hits wave ds
unfolding hits count
hits-cons a wave [] = omega arith
hits-cons a wave (d ∷ ds) = ground (arith, hits-cons a wave ds, text_eq_iff a d, text_eq_iff d a)

-- The demand of a wave is what it takes from the dependencies, where `dependents` is their inverse.
pub demand-eq-hits :
    (dependents : Dict (List Text)) (x : Text) (ds : List Text)
    → ((a : Text) → count x (get [] a dependents) ≡ count a ds)
    → (wave : List Text) → demand dependents x wave ≡ hits wave ds
unfolding demand
demand-eq-hits dependents x ds h [] = omega (arith, hits-nil ds)
demand-eq-hits dependents x ds h (a ∷ wave) =
    omega (arith, h a, hits-cons a wave ds, demand-eq-hits dependents x ds h wave)
