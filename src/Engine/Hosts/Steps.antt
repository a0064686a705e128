-- ===== src/Engine/Hosts/Steps.antt =====
-- What one event does to the worker pool of internal/core/engine/engine.go.
use debianform.Base.{
  ℕ, zero, suc, ◌≤◌, ◌<◌, List, [], ◌∷◌, ◌++◌, Option, none, some, Bool, length, ltb, ◌≡◌, refl,
  arith, ◌⊎◌, inl, inr, Bool-cases,
}
use debianform.Engine.{EngineError}
use debianform.Engine.Hosts.{send, finish, Workers, take_at, finished, perform}

pub length-take_at :
    {A : Type 0} (n : ℕ) (xs : List A) (x : A) (others : List A)
    → take_at n xs ≡ some (x, others)
    → length xs ≡ suc (length others)
unfolding take_at
length-take_at n [] x others h = absurd (ground (arith, h))
length-take_at zero (y ∷ xs) x others h = ground (arith, h)
length-take_at (suc n) (y ∷ xs) x others h =
    go (take_at n xs) refl (λ z zs e. length-take_at n xs z zs e)
  where
    go :
        (o : Option _)
        → take_at n xs ≡ o
        → (shorter : (z : _) (zs : List _)
            → take_at n xs ≡ some (z, zs)
            → length xs ≡ suc (length zs))
        → length (y ∷ xs) ≡ suc (length others)
    go none e shorter = absurd (ground (arith, h, e))
    go (some (z, zs)) e shorter = ground (arith, h, e, shorter z zs e)

module _ {H S : Type 0} (call : Bool → H → S → S × Option EngineError) where
  pub finished-waiting :
      (w : Workers H S) (host : H) (others : List H)
      → ((finished call w host others).waiting ≡ w.waiting)
        × ((finished call w host others).busy ≡ others)
  unfolding finished
  finished-waiting w host others = go ((call w.is_cancelled host w.world).1) refl
    where
      go :
          (o : Option EngineError)
          → (call w.is_cancelled host w.world).1 ≡ o
          → ((finished call w host others).waiting ≡ w.waiting)
            × ((finished call w host others).busy ≡ others)
      go none e = rw (finished, e) (refl, refl)
      go (some problem) e = rw (finished, e) (refl, refl)

  -- What an event can do.
  pub perform-send :
      (limit : ℕ) (w : Workers H S)
      → ((perform call limit w send ≡ w) × ((w.waiting ≡ []) ⊎ (limit ≤ length w.busy)))
        ⊎ ((host : H) × (rest : List H) × (w.waiting ≡ host ∷ rest)
            × (length w.busy < limit)
            × (perform call limit w send ≡ record w { waiting = rest; busy = w.busy ++ host ∷ [] }))
  unfolding perform
  perform-send limit w = go w.waiting refl
    where
      go :
          (l : List H)
          → w.waiting ≡ l
          → ((perform call limit w send ≡ w) × ((w.waiting ≡ []) ⊎ (limit ≤ length w.busy)))
            ⊎ ((host : H) × (rest : List H) × (w.waiting ≡ host ∷ rest)
                × (length w.busy < limit)
                × (perform call limit w send
                    ≡ record w { waiting = rest; busy = w.busy ++ host ∷ [] }))
      go [] e = inl (ground (arith, e), inl e)
      go (host ∷ rest) e = elim (Bool-cases (ltb (length w.busy) limit)) [
        | inl free ↦ inr (host, rest, e, ground (arith, free), rw (perform, e, free) refl)
        | inr full ↦ inl (ground (arith, e, full), inr (ground (arith, full)))
      ]

  pub perform-finish :
      (limit n : ℕ) (w : Workers H S)
      → ((perform call limit w (finish n) ≡ w) × (take_at n w.busy ≡ none))
        ⊎ ((host : H) × (others : List H) × (take_at n w.busy ≡ some (host, others))
            × (perform call limit w (finish n) ≡ finished call w host others))
  unfolding perform
  perform-finish limit n w = go (take_at n w.busy) refl
    where
      go :
          (o : Option (H × List H))
          → take_at n w.busy ≡ o
          → ((perform call limit w (finish n) ≡ w) × (take_at n w.busy ≡ none))
            ⊎ ((host : H) × (others : List H) × (take_at n w.busy ≡ some (host, others))
                × (perform call limit w (finish n) ≡ finished call w host others))
      go none e = inl (rw (perform, e) refl, e)
      go (some (host, others)) e = inr (host, others, e, rw (perform, e) refl)
