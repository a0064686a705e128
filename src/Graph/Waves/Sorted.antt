-- ===== src/Graph/Waves/Sorted.antt =====
-- The waves one after the other, as TopologicalSort of internal/core/graph/schedule.go returns them.
use debianform.Base.{Text, ◌<◌, List, [], ◌∷◌, ◌++◌, arith, count, count-append, text_eq_refl}
use debianform.Graph.Schedule.{ScheduleItem, Entries}
use debianform.Graph.Acyclic.Walks.{DependsOn}
use debianform.Graph.Waves.{append_waves}
use debianform.Graph.Waves.Run.{addresses}

-- Every item comes in a later wave than all that it depends on; `done` are the addresses of the
-- earlier waves.
abbrev pub Behind : Entries → List Text → List (List ScheduleItem) → Type 0
Behind entries done [] = Unit
Behind entries done (wave ∷ rest) =
    ((x d : Text) → 0 < count x (addresses wave) → DependsOn entries x d → 0 < count d done)
    × Behind entries (addresses wave ++ done) rest

-- A list of items in which each stands behind all that it depends on; `done` are the addresses of
-- those before it.
abbrev pub Sorted : Entries → List Text → List ScheduleItem → Type 0
Sorted entries done [] = Unit
Sorted entries done (item ∷ rest) =
    ((d : Text) → DependsOn entries item.address d → 0 < count d done)
    × Sorted entries (item.address ∷ done) rest

-- All of one list is in the other.
abbrev Within : List Text → List Text → Type 0
Within xs ys = (d : Text) → 0 < count d xs → 0 < count d ys

module _ (entries : Entries) where
  Sorted-grow :
      (items : List ScheduleItem) (done more : List Text)
      → Within done more
      → Sorted entries done items
      → Sorted entries more items
  Sorted-grow [] done more grow s = tt
  Sorted-grow (item ∷ rest) done more grow (now, s) = (
    (λ d k. grow d (now d k)),
    Sorted-grow rest (item.address ∷ done) (item.address ∷ more)
        (λ d k. unfold count in ground (arith, k, grow d)) s,
  )

  -- The items of a wave that depend on earlier waves only may stand in any order.
  Sorted-wave :
      (wave rest : List ScheduleItem) (done : List Text)
      → ((x d : Text) → 0 < count x (addresses wave) → DependsOn entries x d → 0 < count d done)
      → Sorted entries (addresses wave ++ done) rest
      → Sorted entries done (wave ++ rest)
  unfolding count
  Sorted-wave [] rest done now s = s
  Sorted-wave (item ∷ wave) rest done now s = (
    (λ d k. now item.address d (ground (arith, text_eq_refl item.address)) k),
    Sorted-wave wave rest (item.address ∷ done)
        (λ x d i k. ground (arith, now x d (ground (arith, i)) k))
        (Sorted-grow rest (item.address ∷ (addresses wave ++ done))
          (addresses wave ++ (item.address ∷ done))
          (λ d k. ground (
            arith,
            k,
            count-append d (addresses wave) done,
            count-append d (addresses wave) (item.address ∷ done),
          ))
          s),
  )

  pub Sorted-append_waves :
      (found : List (List ScheduleItem)) (done : List Text)
      → Behind entries done found
      → Sorted entries done (append_waves found)
  unfolding append_waves
  Sorted-append_waves [] done b = tt
  Sorted-append_waves (wave ∷ rest) done (now, b) =
      Sorted-wave wave (append_waves rest) done now
        (Sorted-append_waves rest (addresses wave ++ done) b)
