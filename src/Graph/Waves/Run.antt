-- ===== src/Graph/Waves/Run.antt =====
-- What the scheduling loop returns for the active entries.
use debianform.Base.{
  Text, ◌+◌, ◌≤◌, ◌<◌, List, [], ◌∷◌, ◌++◌, map, ◌≡◌, refl, ◌∙◌, ◌⊎◌, inl, inr, arith, count,
  count-append, count-nil, text_eq_iff, length, ◌==◌, Result, ok, err, count-sort_stable,
  count-map-sort_stable, Bool-cases, IsDistinct, SameItems,
}
use debianform.Base.Dict.{Dict, keys, get}
use debianform.Graph.Schedule.{ScheduleItem, ScheduleError, Entries, wave_cycle}
use debianform.Graph.Schedule.Named.{IsNamed}
use debianform.Graph.Kahn.{emitted, tally}
use debianform.Graph.Kahn.Tally.{length-tally}
use debianform.Graph.Kahn.Rounds.{IsSchedule, address_waves_lem}
use debianform.Graph.Kahn.Complete.{Edge, Orders, flat, flat_same, emitted_of_order, waiting_zero}
use debianform.Graph.Waves.{
  Active, active_edges, order_before, sort_addresses_by_order, wave_item, item_before, wave_items,
  run_waves, append_waves,
}

abbrev pub addresses : List ScheduleItem → List Text
addresses items = map (λ item. item.address) items

-- Each item of a wave comes after all of its dependencies.
abbrev pub Follows : Dict (List Text) → List Text → List (List ScheduleItem) → Type 0
Follows edges done [] = Unit
Follows edges done (wave ∷ waves) =
    ((x d : Text) → 0 < count x (addresses wave) → Edge edges x d → 0 < count d done)
    × Follows edges (addresses wave ++ done) waves

-- The waves hold each active address once, behind its active dependencies.
pub record IsScheduled (edges : Dict (List Text)) (waves : List (List ScheduleItem)) : Type 0 where
  pub each_once : SameItems (addresses (append_waves waves)) (keys edges)
  pub follows : Follows edges [] waves

pub addresses-append :
    (xs ys : List ScheduleItem) → addresses (xs ++ ys) ≡ addresses xs ++ addresses ys
addresses-append [] ys = refl
addresses-append (x ∷ xs) ys = λ i. x.address ∷ addresses-append xs ys i

pub edge_key_le :
    (active : Active) (aliases : Dict Text) (found : Entries) (x : Text)
    → count x (keys (active_edges active aliases found)) ≤ count x (keys found)
unfolding active_edges keys count
edge_key_le active aliases [] x = omega arith
edge_key_le active aliases ((y, e) ∷ found) x = ground (arith, edge_key_le active aliases found x)

count-flat :
    (x : Text) (done : List Text) (waves : List (List Text))
    → count x (flat done waves) ≡ count x (flat [] waves) + count x done
unfolding flat
count-flat x done [] = unfold count in omega arith
count-flat x done (wave ∷ waves) = omega (
  arith,
  count-flat x (wave ++ done) waves,
  count-flat x (wave ++ []) waves,
  count-append x wave done,
  count-append x wave [],
  count-nil x,
)

module _ (active : Active) (aliases : Dict Text) (found : Entries) (named : IsNamed found) where
  abbrev InFound : List Text → Type 0
  InFound wave = (x : Text) → 0 < count x wave → 0 < count x (keys found)

  count-items :
      (a : Text) (wave : List Text)
      → InFound wave
      → count a (addresses (map (wave_item active aliases found) wave)) ≡ count a wave
  unfolding wave_item count
  count-items a [] h = refl
  count-items a (x ∷ wave) h =
      let e = named x (ground (arith, h x, text_eq_iff x x)) in
      rw e (ground (arith, count-items a wave (λ y k. ground (arith, h y))))

  count-wave_items :
      (a : Text) (wave : List Text)
      → InFound wave
      → count a (addresses (wave_items active aliases found wave)) ≡ count a wave
  unfolding wave_items
  count-wave_items a wave h =
      count-map-sort_stable item_before (λ item. item.address) a
        (map (wave_item active aliases found) wave)
      ∙ count-items a wave h

  count-all_items :
      (a : Text) (waves : List (List Text))
      → InFound (flat [] waves)
      → count a (addresses (append_waves (map (wave_items active aliases found) waves)))
        ≡ count a (flat [] waves)
  unfolding append_waves flat
  count-all_items a [] h = refl
  count-all_items a (wave ∷ waves) h =
      let parts = λ (x : Text). count-flat x (wave ++ []) waves in
      let ends = λ (x : Text). count-append x wave [] in
      rw
        (addresses-append (wave_items active aliases found wave)
          (append_waves (map (wave_items active aliases found) waves)))
        (omega (
          arith,
          parts a,
          ends a,
          count-nil a,
          count-append a (addresses (wave_items active aliases found wave))
              (addresses (append_waves (map (wave_items active aliases found) waves))),
          count-wave_items a wave (λ x k. h x (omega (arith, parts x, ends x, count-nil x))),
          count-all_items a waves (λ x k. h x (omega (arith, parts x))),
        ))

  Follows-items :
      (edges : Dict (List Text)) (done done' : List Text) (waves : List (List Text))
      → SameItems done done'
      → IsSchedule edges done waves
      → ((x : Text) → count x (keys edges) ≤ count x (keys found))
      → Follows edges done' (map (wave_items active aliases found) waves)
  Follows-items edges done done' [] same s within = tt
  Follows-items edges done done' (wave ∷ waves) same (free, inside, s) within =
      let here = λ (x : Text). count-wave_items x wave (λ y k. omega (arith, inside y, within y)) in
      (
        (λ x d k e. omega (
          arith,
          same d,
          waiting_zero done (get [] x edges) d (free x (omega (arith, here x))) e,
        )),
        Follows-items edges (wave ++ done)
            (addresses (wave_items active aliases found wave) ++ done') waves
            (λ x. omega (
              arith,
              same x,
              here x,
              count-append x wave done,
              count-append x (addresses (wave_items active aliases found wave)) done',
            ))
            s within,
      )

-- An order of the active addresses by their active dependencies.
abbrev pub Orderable : Dict (List Text) → Type 0
Orderable edges =
    (order : List Text) × Orders edges order
    × ((x d : Text) → Edge edges x d → 0 < count d (keys edges))
    × ((x : Text) → 0 < count x (keys edges) → 0 < count x order)

-- The loop returns a schedule, or it says that there is a cycle and there is no order.
abbrev pub Decides : Dict (List Text) → Result ScheduleError (List (List ScheduleItem)) → Type 0
Decides edges r =
    ((waves : List (List ScheduleItem)) × (r ≡ ok waves) × IsScheduled edges waves)
    ⊎ ((r ≡ err wave_cycle) × (Orderable edges → ⊥))

module _ (active : Active) (aliases : Dict Text) (found : Entries) (named : IsNamed found)
    (distinct : IsDistinct (keys found)) where
  abbrev edges : Dict (List Text)
  edges = active_edges active aliases found

  edges-IsDistinct : IsDistinct (keys edges)
  edges-IsDistinct x = omega (arith, edge_key_le active aliases found x, distinct x)

  length-tally-edges : length (tally edges [] []).0 ≡ length edges
  length-tally-edges = omega (
    arith,
    length-tally edges [] [] (λ a. unfold keys count in omega (arith, edges-IsDistinct a)),
  )

  schedule_of :
      (waves : List (List Text))
      → IsSchedule edges [] waves
      → emitted waves ≡ length edges
      → IsScheduled edges (map (wave_items active aliases found) waves)
  schedule_of waves s all =
      let same = flat_same edges edges-IsDistinct waves s all in
      let within = edge_key_le active aliases found in
      record {
        each_once = λ a.
            count-all_items active aliases found named a waves
              (λ x k. omega (arith, same x, within x))
            ∙ same a;
        follows = Follows-items active aliases found named edges [] [] waves (λ x. refl) s within;
      }

  pub run_waves-Decides : Decides edges (run_waves active aliases found)
  unfolding run_waves sort_addresses_by_order
  run_waves-Decides =
      let (waves, e, s) =
        address_waves_lem (sort_addresses_by_order found) edges
          (λ x xs. count-sort_stable (order_before found) x xs) edges-IsDistinct in
      elim (Bool-cases (emitted waves == length (tally edges [] []).0)) [
        | inl all ↦ inl (
          map (wave_items active aliases found) waves,
          rw (e, run_waves) (rw all),
          schedule_of waves s (ground (arith, length-tally-edges)),
        )
        | inr less ↦ inr (
          rw (e, run_waves) (rw less),
          λ (order, o, known, full). ground (
            arith,
            length-tally-edges,
            emitted_of_order edges edges-IsDistinct waves s order o known full,
          ),
        )
      ]
