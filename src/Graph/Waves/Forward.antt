-- ===== src/Graph/Waves/Forward.antt =====
-- The waves of the active addresses: which they hold, and in which order.
use debianform.Base.{
  Text, ◌+◌, ◌≤◌, ◌<◌, List, [], ◌∷◌, ◌++◌, ◌≡◌, ap, arith, count, count-append, text_eq_refl, inl,
  inr, Bool-cases, text_eq, text_eq_iff, is_empty, some, Bool, true, false, if◌then◌else◌, ok,
  >>=-eq-ok, Among,
}
use debianform.Base.Dict.{Dict, keys, get, count-keys-insert, has-true}
use debianform.Graph.{ResourceGraph}
use debianform.Graph.Schedule.{Entries, ScheduleItem, schedule_entries}
use debianform.Graph.Acyclic.{validate_acyclic}
use debianform.Graph.Waves.{
  Active, is_active, active_edges, active_entries, collect_active, check_active, append_waves,
  schedule_waves_with_aliases,
}
use debianform.Graph.Waves.Run.{addresses, addresses-append, Follows}
use debianform.Graph.Waves.Actives.{
  AllWait, active_entries-Sound, collect_active_cons, run_waves-Waits,
}

-- The addresses of the waves.
unfoldable pub later_addresses : List (List ScheduleItem) → List Text
later_addresses waves = addresses (append_waves waves)

-- No item of a wave waits for one of its own wave or of a later one.
abbrev pub IsForwardWaves : List (List ScheduleItem) → Type 0
IsForwardWaves [] = Unit
IsForwardWaves (wave ∷ waves) =
    ((item : ScheduleItem) (d : Text)
      → Among item wave
      → 0 < count d item.depends_on
      → (is_empty d ≡ false) × (count d (addresses wave ++ later_addresses waves) ≡ 0))
    × IsForwardWaves waves

count-address_of_Among :
    (item : ScheduleItem) (items : List ScheduleItem)
    → Among item items
    → 0 < count item.address (addresses items)
unfolding count
count-address_of_Among item [] i = absurd i
count-address_of_Among item (x ∷ items) (inl same) =
    rw same (ground (arith, text_eq_refl x.address))
count-address_of_Among item (x ∷ items) (inr i) =
    ground (arith, count-address_of_Among item items i)

forward_of :
    (edges : Dict (List Text)) (done : List Text) (waves : List (List ScheduleItem))
    → Follows edges done waves
    → AllWait edges waves
    → ((x : Text) → count x (later_addresses waves) + count x done ≤ 1)
    → IsForwardWaves waves
unfolding later_addresses append_waves
forward_of edges done [] f w once = tt
forward_of edges done (wave ∷ waves) (behind, f) (wait, w) once =
    let sum = λ (x : Text).
      let flat : addresses (wave ++ append_waves waves)
          ≡ addresses wave ++ addresses (append_waves waves) =
        addresses-append wave (append_waves waves) in
      ap (count x) flat in
    (
      λ item d i k.
          let (edge, full) = wait item i d k in
          (
            full,
            omega (
              arith,
              behind item.address d (count-address_of_Among item wave i) edge,
              once d,
              sum d,
              count-append d (addresses wave) (addresses (append_waves waves)),
            ),
          ),
      forward_of edges (addresses wave ++ done) waves f w (λ x. omega (
        arith,
        once x,
        sum x,
        count-append x (addresses wave) (addresses (append_waves waves)),
        count-append x (addresses wave) done,
      )),
    )

module _ (entries : Entries) (aliases : Dict Text) (overrides : Dict (List Text)) where
  -- What was there stays.
  collect_active_keeps :
      (active rest : Dict Bool) (found out : Entries) (x : Text)
      → collect_active entries aliases overrides active rest found ≡ ok out
      → 0 < count x (keys found)
      → 0 < count x (keys out)
  collect_active_keeps active [] found out x h k =
      let e : found ≡ out = unfold collect_active in cc in rw (← e) k
  collect_active_keeps active ((address, true) ∷ rest) found out x h k =
      let (found', (e, own, same), later) =
        collect_active_cons entries aliases overrides active address true rest found out h in
      collect_active_keeps active rest found' out x later
        (rw same (ground (arith, k, count-keys-insert address x e found, has-true x found)))
  collect_active_keeps active ((address, false) ∷ rest) found out x h k =
      let (found', same, later) =
        collect_active_cons entries aliases overrides active address false rest found out h in
      collect_active_keeps active rest found' out x later (rw same k)

  -- What is enabled is collected.
  collect_active_enabled :
      (active rest : Dict Bool) (found out : Entries) (x : Text)
      → collect_active entries aliases overrides active rest found ≡ ok out
      → get false x rest ≡ true
      → 0 < count x (keys out)
  unfolding get
  collect_active_enabled active [] found out x h k = absurd (ground (arith, k))
  collect_active_enabled active ((address, true) ∷ rest) found out x h k =
      let (found', (e, own, same), later) =
        collect_active_cons entries aliases overrides active address true rest found out h in
      elim (Bool-cases (text_eq address x)) [
        | inl this ↦
            collect_active_keeps active rest found' out x later (
              rw same (ground (arith, this, count-keys-insert address x e found, has-true x found)))
        | inr other ↦
            collect_active_enabled active rest found' out x later (ground (arith, k, other))
      ]
  collect_active_enabled active ((address, false) ∷ rest) found out x h k =
      let (found', same, later) =
        collect_active_cons entries aliases overrides active address false rest found out h in
      collect_active_enabled active rest found' out x later (ground (arith, k))

count-active_edges :
    (active : Active) (aliases : Dict Text) (x : Text) (found : Entries)
    → count x (keys (active_edges active aliases found))
      ≡ (if is_active active x then count x (keys found) else 0)
unfolding active_edges keys count
count-active_edges active aliases x [] = ground arith
count-active_edges active aliases x ((y, e) ∷ found) =
    ground (arith, count-active_edges active aliases x found, text_eq_iff y x)

-- Where the waves of the active addresses can be made, they hold each address that is enabled once
-- and no other, and no item waits for one of its own wave or of a later one.
pub schedule_waves_forward :
    (g : ResourceGraph) (active : Dict Bool) (aliases : Dict Text) (overrides : Dict (List Text))
    (waves : List (List ScheduleItem))
    → schedule_waves_with_aliases g (some active) aliases overrides ≡ ok waves
    → ((x : Text) → count x (later_addresses waves) ≡ (if get false x active then 1 else 0))
      × IsForwardWaves waves
unfolding schedule_waves_with_aliases active_entries is_active later_addresses
schedule_waves_forward g active aliases overrides waves h =
    let (entries, _, k) = >>=-eq-ok (schedule_entries g) _ h in
    let (_, _, k') = >>=-eq-ok (validate_acyclic entries) _ k in
    let (found, e, made) =
      >>=-eq-ok (active_entries entries aliases overrides (some active)) _ k' in
    let (named, distinct) = active_entries-Sound entries aliases overrides active found e in
    let (scheduled, wait) = run_waves-Waits active aliases found named distinct waves made in
    let (_, _, collected) = >>=-eq-ok (check_active entries aliases overrides active) _ e in
    let once : (x : Text)
        → count x (addresses (append_waves waves)) ≡ (if get false x active then 1 else 0) =
      λ x. ground (
        arith,
        scheduled.each_once x,
        count-active_edges (some active) aliases x found,
        distinct x,
        collect_active_enabled entries aliases overrides active active [] found x collected,
      ) in
    (
      once,
      forward_of (active_edges (some active) aliases found) [] waves scheduled.follows wait
          (λ x. unfold count in ground (arith, once x)),
    )
