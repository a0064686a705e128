-- ===== src/Graph/Waves/Actives.antt =====
-- The entries that are active, and what the scheduled items wait for.
use debianform.Base.{
  Text, ◌<◌, List, [], ◌∷◌, ◌++◌, map, ◌≡◌, refl, arith, count, text_eq_iff, count-sort_stable,
  is_empty, Option, none, some, Bool, true, false, ok, >>=-eq-ok, IsDistinct, inl, inr, Among,
  Among-map, Among-sort_stable, count_of_Among,
}
use debianform.Base.Dict.{Dict, keys, get, insert, has-false, count-keys-insert}
use debianform.Graph.Schedule.{
  Entries, ScheduleItem, ScheduleEntry, zero_entry, dedupe_from, dedupe_strings,
}
use debianform.Graph.Schedule.Named.{IsNamed, IsNamed-insert}
use debianform.Graph.Kahn.Complete.{Edge}
use debianform.Graph.Waves.{
  Active, is_active, active_edges, active_dependencies_with_aliases, active_entry, active_entries,
  collect_active, check_active, entry_for_active_address, wave_item, item_before, wave_items,
  run_waves, sort_addresses_by_order, alias_dependencies, order_before,
}
use debianform.Graph.Waves.Run.{edge_key_le, IsScheduled, run_waves-Decides}
use debianform.Graph.Kahn.Rounds.{IsSchedule, address_waves_lem}

-- The entries stand under their own addresses, each once.
abbrev pub Sound : Entries → Type 0
Sound found = IsNamed found × IsDistinct (keys found)

Sound-insert :
    (k : Text) (e : ScheduleEntry) (found : Entries)
    → e.item.address ≡ k
    → Sound found
    → Sound (insert k e found)
Sound-insert k e found own (named, distinct) = (
  IsNamed-insert k e found own named,
  λ x. ground (arith, count-keys-insert k x e found, distinct x, has-false x found),
)

module _ (entries : Entries) (aliases : Dict Text) (overrides : Dict (List Text)) where
  -- One round of the loop: an enabled address gets an entry, a disabled one is passed over.
  abbrev pub Round : Bool → Text → Entries → Entries → Type 0
  Round true address found found' =
      (e : ScheduleEntry) × (e.item.address ≡ address) × (found' ≡ insert address e found)
  Round false address found found' = found' ≡ found

  pub collect_active_cons :
      (active : Dict Bool) (address : Text) (enabled : Bool) (rest : Dict Bool)
      (found out : Entries)
      → collect_active entries aliases overrides active ((address, enabled) ∷ rest) found ≡ ok out
      → (found' : Entries) × Round enabled address found found'
        × (collect_active entries aliases overrides active rest found' ≡ ok out)
  unfolding collect_active active_entry
  collect_active_cons active address enabled rest found out h =
      go (entry_for_active_address entries aliases address) refl enabled h
    where
      go :
          (o : Option ScheduleEntry)
          → entry_for_active_address entries aliases address ≡ o
          → (b : Bool)
          → collect_active entries aliases overrides active ((address, b) ∷ rest) found ≡ ok out
          → (found' : Entries) × Round b address found found'
            × (collect_active entries aliases overrides active rest found' ≡ ok out)
      go none e true k = absurd (ground (arith, k, e))
      go o e false k = (found, refl, skipped o e k)
        where
          skipped :
              (o' : Option ScheduleEntry)
              → entry_for_active_address entries aliases address ≡ o'
              → collect_active entries aliases overrides active ((address, false) ∷ rest) found
                ≡ ok out
              → collect_active entries aliases overrides active rest found ≡ ok out
          skipped none e' k' = ground (arith, k', e')
          skipped (some entry) e' k' = ground (arith, k', e')
      go (some entry) e true k =
          let made = active_entry entries aliases overrides active address entry in
          (insert address made found, (made, refl, refl), ground (arith, k, e))

  collect_active-Sound :
      (active rest : Dict Bool) (found out : Entries)
      → collect_active entries aliases overrides active rest found ≡ ok out
      → Sound found
      → Sound out
  collect_active-Sound active [] found out h s =
      let e : found ≡ out = unfold collect_active in cc in rw (← e) s
  collect_active-Sound active ((address, true) ∷ rest) found out h s =
      let (found', (e, own, same), later) =
        collect_active_cons active address true rest found out h in
      collect_active-Sound active rest found' out later
        (rw same (Sound-insert address e found own s))
  collect_active-Sound active ((address, false) ∷ rest) found out h s =
      let (found', same, later) = collect_active_cons active address false rest found out h in
      collect_active-Sound active rest found' out later (rw same s)

  pub active_entries-Sound :
      (active : Dict Bool) (out : Entries)
      → active_entries entries aliases overrides (some active) ≡ ok out
      → Sound out
  unfolding active_entries
  active_entries-Sound active out h =
      let (_, checked, k) = >>=-eq-ok (check_active entries aliases overrides active) _ h in
      collect_active-Sound active active [] out k
        ((λ x k. absurd (unfold keys count in omega arith)), λ x. unfold keys count in omega arith)

inactive_absent :
    (active : Active) (aliases : Dict Text) (x : Text) (found : Entries)
    → is_active active x ≡ false
    → count x (keys (active_edges active aliases found)) ≡ 0
unfolding active_edges keys count
inactive_absent active aliases x [] h = refl
inactive_absent active aliases x ((y, e) ∷ found) h =
    ground (arith, inactive_absent active aliases x found h, text_eq_iff y x)

get-active_edges :
    (active : Active) (aliases : Dict Text) (x : Text) (found : Entries)
    → 0 < count x (keys (active_edges active aliases found))
    → get [] x (active_edges active aliases found)
      ≡ active_dependencies_with_aliases (get zero_entry x found).depends_on active aliases
unfolding active_edges get keys count
get-active_edges active aliases x [] h = absurd (omega arith)
get-active_edges active aliases x ((y, e) ∷ found) h = ground (
  arith,
  h,
  text_eq_iff y x,
  get-active_edges active aliases x found,
  inactive_absent active aliases x found,
)

-- No empty text is kept.
dedupe_from_full :
    (seen values : List Text) (d : Text)
    → 0 < count d (dedupe_from seen values)
    → is_empty d ≡ false
unfolding dedupe_from count
dedupe_from_full seen [] d h = absurd (omega arith)
dedupe_from_full seen (v ∷ values) d h = ground (
  arith,
  h,
  text_eq_iff v d,
  dedupe_from_full seen values d,
  dedupe_from_full (v ∷ seen) values d,
)

-- An item of the waves waits for what the edges name, and for no empty text.
abbrev pub Waits : Dict (List Text) → ScheduleItem → Type 0
Waits edges item =
    (d : Text) → 0 < count d item.depends_on → Edge edges item.address d × (is_empty d ≡ false)

abbrev pub AllWait : Dict (List Text) → List (List ScheduleItem) → Type 0
AllWait edges [] = Unit
AllWait edges (wave ∷ waves) =
    ((item : ScheduleItem) → Among item wave → Waits edges item) × AllWait edges waves

module _ (active : Dict Bool) (aliases : Dict Text) (found : Entries) (named : IsNamed found) where
  abbrev edges : Dict (List Text)
  edges = active_edges (some active) aliases found

  wave_item-Waits :
      (x : Text)
      → 0 < count x (keys edges)
      → 0 < count x (keys found)
      → Waits edges (wave_item (some active) aliases found x)
  unfolding wave_item active_dependencies_with_aliases dedupe_strings
  wave_item-Waits x scheduled present d h =
      let own = named x present in
      (
        rw own (rw (get-active_edges (some active) aliases x found scheduled) h),
        dedupe_from_full []
            (alias_dependencies (some active) aliases (get zero_entry x found).depends_on) d h,
      )

  items-Waits :
      (wave : List Text)
      → ((x : Text) → 0 < count x wave → 0 < count x (keys edges))
      → (item : ScheduleItem) → Among item (wave_items (some active) aliases found wave)
      → Waits edges item
  unfolding wave_items
  items-Waits wave within item i =
      let made = map (wave_item (some active) aliases found) wave in
      let (x, same, there) =
        Among-map (wave_item (some active) aliases found) item wave
          (Among-sort_stable item_before item made i) in
      let key = within x (count_of_Among x wave there) in
      rw same
        (wave_item-Waits x key (omega (arith, key, edge_key_le (some active) aliases found x)))

  waves-Waits :
      (done : List Text) (waves : List (List Text))
      → IsSchedule edges done waves
      → AllWait edges (map (wave_items (some active) aliases found) waves)
  waves-Waits done [] s = tt
  waves-Waits done (wave ∷ waves) (free, within, s) =
      (items-Waits wave (λ x h. omega (arith, within x, h)), waves-Waits (wave ++ done) waves s)

  module _ (distinct : IsDistinct (keys found)) where
    pub run_waves-Waits :
        (waves : List (List ScheduleItem))
        → run_waves (some active) aliases found ≡ ok waves
        → IsScheduled edges waves × AllWait edges waves
    unfolding run_waves sort_addresses_by_order
    run_waves-Waits waves h =
        let (named_waves, e, s) =
          address_waves_lem (sort_addresses_by_order found) edges
            (λ x xs. count-sort_stable (order_before found) x xs)
            (λ x. omega (arith, edge_key_le (some active) aliases found x, distinct x)) in
        let same : map (wave_items (some active) aliases found) named_waves ≡ waves =
          ground (arith, h, e) in
        (
          elim (run_waves-Decides (some active) aliases found named distinct) [
            | inl (waves', e', scheduled) ↦
                let same' : waves' ≡ waves = cc in rw (← same') scheduled
            | inr (e', stuck) ↦ absurd (ground (arith, h, e'))
          ],
          rw (← same) (waves-Waits [] named_waves s),
        )
