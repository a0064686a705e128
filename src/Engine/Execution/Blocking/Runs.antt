-- ===== src/Engine/Execution/Blocking/Runs.antt =====
-- The waves one after the other: which items have run, and which are blocked.
use debianform.Base.{
  Among, Among-append, Among-left, Among-right, Text, ◌<◌, List, [], ◌∷◌, ◌++◌, ◌≡◌, ◌∙◌, ap, refl,
  arith, Option, none, some, true, false, text_eq_iff, is_empty, count, count-append, inl, inr, ◌⊎◌,
  ◌↔◌,
}
use debianform.Base.Dict.{Dict, insert, lookup, has, has-insert}
use debianform.Engine.{EngineError}
use debianform.Engine.Order.{ExecutionItem}
use debianform.Engine.Execution.{
  Run, split_wave, record_results, run_items, run_execution_wave, run_all, run_execution_waves,
}
use debianform.Engine.Execution.Blocking.{
  item_addresses, all_addresses, IsForward, Clear, Named, Split, split_wave-Split,
}

-- Only addresses of the items are recorded as failed.
has-record_results :
    (d : Text) (items : List ExecutionItem) (results : Dict (Option EngineError))
    (failed : Dict EngineError) (first : Option EngineError)
    → count d (item_addresses items) ≡ 0
    → has d (record_results items results failed first).0 ≡ has d failed
unfolding record_results item_addresses count
has-record_results d [] results failed first h = refl
has-record_results d (item ∷ items) results failed first h =
    go (lookup item.address results) refl
      (λ f first'. has-record_results d items results f first' (ground (arith, h)))
  where
    go :
        (r : Option (Option EngineError))
        → lookup item.address results ≡ r
        → ((f : Dict EngineError) (first' : Option EngineError)
            → has d (record_results items results f first').0 ≡ has d f)
        → has d (record_results (item ∷ items) results failed first).0 ≡ has d failed
    go none e later = rw (e, record_results) (later failed first)
    go (some none) e later = rw (e, record_results) (later failed first)
    go (some (some x)) e later =
        rw (e, record_results)
          (later (insert item.address x failed) (elim first [ none ↦ some x | some f ↦ some f ])
            ∙ ground (arith, h, has-insert item.address d x failed, text_eq_iff item.address d))

-- The wave is one of the waves.
abbrev pub Holds : List ExecutionItem → List (List ExecutionItem) → Type 0
Holds wave [] = ⊥
Holds wave (other ∷ waves) = (wave ≡ other) ⊎ Holds wave waves

module _ {S : Type 0} (hosts : List Text) (execute : ExecutionItem → S → S × Option EngineError)
    (arrange : List ExecutionItem → List ExecutionItem)
    (same : (items : List ExecutionItem) (item : ExecutionItem)
      → Among item (arrange items) ↔ Among item items) where
  -- Between two waves, `later` being the addresses of the waves to come.
  record Good (r : Run S) (later : List Text) : Type 0 where
    named : Named r.blocked
    clear : (item : ExecutionItem) → Among item r.started → Clear r.failed r.blocked item
    apart :
        (item : ExecutionItem) (d : Text)
        → Among item r.started
        → 0 < count d item.depends_on
        → count d later ≡ 0

  module _ (wave : List ExecutionItem) (waves : List (List ExecutionItem)) (r : Run S)
      (good : Good r (item_addresses wave ++ all_addresses waves))
      (now : (item : ExecutionItem) (d : Text)
        → Among item wave
        → 0 < count d item.depends_on
        → (is_empty d ≡ false) × (count d (item_addresses wave ++ all_addresses waves) ≡ 0)) where
    after : Run S
    after = run_execution_wave hosts execute arrange wave r

    here :
        (d : Text)
        → count d (item_addresses wave ++ all_addresses waves) ≡ 0
        → (count d (item_addresses wave) ≡ 0) × (count d (all_addresses waves) ≡ 0)
    here d h =
        let sum = count-append d (item_addresses wave) (all_addresses waves) in
        (omega (arith, sum, h), omega (arith, sum, h))

    split : Split r.failed wave r.blocked (split_wave r.failed wave r.blocked)
    split =
        split_wave-Split r.failed wave r.blocked good.named
          (λ item d i k. ((now item d i k).0, (here d (now item d i k).1).0))

    after_failed :
        (d : Text) → count d (item_addresses wave) ≡ 0 → has d after.failed ≡ has d r.failed
    unfolding after run_execution_wave split
    after_failed d h =
        let runnable = (split_wave r.failed wave r.blocked).0 in
        has-record_results d runnable
          (run_items hosts execute arrange (arrange runnable) r.state []).1 r.failed r.first_error
          (omega (arith, split.fewer d, h))

    after_blocked : after.blocked ≡ (split_wave r.failed wave r.blocked).1
    unfolding after run_execution_wave
    after_blocked = refl

    after_started : after.started ≡ r.started ++ arrange (split_wave r.failed wave r.blocked).0
    unfolding after run_execution_wave
    after_started = refl

    Clear-after :
        (item : ExecutionItem)
        → ((d : Text) → 0 < count d item.depends_on → count d (item_addresses wave) ≡ 0)
        → ((d : Text)
            → 0 < count d item.depends_on
            → (has d r.failed ≡ false) × (lookup d after.blocked ≡ none))
        → Clear after.failed after.blocked item
    Clear-after item apart old d k = (after_failed d (apart d k) ∙ (old d k).0, (old d k).1)

    Good-after : Good after (all_addresses waves)
    unfolding split
    Good-after = record {
      named = rw after_blocked split.named;
      clear = λ item i.
          elim (Among-append item r.started (arrange (split_wave r.failed wave r.blocked).0)
            (rw after_started at i)) [
              | inl old ↦
                  Clear-after item (λ d k. (here d (good.apart item d old k)).0)
                    (λ d k. (
                      (good.clear item old d k).0,
                      ap (lookup d) after_blocked
                          ∙ split.others d (here d (good.apart item d old k)).0
                          ∙ (good.clear item old d k).1,
                    ))
              | inr new ↦
                  let (among, clear) =
                    split.chosen item ((same (split_wave r.failed wave r.blocked).0 item).0 new) in
                  Clear-after item (λ d k. (here d (now item d among k).1).0)
                    (λ d k. ((clear d k).0, ap (lookup d) after_blocked ∙ (clear d k).1))
            ];
      apart = λ item d i k.
          elim (Among-append item r.started (arrange (split_wave r.failed wave r.blocked).0)
            (rw after_started at i)) [
              | inl old ↦ (here d (good.apart item d old k)).1
              | inr new ↦
                  let (among, _) =
                    split.chosen item ((same (split_wave r.failed wave r.blocked).0 item).0 new) in
                  (here d (now item d among k).1).1
            ];
    }

    -- What was done before the wave stays, and each item of the wave runs or is blocked.
    Handled-after :
        ((item : ExecutionItem) → Among item r.started → Among item after.started)
        × ((a : Text) → has a r.blocked ≡ true → has a after.blocked ≡ true)
        × ((item : ExecutionItem)
            → Among item wave
            → Among item after.started ⊎ (has item.address after.blocked ≡ true))
    unfolding split
    Handled-after =
        let runnable = (split_wave r.failed wave r.blocked).0 in
        (
          (λ item i. rw after_started (Among-left item r.started (arrange runnable) i)),
          (λ a h. rw after_blocked (split.grows a h)),
          λ item i. elim (split.covered item i) [
            | inl runs ↦ inl (
                rw after_started
                  (Among-right item r.started (arrange runnable) ((same runnable item).1 runs)))
            | inr stops ↦ inr (rw after_blocked stops)
          ],
        )

  -- The end of a run: every item of the waves has run or is blocked, and no item that ran has a
  -- dependency that failed or was blocked.
  pub record Handled (waves : List (List ExecutionItem)) (r final : Run S) : Type 0 where
    pub stays : (item : ExecutionItem) → Among item r.started → Among item final.started
    pub keeps : (a : Text) → has a r.blocked ≡ true → has a final.blocked ≡ true
    pub each :
        (item : ExecutionItem) (wave : List ExecutionItem)
        → Holds wave waves
        → Among item wave
        → Among item final.started ⊎ (has item.address final.blocked ≡ true)
    pub clear :
        (item : ExecutionItem) → Among item final.started → Clear final.failed final.blocked item

  run_all-Handled :
      (waves : List (List ExecutionItem)) (r : Run S)
      → Good r (all_addresses waves)
      → IsForward waves
      → Handled waves r (run_all hosts execute arrange waves r)
  unfolding run_all all_addresses after
  run_all-Handled [] r good forward = record {
    stays = λ item i. i;
    keeps = λ a h. h;
    each = λ item wave h i. absurd h;
    clear = good.clear;
  }
  run_all-Handled (wave ∷ waves) r good (now, forward) =
      let (stays, keeps, each) = Handled-after wave waves r good now in
      let later =
        run_all-Handled waves (run_execution_wave hosts execute arrange wave r)
          (Good-after wave waves r good now) forward in
      record {
        stays = λ item i. later.stays item (stays item i);
        keeps = λ a h. later.keeps a (keeps a h);
        each = λ item w h i. elim h [
          | inl this ↦ elim (each item (rw this at i)) [
            | inl runs ↦ inl (later.stays item runs)
            | inr stops ↦ inr (later.keeps item.address stops)
          ]
          | inr there ↦ later.each item w there i
        ];
        clear = later.clear;
      }

  abbrev pub first_run : S → Run S
  first_run s = record { state = s; failed = []; blocked = []; first_error = none; started = [] }

  -- Where no item depends on one of its own wave or a later one: at the end every item of the
  -- waves has been started or is recorded as blocked, and no item that was started depends on one
  -- that is recorded as failed or blocked.
  pub run_execution_waves-Handled :
      (waves : List (List ExecutionItem)) (s : S)
      → IsForward waves
      → Handled waves (first_run s) (run_execution_waves hosts execute arrange waves s)
  unfolding run_execution_waves lookup has all_addresses
  run_execution_waves-Handled waves s forward =
      run_all-Handled waves (first_run s)
        (record {
          named = λ k v h. absurd (ground (arith, h));
          clear = λ item i. absurd i;
          apart = λ item d i k. absurd i;
        })
        forward
