-- ===== src/Engine/Execution/Blocking.antt =====
-- What the choice of the items of a wave does: an item with a dependency that is recorded as failed
-- or blocked is not started.
pub mod Runs
use debianform.Base.{
  Among, Text, ℕ, ◌+◌, ◌<◌, List, [], ◌∷◌, ◌++◌, map, ◌≡◌, ◌∙◌, refl, arith, Option, none, some,
  Bool, true, false, if◌then◌else◌, text_eq, text_eq_iff, text_eq_refl, is_empty, count, ◌≤◌,
  count-append, inl, inr, ◌⊎◌, Bool-cases,
}
use debianform.Base.Dict.{Dict, insert, lookup, has, lookup-insert, has-insert}
use debianform.Engine.{EngineError}
use debianform.Engine.Order.{ExecutionItem}
use debianform.Engine.Execution.{
  blocked_dependency, Run, split_wave, record_results, run_items, run_execution_wave, run_all,
  run_execution_waves,
}

unfoldable pub item_addresses : List ExecutionItem → List Text
item_addresses [] = []
item_addresses (item ∷ items) = item.address ∷ item_addresses items

-- The addresses of the waves.
unfoldable pub all_addresses : List (List ExecutionItem) → List Text
unfolding item_addresses
all_addresses [] = []
all_addresses (wave ∷ waves) = item_addresses wave ++ all_addresses waves

-- No item depends on an item of its own wave or of a later one, or on an empty text.
abbrev pub IsForward : List (List ExecutionItem) → Type 0
IsForward [] = Unit
IsForward (wave ∷ waves) =
    ((item : ExecutionItem) (d : Text)
      → Among item wave
      → 0 < count d item.depends_on
      → (is_empty d ≡ false) × (count d (item_addresses wave ++ all_addresses waves) ≡ 0))
    × IsForward waves

-- None of the item's dependencies is failed or blocked.
abbrev pub Clear : Dict EngineError → Dict Text → ExecutionItem → Type 0
Clear failed blocked item =
    (d : Text) → 0 < count d item.depends_on → (has d failed ≡ false) × (lookup d blocked ≡ none)

abbrev pub Named : Dict Text → Type 0
Named blocked = (k v : Text) → lookup k blocked ≡ some v → is_empty v ≡ false

blocked_dependency_head :
    (failed : Dict EngineError) (blocked : Dict Text) (d : Text) (deps : List Text)
    → Named blocked
    → is_empty (blocked_dependency (d ∷ deps) failed blocked) ≡ true
    → is_empty d ≡ false
    → (has d failed ≡ false) × (lookup d blocked ≡ none)
unfolding blocked_dependency
blocked_dependency_head failed blocked d deps named h n =
    go (has d failed) refl (lookup d blocked) refl
  where
    go :
        (f : Bool)
        → has d failed ≡ f
        → (b : Option Text) → lookup d blocked ≡ b
        → (has d failed ≡ false) × (lookup d blocked ≡ none)
    go true e b eb = absurd (ground (arith, h, n, e))
    go false e none eb = (e, eb)
    go false e (some by) eb = absurd (ground (arith, h, n, e, eb, named d by eb))

blocked_dependency_tail :
    (failed : Dict EngineError) (blocked : Dict Text) (d e : Text) (deps : List Text)
    → Named blocked
    → is_empty (blocked_dependency (e ∷ deps) failed blocked) ≡ true
    → is_empty e ≡ false
    → is_empty (blocked_dependency deps failed blocked) ≡ true
unfolding blocked_dependency
blocked_dependency_tail failed blocked d e deps named h n =
    let (unfailed, unblocked) = blocked_dependency_head failed blocked e deps named h n in
    ground (arith, h, unfailed, unblocked)

blocked_dependency_clear :
    (failed : Dict EngineError) (blocked : Dict Text) (deps : List Text)
    → Named blocked
    → ((d : Text) → 0 < count d deps → is_empty d ≡ false)
    → is_empty (blocked_dependency deps failed blocked) ≡ true
    → (d : Text) → 0 < count d deps
    → (has d failed ≡ false) × (lookup d blocked ≡ none)
unfolding count
blocked_dependency_clear failed blocked [] named full h d k = absurd (omega arith)
blocked_dependency_clear failed blocked (e ∷ deps) named full h d k =
    let here = full e (ground (arith, text_eq_refl e)) in
    elim (Bool-cases (text_eq e d)) [
      | inl same ↦
          rw (← (text_eq_iff e d).0 same)
            (blocked_dependency_head failed blocked e deps named h here)
      | inr apart ↦
          blocked_dependency_clear failed blocked deps named (λ x i. full x (ground (arith, i)))
            (blocked_dependency_tail failed blocked d e deps named h here) d (ground (arith, apart))
    ]

-- What a wave does before it runs.
pub record Split (failed : Dict EngineError) (wave : List ExecutionItem) (blocked : Dict Text)
    (out : List ExecutionItem × Dict Text) : Type 0 where
  pub named : Named out.1
  pub others : (d : Text) → count d (item_addresses wave) ≡ 0 → lookup d out.1 ≡ lookup d blocked
  pub chosen : (item : ExecutionItem) → Among item out.0 → Among item wave × Clear failed out.1 item
  pub grows : (a : Text) → has a blocked ≡ true → has a out.1 ≡ true
  pub covered :
      (item : ExecutionItem) → Among item wave → Among item out.0 ⊎ (has item.address out.1 ≡ true)
  pub fewer : (a : Text) → count a (item_addresses out.0) ≤ count a (item_addresses wave)

abbrev pub Apart : List ExecutionItem → List Text → Type 0
Apart wave later =
    (item : ExecutionItem) (d : Text)
    → Among item wave
    → 0 < count d item.depends_on
    → (is_empty d ≡ false) × (count d later ≡ 0)

Named-insert :
    (a dep : Text) (blocked : Dict Text)
    → Named blocked
    → is_empty dep ≡ false
    → Named (insert a dep blocked)
Named-insert a dep blocked named full k v h =
    ground (arith, lookup-insert a k dep blocked, h, named k v)

Apart-tail :
    (item : ExecutionItem) (rest : List ExecutionItem)
    → Apart (item ∷ rest) (item_addresses (item ∷ rest))
    → Apart rest (item_addresses rest)
unfolding item_addresses count
Apart-tail item rest apart x d i k =
    ((apart x d (inr i) k).0, ground (arith, (apart x d (inr i) k).1))

Split-keep :
    (failed : Dict EngineError) (item : ExecutionItem) (rest : List ExecutionItem)
    (blocked : Dict Text) (out : List ExecutionItem × Dict Text)
    → Named blocked
    → Apart (item ∷ rest) (item_addresses (item ∷ rest))
    → is_empty (blocked_dependency item.depends_on failed blocked) ≡ true
    → Split failed rest blocked out
    → Split failed (item ∷ rest) blocked (item ∷ out.0, out.1)
unfolding item_addresses count
Split-keep failed item rest blocked out named apart free later =
    let here : Clear failed out.1 item = λ d k.
      let (unfailed, unblocked) =
        blocked_dependency_clear failed blocked item.depends_on named
          (λ x j. (apart item x (inl refl) j).0) free d k in
      (unfailed, later.others d (ground (arith, (apart item d (inl refl) k).1)) ∙ unblocked) in
    record {
      named = later.named;
      others = λ d k. later.others d (ground (arith, k));
      chosen = λ x i. elim i [
        | inl same ↦ (inl same, rw same here)
        | inr among ↦ (inr ((later.chosen x among).0), (later.chosen x among).1)
      ];
      grows = later.grows;
      covered = λ x i. elim i [
        | inl same ↦ inl (inl same)
        | inr among ↦ elim (later.covered x among) [
          | inl runs ↦ inl (inr runs)
          | inr stops ↦ inr stops
        ]
      ];
      fewer = λ a. ground (arith, later.fewer a);
    }

Split-stop :
    (failed : Dict EngineError) (item : ExecutionItem) (rest : List ExecutionItem)
    (blocked : Dict Text) (dep : Text) (out : List ExecutionItem × Dict Text)
    → Split failed rest (insert item.address dep blocked) out
    → Split failed (item ∷ rest) blocked out
unfolding item_addresses count
Split-stop failed item rest blocked dep out later = record {
  named = later.named;
  others = λ d k. ground (
    arith,
    k,
    later.others d,
    lookup-insert item.address d dep blocked,
    text_eq_iff item.address d,
  );
  chosen = λ x i. (inr ((later.chosen x i).0), (later.chosen x i).1);
  grows = λ a h. ground (arith, h, later.grows a, has-insert item.address a dep blocked);
  covered = λ x i. elim i [
    | inl same ↦ inr (
        ground (
          arith,
          same,
          later.grows item.address,
          text_eq_refl item.address,
          has-insert item.address item.address dep blocked,
        ))
    | inr among ↦ later.covered x among
  ];
  fewer = λ a. ground (arith, later.fewer a);
}

pub split_wave-Split :
    (failed : Dict EngineError) (wave : List ExecutionItem) (blocked : Dict Text)
    → Named blocked
    → Apart wave (item_addresses wave)
    → Split failed wave blocked (split_wave failed wave blocked)
unfolding split_wave item_addresses
split_wave-Split failed [] blocked named apart = record {
  named = named;
  others = λ d k. refl;
  chosen = λ item i. absurd i;
  grows = λ a h. h;
  covered = λ item i. absurd i;
  fewer = λ a. omega arith;
}
split_wave-Split failed (item ∷ rest) blocked named apart =
    go (is_empty (blocked_dependency item.depends_on failed blocked)) refl
      (λ b named'. split_wave-Split failed rest b named' (Apart-tail item rest apart))
  where
    go :
        (b : Bool)
        → is_empty (blocked_dependency item.depends_on failed blocked) ≡ b
        → ((blocked' : Dict Text)
            → Named blocked'
            → Split failed rest blocked' (split_wave failed rest blocked'))
        → Split failed (item ∷ rest) blocked (split_wave failed (item ∷ rest) blocked)
    go true e later = rw e (
        Split-keep failed item rest blocked (split_wave failed rest blocked) named apart e
          (later blocked named))
    go false e later =
        let dep = blocked_dependency item.depends_on failed blocked in
        let blocked' = insert item.address dep blocked in
        rw e (
          Split-stop failed item rest blocked dep (split_wave failed rest blocked')
            (later blocked' (Named-insert item.address dep blocked named e)))
