-- ===== src/Engine/Execution/Calls.antt =====
-- What the execution of the items returned, and which items were executed after it.
pub mod Waves
use debianform.Base.{
  Among, Among-append, Among-left, Among-right, Text, ◌<◌, ◌≤◌, List, [], ◌∷◌, ◌++◌, ◌≡◌, ◌∙◌, ap,
  refl, arith, Option, none, some, Bool, true, false, text_eq, text_eq_iff, text_eq_refl, count,
  inl, inr, ◌⊎◌, Bool-cases, IsDistinct,
}
use debianform.Base.Dict.{Dict, insert, lookup, has, has-insert, lookup-insert}
use debianform.Engine.{EngineError, unknown_host}
use debianform.Engine.Order.{ExecutionItem}
use debianform.Engine.Execution.{refused, run_item, run_items, record_results}
use debianform.Engine.Execution.Blocking.{item_addresses}

-- The calls of executeItem with what they returned, the oldest first.
abbrev pub Log : Type 0
Log = List (ExecutionItem × Option EngineError)

module _ {S : Type 0} (hosts : List Text)
    (execute : ExecutionItem → S → S × Option EngineError) where
  -- The execution of an item that also writes down its call.
  abbrev pub logged : ExecutionItem → S × Log → (S × Log) × Option EngineError
  logged item (s, log) =
      let (s', result) = execute item s in ((s', log ++ (item, result) ∷ []), result)

  -- An item with the address names an unknown host, or its execution returned an error.
  abbrev pub Failing : Log → Text → Type 0
  Failing log a =
      (item : ExecutionItem) × (item.address ≡ a)
      × ((refused hosts item ≡ true) ⊎ ((e : EngineError) × Among (item, some e) log))

  -- What the items of a wave leave in the log and among the results.
  pub record Ran (items : List ExecutionItem) (log log' : Log)
      (results results' : Dict (Option EngineError)) : Type 0 where
    pub grows :
        (item : ExecutionItem) (r : Option EngineError) → Among (item, r) log → Among (item, r) log'
    pub each :
        (item : ExecutionItem)
        → Among item items
        → ((r : Option EngineError) × Among (item, r) log') ⊎ (refused hosts item ≡ true)
    pub known :
        (item : ExecutionItem) (r : Option EngineError)
        → Among (item, r) log'
        → Among (item, r) log ⊎ (Among item items × (lookup item.address results' ≡ some r))
    pub foreign :
        (item : ExecutionItem)
        → Among item items
        → refused hosts item ≡ true
        → (e : EngineError) × (lookup item.address results' ≡ some (some e))
    pub apart :
        (a : Text) → count a (item_addresses items) ≡ 0 → lookup a results' ≡ lookup a results
    pub source :
        (a : Text) (e : EngineError)
        → lookup a results' ≡ some (some e)
        → (lookup a results ≡ some (some e)) ⊎ Failing log' a

  -- The goroutine of an item refuses it or calls executeItem.
  run_item-cases :
      (item : ExecutionItem) (s : S) (log : Log)
      → ((refused hosts item ≡ true)
          × (run_item hosts logged item (s, log)
              ≡ ((s, log), some (unknown_host item.address item.host))))
        ⊎ ((refused hosts item ≡ false)
            × (run_item hosts logged item (s, log) ≡ (
              ((execute item s).0, log ++ (item, (execute item s).1) ∷ []),
              (execute item s).1,
            )))
  unfolding run_item
  run_item-cases item s log = elim (Bool-cases (refused hosts item)) [
    | inl e ↦ inl (e, rw (e, run_item) refl)
    | inr e ↦ inr (e, rw (e, run_item) refl)
  ]

  distinct_head :
      (item : ExecutionItem) (items : List ExecutionItem)
      → IsDistinct (item_addresses (item ∷ items))
      → count item.address (item_addresses items) ≡ 0
  unfolding item_addresses count
  distinct_head item items distinct =
      ground (arith, distinct item.address, text_eq_refl item.address)

  IsDistinct-tail :
      (item : ExecutionItem) (items : List ExecutionItem)
      → IsDistinct (item_addresses (item ∷ items))
      → IsDistinct (item_addresses items)
  unfolding item_addresses count
  IsDistinct-tail item items distinct a = ground (arith, distinct a)

  apart-cons :
      (item : ExecutionItem) (items : List ExecutionItem) (r : Option EngineError)
      (results results' : Dict (Option EngineError))
      → ((a : Text)
          → count a (item_addresses items) ≡ 0
          → lookup a results' ≡ lookup a (insert item.address r results))
      → (a : Text) → count a (item_addresses (item ∷ items)) ≡ 0
      → lookup a results' ≡ lookup a results
  unfolding item_addresses count
  apart-cons item items r results results' later a h =
      ground (arith, h, later a, lookup-insert item.address a r results, text_eq_iff item.address a)

  -- The result of the first item is still there at the end.
  result_of :
      (item : ExecutionItem) (items : List ExecutionItem) (r : Option EngineError)
      (results results' : Dict (Option EngineError))
      → IsDistinct (item_addresses (item ∷ items))
      → ((a : Text)
          → count a (item_addresses items) ≡ 0
          → lookup a results' ≡ lookup a (insert item.address r results))
      → lookup item.address results' ≡ some r
  result_of item items r results results' distinct later =
      later item.address (distinct_head item items distinct)
      ∙ ground (arith, lookup-insert item.address item.address r results, text_eq_refl item.address)

  Ran-refused :
      (item : ExecutionItem) (items : List ExecutionItem) (e : EngineError) (log log' : Log)
      (results results' : Dict (Option EngineError))
      → IsDistinct (item_addresses (item ∷ items))
      → refused hosts item ≡ true
      → Ran items log log' (insert item.address (some e) results) results'
      → Ran (item ∷ items) log log' results results'
  Ran-refused item items e log log' results results' distinct foreign later = record {
    grows = later.grows;
    each = λ x i. elim i [ inl same ↦ inr (rw same foreign) | inr i' ↦ later.each x i' ];
    known = λ x r i. elim (later.known x r i) [
      | inl old ↦ inl old
      | inr (here, found) ↦ inr (inr here, found)
    ];
    foreign = λ x i f. elim i [
      | inl same ↦
          (e, rw same (result_of item items (some e) results results' distinct later.apart))
      | inr i' ↦ later.foreign x i' f
    ];
    apart = apart-cons item items (some e) results results' later.apart;
    source = λ a x h. elim (later.source a x h) [
      | inr failing ↦ inr failing
      | inl before ↦ elim (Bool-cases (text_eq item.address a)) [
        | inl here ↦ inr (item, (text_eq_iff item.address a).0 here, inl foreign)
        | inr other ↦
            inl (ground (arith, before, other, lookup-insert item.address a (some e) results))
      ]
    ];
  }

  Ran-called :
      (item : ExecutionItem) (items : List ExecutionItem) (r : Option EngineError) (log log' : Log)
      (results results' : Dict (Option EngineError))
      → IsDistinct (item_addresses (item ∷ items))
      → refused hosts item ≡ false
      → Ran items (log ++ (item, r) ∷ []) log' (insert item.address r results) results'
      → Ran (item ∷ items) log log' results results'
  Ran-called item items r log log' results results' distinct own later =
      let found = result_of item items r results results' distinct later.apart in
      record {
        grows = λ x q i. later.grows x q (Among-left (x, q) log ((item, r) ∷ []) i);
        each = λ x i. elim i [
          | inl same ↦ inl (
            r,
            later.grows x r (
                Among-right (x, r) log ((item, r) ∷ [])
                  (inl (ap (λ (y : ExecutionItem). (y, r)) same))),
          )
          | inr i' ↦ later.each x i'
        ];
        known = λ x q i. elim (later.known x q i) [
          | inr (here, there) ↦ inr (inr here, there)
          | inl before ↦ elim (Among-append (x, q) log ((item, r) ∷ []) before) [
            | inl old ↦ inl old
            | inr new ↦ elim new [
              | inr none_left ↦ absurd none_left
              | inl same ↦
                  let this : x ≡ item = ap (λ (p : ExecutionItem × Option EngineError). p.0) same in
                  let result : q ≡ r = ap (λ (p : ExecutionItem × Option EngineError). p.1) same in
                  inr (inl this, rw (this, result) found)
            ]
          ]
        ];
        foreign = λ x i f. elim i [
          | inl same ↦ absurd (ground (arith, rw same at f, own))
          | inr i' ↦ later.foreign x i' f
        ];
        apart = apart-cons item items r results results' later.apart;
        source = λ a x h. elim (later.source a x h) [
          | inr failing ↦ inr failing
          | inl before ↦ elim (Bool-cases (text_eq item.address a)) [
            | inl here ↦
                let result : r ≡ some x =
                  ground (arith, before, here, lookup-insert item.address a r results) in
                let logged_here : Among (item, r) log' =
                  later.grows item r (Among-right (item, r) log ((item, r) ∷ []) (inl refl)) in
                inr (item, (text_eq_iff item.address a).0 here, inr (x, rw result at logged_here))
            | inr other ↦
                inl (ground (arith, before, other, lookup-insert item.address a r results))
          ]
        ];
      }

  pub run_items-Ran :
      (arrange : List ExecutionItem → List ExecutionItem) (items : List ExecutionItem) (s : S)
      (log : Log) (results : Dict (Option EngineError))
      → IsDistinct (item_addresses items)
      → Ran items log
          (run_items hosts logged arrange items (s, log) results).0.1
          results
          (run_items hosts logged arrange items (s, log) results).1
  unfolding run_items
  run_items-Ran arrange [] s log results distinct = record {
    grows = λ x r i. i;
    each = λ x i. absurd i;
    known = λ x r i. inl i;
    foreign = λ x i f. absurd i;
    apart = λ a h. refl;
    source = λ a e h. inl h;
  }
  run_items-Ran arrange (item ∷ items) s log results distinct =
      let rest = IsDistinct-tail item items distinct in
      elim (run_item-cases item s log) [
        | inl (foreign, out) ↦
            let e = unknown_host item.address item.host in
            rw (out, run_items)
              (Ran-refused item items e log _ results _ distinct foreign
                (run_items-Ran arrange items s log (insert item.address (some e) results) rest))
        | inr (own, out) ↦
            let r = (execute item s).1 in
            rw (out, run_items)
              (Ran-called item items r log _ results _ distinct own (
                run_items-Ran arrange items (execute item s).0 (log ++ (item, r) ∷ [])
                  (insert item.address r results) rest))
      ]

-- What was recorded as failed stays, and an item whose result is an error is recorded.
pub has-record_results_grows :
    (a : Text) (items : List ExecutionItem) (results : Dict (Option EngineError))
    (failed : Dict EngineError) (first : Option EngineError)
    → has a failed ≡ true
    → has a (record_results items results failed first).0 ≡ true
unfolding record_results
has-record_results_grows a [] results failed first h = h
has-record_results_grows a (item ∷ items) results failed first h =
    has-record_results_grows a items results _ _ (go (lookup item.address results))
  where
    go :
        (o : Option (Option EngineError))
        → has a (elim (elim o as (λ _. Option EngineError) [ some r ↦ r | none ↦ none ]) [
          | some e ↦ insert item.address e failed
          | none ↦ failed
        ])
          ≡ true
    go none = h
    go (some none) = h
    go (some (some e)) = ground (arith, h, has-insert item.address a e failed)

pub has-record_results_error :
    (item : ExecutionItem) (items : List ExecutionItem) (results : Dict (Option EngineError))
    (failed : Dict EngineError) (first : Option EngineError) (e : EngineError)
    → Among item items
    → lookup item.address results ≡ some (some e)
    → has item.address (record_results items results failed first).0 ≡ true
unfolding record_results
has-record_results_error item [] results failed first e i h = absurd i
has-record_results_error item (other ∷ items) results failed first e (inr i) h =
    has-record_results_error item items results _ _ e i h
has-record_results_error item (other ∷ items) results failed first e (inl same) h =
    let found : lookup other.address results ≡ some (some e) = rw same at h in
    rw (same, found, record_results)
      (has-record_results_grows other.address items results _ _ (
        ground
          (arith, has-insert other.address other.address e failed, text_eq_refl other.address)))

-- Only errors among the results are recorded as failed.
pub has-record_results_source :
    (a : Text) (items : List ExecutionItem) (results : Dict (Option EngineError))
    (failed : Dict EngineError) (first : Option EngineError)
    → has a (record_results items results failed first).0 ≡ true
    → (has a failed ≡ true) ⊎ ((e : EngineError) × (lookup a results ≡ some (some e)))
unfolding record_results
has-record_results_source a [] results failed first h = inl h
has-record_results_source a (item ∷ items) results failed first h =
    go (lookup item.address results) refl
      (λ f first'. has-record_results_source a items results f first')
  where
    go :
        (o : Option (Option EngineError))
        → lookup item.address results ≡ o
        → ((f : Dict EngineError) (first' : Option EngineError)
            → has a (record_results items results f first').0 ≡ true
            → (has a f ≡ true) ⊎ ((e : EngineError) × (lookup a results ≡ some (some e))))
        → (has a failed ≡ true) ⊎ ((e : EngineError) × (lookup a results ≡ some (some e)))
    go none e later = later failed first (rw (e, record_results) at h)
    go (some none) e later = later failed first (rw (e, record_results) at h)
    go (some (some x)) e later =
        elim (later (insert item.address x failed) _ (rw (e, record_results) at h)) [
          | inr found ↦ inr found
          | inl there ↦ elim (Bool-cases (text_eq item.address a)) [
            | inl here ↦ inr (x, rw (← (text_eq_iff item.address a).0 here) e)
            | inr other ↦ inl (ground (arith, there, other, has-insert item.address a x failed))
          ]
        ]
