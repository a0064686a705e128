-- ===== src/Engine/Execution/Calls/Waves.antt =====
-- The calls of a whole run: nothing is executed whose dependency failed.
use debianform.Base.{
  Among, Text, ◌<◌, List, [], ◌∷◌, ◌≡◌, Option, none, some, true, count, ◌⊎◌, ◌↔◌, IsDistinct,
}
use debianform.Base.Dict.{Dict, lookup, has}
use debianform.Engine.{EngineError}
use debianform.Engine.Order.{ExecutionItem}
use debianform.Engine.Execution.{Run, refused}
use debianform.Engine.Execution.Blocking.{item_addresses}
use debianform.Engine.Execution.Blocking.Runs.{Holds}
use debianform.Engine.Execution.Calls.{Log, Failing}

-- What is blocked is blocked by an item that is recorded as failed.
abbrev pub ByFailed : Dict EngineError → Dict Text → Type 0
ByFailed failed blocked = (a by : Text) → lookup a blocked ≡ some by → has by failed ≡ true

-- The items of a wave take effect in some order: the same items, each as often.
pub record Rearranges (arrange : List ExecutionItem → List ExecutionItem) : Type 0 where
  pub same :
      (items : List ExecutionItem) (item : ExecutionItem)
      → Among item (arrange items) ↔ Among item items
  pub often :
      (items : List ExecutionItem) (a : Text)
      → count a (item_addresses (arrange items)) ≡ count a (item_addresses items)

-- In no wave do two items have the same address.
abbrev pub DistinctWaves : List (List ExecutionItem) → Type 0
DistinctWaves [] = Unit
DistinctWaves (wave ∷ waves) = IsDistinct (item_addresses wave) × DistinctWaves waves

module _ {S : Type 0} (hosts : List Text) (execute : ExecutionItem → S → S × Option EngineError)
    (arrange : List ExecutionItem → List ExecutionItem) (rearranges : Rearranges arrange) where
  -- Between two waves: what the log says against what the run has recorded.
  record Logs (r : Run (S × Log)) : Type 0 where
    failing :
        (item : ExecutionItem) (e : EngineError)
        → Among (item, some e) r.state.1
        → has item.address r.failed ≡ true
    foreign :
        (item : ExecutionItem)
        → Among item r.started
        → refused hosts item ≡ true
        → has item.address r.failed ≡ true
    started :
        (item : ExecutionItem) (q : Option EngineError)
        → Among (item, q) r.state.1
        → Among item r.started
    called :
        (item : ExecutionItem)
        → Among item r.started
        → ((q : Option EngineError) × Among (item, q) r.state.1) ⊎ (refused hosts item ≡ true)
    failures : (a : Text) → has a r.failed ≡ true → Failing hosts execute r.state.1 a
    blockers : ByFailed r.failed r.blocked

  -- The calls at the end of a run of the waves.
  pub record Respects (waves : List (List ExecutionItem)) (final : Run (S × Log)) : Type 0 where
    pub each :
        (item : ExecutionItem) (wave : List ExecutionItem)
        → Holds wave waves
        → Among item wave
        → ((q : Option EngineError) × Among (item, q) final.state.1)
          ⊎ (refused hosts item ≡ true)
          ⊎ (has item.address final.blocked ≡ true)
    pub safe :
        (item other : ExecutionItem) (q : Option EngineError) (wave : List ExecutionItem)
        → Among (item, q) final.state.1
        → Holds wave waves
        → Among other wave
        → 0 < count other.address item.depends_on
        → Among (other, none) final.state.1
          × ((e : EngineError) → ¬ Among (other, some e) final.state.1)
    pub stopped :
        (a by : Text) → lookup a final.blocked ≡ some by → Failing hosts execute final.state.1 by
