-- ===== src/Strategies.antt =====
-- src/strategies.ts: which of a model's candidates serves a request. A pick that may write the
-- rotation counter or the sticky account takes the store and returns it. `hash_session`, SHA-256
-- of node:crypto, is the parameter `hash`.
mod Pick
pub mod Headroom
pub mod Spread
pub mod RoundRobin
pub mod Failover
pub mod Laws
pub mod Usable
pub mod Quiet
pub mod Tests
use qlb.Base.{
  ℕ, zero, suc, ◌+◌, ◌%◌, ◌==◌, Bool, true, false, not, ◌&&◌, ◌||◌, Option, none, some, List, [],
  ◌∷◌, map, ℤ, pos, negsuc, ltb_ℤ, max_ℤ, is_pos, ◌≤ℤ◌, pos_part, neg_part, leb, Text, codes,
  text_eq, text_lt, after_first, truthy, if◌then◌else◌, filter, find, sort, length, get_elem?,
  or_else, is_some,
}
use qlb.Types.{BucketReading, AccountSnapshot}
use qlb.Scoring.{
  Strategy, headroom, spread, round_robin, failover, percent, default_ceiling, all_in_ceiling,
  spread_margin, score_account, relevant_buckets, bucket_at,
}
use qlb.Overrides.{round_robin_config_key, failover_config_key}
use qlb.Store.{Store}
use qlb.Store.Config.{get_config, set_config, index_after, next_round_robin_index}
unfoldable pub use Pick.*
use qlb.Strategies.Headroom.{pick_headroom_then_all_in}
use qlb.Strategies.Spread.{pick_spread}
use qlb.Strategies.RoundRobin.{pick_round_robin}
use qlb.Strategies.Failover.{pick_failover}

unfoldable pub pick_with_strategy :
    (Text → ℕ) → Strategy → StrategyContext → Option Store → Option Store × Option StrategyPick
pick_with_strategy hash headroom ctx store =
    (store, pick_headroom_then_all_in ctx.snapshots ctx.model)
pick_with_strategy hash spread ctx store =
    (store, pick_spread hash ctx.snapshots ctx.model ctx.session)
pick_with_strategy hash round_robin ctx store =
    pick_round_robin ctx.snapshots ctx.model store ctx.persist
pick_with_strategy hash failover ctx store =
    pick_failover ctx.snapshots ctx.model store ctx.persist
      (or_else ctx.alias_snapshots ctx.snapshots)

unfoldable pub contains : List Text → Text → Bool
contains [] id = false
contains (x ∷ xs) id = text_eq x id || contains xs id

unfoldable pub is_drained : List Text → AccountSnapshot → Bool
unfolding contains
is_drained ids s = contains ids s.account_id

-- What follows the attempt on the accounts to drain: its pick, or a pick among the rest.
pick_after :
    (Text → ℕ)
    → Strategy
    → StrategyContext
    → Option Store × Option StrategyPick
    → Option Store × Option StrategyPick
pick_after hash strategy rest (store, some picked) = (store, some picked)
pick_after hash strategy rest (store, none) = pick_with_strategy hash strategy rest store

drain_then_rest :
    (Text → ℕ)
    → Strategy
    → StrategyContext
    → List AccountSnapshot
    → List AccountSnapshot
    → Option Store
    → Option Store × Option StrategyPick
unfolding pick_after
drain_then_rest hash strategy ctx [] rest store =
    pick_with_strategy hash strategy (record ctx { snapshots = rest }) store
drain_then_rest hash strategy ctx (d ∷ drain) rest store =
    pick_after hash strategy (record ctx { snapshots = rest })
      (pick_with_strategy hash strategy (record ctx { snapshots = d ∷ drain }) store)

pick_filtered :
    (Text → ℕ)
    → Strategy
    → StrategyContext
    → List Text
    → List AccountSnapshot
    → Option Store
    → Option Store × Option StrategyPick
unfolding drain_then_rest is_drained
pick_filtered hash strategy ctx [] filtered store =
    pick_with_strategy hash strategy (record ctx { snapshots = filtered }) store
pick_filtered hash strategy ctx (d ∷ ids) filtered store =
    drain_then_rest hash strategy ctx (filter (is_drained (d ∷ ids)) filtered)
      (filter (λ s. not (is_drained (d ∷ ids) s)) filtered) store

-- The aliases are judged over all candidates.
unfoldable pub pick_account :
    (Text → ℕ) → Strategy → StrategyContext → Option Store → Option Store × Option StrategyPick
unfolding pick_filtered not_errored
pick_account hash strategy input store =
    let aliases = or_else input.alias_snapshots input.snapshots in
    let ctx = record input { alias_snapshots = some aliases } in
    pick_filtered hash strategy ctx input.drain_first_ids (filter not_errored input.snapshots) store
