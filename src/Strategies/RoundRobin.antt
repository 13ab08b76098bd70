-- ===== src/Strategies/RoundRobin.antt =====
-- src/strategies.ts: the accounts that are left, in the order of their ids, by a stored counter.
pub mod Laws
pub mod Turns
use qlb.Base.{
  ℕ, zero, suc, ◌+◌, ◌%◌, ◌==◌, Bool, true, false, not, ◌&&◌, ◌||◌, Option, none, some, List, [],
  ◌∷◌, map, ℤ, pos, negsuc, ltb_ℤ, max_ℤ, is_pos, ◌≤ℤ◌, pos_part, neg_part, leb, Text, codes,
  text_eq, text_lt, after_first, truthy, if◌then◌else◌, filter, find, sort, length, get_elem?,
  or_else, is_some,
}
use qlb.Types.{BucketReading, AccountSnapshot}
use qlb.Scoring.{
  Strategy, headroom, spread, round_robin, failover, percent, default_ceiling, all_in_ceiling,
  spread_margin, score_account, relevant_buckets, bucket_at,
}
use qlb.Overrides.{round_robin_config_key, failover_config_key}
use qlb.Store.{Store}
use qlb.Store.Config.{get_config, set_config, index_after, next_round_robin_index}
use qlb.Strategies.Pick.{
  CeilingMode, headroom_mode, all_in, Scored, StrategyPick, StrategyContext, not_errored,
  by_account_id, as_pick, reported, find_unique_codex_alias,
}
use qlb.Strategies.Headroom.{is_fully_exhausted}

-- `eligible[idx] ?? eligible[0]`.
at_or_first : AccountSnapshot → List AccountSnapshot → ℤ → AccountSnapshot
at_or_first first rest (pos i) = or_else (get_elem? (first ∷ rest) i) first
at_or_first first rest (negsuc i) = first

-- The index, and the store after the counter has moved (or been peeked at).
rotate : Option Store → Bool → Text → ℕ → Option Store × ℤ
rotate none persist key count = (none, pos 0)
rotate (some store) true key count =
    let (store', i) = next_round_robin_index store key count in (some store', i)
rotate (some store) false key count = (some store, index_after (get_config store key) count)

round_robin_among :
    List AccountSnapshot → Text → Option Store → Bool → Option Store × Option StrategyPick
unfolding rotate at_or_first reported
round_robin_among [] model store persist = (store, none)
round_robin_among (first ∷ rest) model store persist =
    let (store', i) =
      rotate store persist (round_robin_config_key first.provider) (length (first ∷ rest)) in
    (store', some (reported round_robin (at_or_first first rest i) model))

unfoldable pub pick_round_robin :
    List AccountSnapshot → Text → Option Store → Bool → Option Store × Option StrategyPick
unfolding round_robin_among by_account_id is_fully_exhausted
pick_round_robin snapshots model store persist =
    round_robin_among
      (sort by_account_id (filter (λ s. not (is_fully_exhausted s model)) snapshots)) model store
      persist
