-- ===== src/Strategies/Headroom.antt =====
-- src/strategies.ts: the best score below the default ceiling, else below 100 %.
pub mod Best
pub mod Exhausted
use qlb.Base.{
  ℕ, zero, suc, ◌+◌, ◌%◌, ◌==◌, Bool, true, false, not, ◌&&◌, ◌||◌, Option, none, some, List, [],
  ◌∷◌, map, ℤ, pos, negsuc, ltb_ℤ, max_ℤ, is_pos, ◌≤ℤ◌, pos_part, neg_part, leb, Text, codes,
  text_eq, text_lt, after_first, truthy, if◌then◌else◌, filter, find, sort, length, get_elem?,
  or_else, is_some,
}
use qlb.Types.{BucketReading, AccountSnapshot}
use qlb.Scoring.{
  Strategy, headroom, spread, round_robin, failover, percent, default_ceiling, all_in_ceiling,
  spread_margin, score_account, relevant_buckets, bucket_at,
}
use qlb.Overrides.{round_robin_config_key, failover_config_key}
use qlb.Store.{Store}
use qlb.Store.Config.{get_config, set_config, index_after, next_round_robin_index}
use qlb.Strategies.Pick.{
  CeilingMode, headroom_mode, all_in, Scored, StrategyPick, StrategyContext, not_errored,
  by_account_id, as_pick, reported, find_unique_codex_alias,
}

-- `best === null || score > best.score`.
beats : Option Scored → ℤ → Bool
beats none score = true
beats (some best) score = ltb_ℤ best.score score

-- One pass of the loop of `bestOf`.
better : Text → ℕ → Option Scored → AccountSnapshot → Option Scored
unfolding not_errored beats
better model ceiling best snapshot =
    let score = score_account snapshot model ceiling in
    if not_errored snapshot && is_pos score && beats best score
    then some (record { snapshot = snapshot; score = score })
    else best

best_loop : Text → ℕ → Option Scored → List AccountSnapshot → Option Scored
unfolding better
best_loop model ceiling best [] = best
best_loop model ceiling best (s ∷ rest) = best_loop model ceiling (better model ceiling best s) rest

unfoldable pub best_of : List AccountSnapshot → Text → ℕ → Option Scored
unfolding best_loop
best_of snapshots model ceiling = best_loop model ceiling none snapshots

headroom_or_all_in : Option Scored → Option Scored → Option StrategyPick
unfolding as_pick
headroom_or_all_in (some best) all_in_best =
    some (as_pick headroom_mode default_ceiling headroom best)
headroom_or_all_in none (some best) = some (as_pick all_in all_in_ceiling headroom best)
headroom_or_all_in none none = none

-- `pickHeadroomThenAllIn`, with the strategy that its callers add.
unfoldable pub pick_headroom_then_all_in : List AccountSnapshot → Text → Option StrategyPick
unfolding headroom_or_all_in best_of
pick_headroom_then_all_in snapshots model =
    headroom_or_all_in (best_of snapshots model default_ceiling)
      (best_of snapshots model all_in_ceiling)

unfoldable pub is_fully_exhausted : AccountSnapshot → Text → Bool
is_fully_exhausted snapshot model =
    truthy snapshot.error || not (is_pos (score_account snapshot model all_in_ceiling))
