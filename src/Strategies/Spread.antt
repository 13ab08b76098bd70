-- ===== src/Strategies/Spread.antt =====
-- src/strategies.ts: the near-tied best accounts, chosen among by the session's hash.
-- `hash_session`, SHA-256 of node:crypto, is the parameter `hash`.
pub mod Laws
use qlb.Base.{
  ℕ, zero, suc, ◌+◌, ◌%◌, ◌==◌, Bool, true, false, not, ◌&&◌, ◌||◌, Option, none, some, List, [],
  ◌∷◌, map, ℤ, pos, negsuc, ltb_ℤ, max_ℤ, is_pos, ◌≤ℤ◌, pos_part, neg_part, leb, Text, codes,
  text_eq, text_lt, after_first, truthy, if◌then◌else◌, filter, find, sort, length, get_elem?,
  or_else, is_some,
}
use qlb.Types.{BucketReading, AccountSnapshot}
use qlb.Scoring.{
  Strategy, headroom, spread, round_robin, failover, percent, default_ceiling, all_in_ceiling,
  spread_margin, score_account, relevant_buckets, bucket_at,
}
use qlb.Overrides.{round_robin_config_key, failover_config_key}
use qlb.Store.{Store}
use qlb.Store.Config.{get_config, set_config, index_after, next_round_robin_index}
use qlb.Strategies.Pick.{
  CeilingMode, headroom_mode, all_in, Scored, StrategyPick, StrategyContext, not_errored,
  by_account_id, as_pick, reported, find_unique_codex_alias,
}
use qlb.Strategies.Headroom.{pick_headroom_then_all_in}

unfoldable pub scored_positive : List AccountSnapshot → Text → ℕ → List Scored
unfolding not_errored
scored_positive [] model ceiling = []
scored_positive (s ∷ rest) model ceiling =
    let score = score_account s model ceiling in
    let more = scored_positive rest model ceiling in
    if not_errored s && is_pos score then record { snapshot = s; score = score } ∷ more else more

-- `Math.max` of the scores of at least one.
greatest : ℤ → List Scored → ℤ
greatest best [] = best
greatest best (s ∷ rest) = greatest (max_ℤ best s.score) rest

-- `best - score <= SPREAD_MARGIN`.
within_margin : ℤ → Scored → Bool
within_margin best s =
    leb (pos_part best + neg_part s.score) (pos_part s.score + neg_part best + spread_margin)

scored_before : Scored → Scored → Bool
unfolding by_account_id
scored_before a b = by_account_id a.snapshot b.snapshot

-- The near-tied candidates, in the order of their ids.
unfoldable pub near_ties : List Scored → List Scored
unfolding greatest within_margin scored_before
near_ties [] = []
near_ties (s ∷ rest) =
    sort scored_before (filter (within_margin (greatest s.score rest)) (s ∷ rest))

chosen_tie : CeilingMode → ℕ → ℕ → List Scored → Option StrategyPick
unfolding near_ties as_pick
chosen_tie mode ceiling h [] = none
chosen_tie mode ceiling h (s ∷ rest) =
    let tied = near_ties (s ∷ rest) in
    elim (get_elem? tied (h % length tied)) [
      | none ↦ none
      | some chosen ↦ some (as_pick mode ceiling spread chosen)
    ]

first_pick : Option StrategyPick → Option StrategyPick → Option StrategyPick
first_pick (some p) q = some p
first_pick none q = q

unfoldable pub pick_spread :
    (Text → ℕ) → List AccountSnapshot → Text → Option Text → Option StrategyPick
unfolding chosen_tie first_pick scored_positive
pick_spread hash snapshots model none = pick_headroom_then_all_in snapshots model
pick_spread hash snapshots model (some []) = pick_headroom_then_all_in snapshots model
pick_spread hash snapshots model (some (c ∷ session)) =
    let h = hash (c ∷ session) in
    first_pick
      (chosen_tie headroom_mode default_ceiling h (scored_positive snapshots model default_ceiling))
      (chosen_tie all_in all_in_ceiling h (scored_positive snapshots model all_in_ceiling))
