-- ===== src/Strategies/Failover.antt =====
-- src/strategies.ts: the account used last, while its gauges are below 100 %.
pub mod Laws
use qlb.Base.{
  ℕ, zero, suc, ◌+◌, ◌%◌, ◌==◌, Bool, true, false, not, ◌&&◌, ◌||◌, Option, none, some, List, [],
  ◌∷◌, map, ℤ, pos, negsuc, ltb_ℤ, max_ℤ, is_pos, ◌≤ℤ◌, pos_part, neg_part, leb, Text, codes,
  text_eq, text_lt, after_first, truthy, if◌then◌else◌, filter, find, sort, length, get_elem?,
  or_else, is_some,
}
use qlb.Types.{BucketReading, AccountSnapshot}
use qlb.Scoring.{
  Strategy, headroom, spread, round_robin, failover, percent, default_ceiling, all_in_ceiling,
  spread_margin, score_account, relevant_buckets, bucket_at,
}
use qlb.Overrides.{round_robin_config_key, failover_config_key}
use qlb.Store.{Store}
use qlb.Store.Config.{get_config, set_config, index_after, next_round_robin_index}
use qlb.Strategies.Pick.{
  CeilingMode, headroom_mode, all_in, Scored, StrategyPick, StrategyContext, not_errored,
  by_account_id, as_pick, reported, find_unique_codex_alias,
}

-- `bucket.usedPct >= 100`, of a bucket that is there and known.
at_limit : Option BucketReading → Bool
at_limit none = false
at_limit (some bucket) = elim bucket.used_pct [ none ↦ false | some used ↦ leb all_in_ceiling used ]

below_limit : AccountSnapshot → List Text → Bool
unfolding at_limit
below_limit snapshot [] = true
below_limit snapshot (key ∷ rest) =
    not (at_limit (bucket_at snapshot.buckets key)) && below_limit snapshot rest

unfoldable pub has_failover_headroom : AccountSnapshot → Text → Bool
unfolding below_limit
has_failover_headroom snapshot model =
    not (truthy snapshot.error) && below_limit snapshot (relevant_buckets snapshot model)

-- `store?.getConfig(key) ?? null`.
stored : Option Store → Text → Option Text
stored none key = none
stored (some store) key = get_config store key

id_is : Text → AccountSnapshot → Bool
id_is id s = text_eq s.account_id id

-- The eligible account that an alias of the stored id names. `eligible.includes(alias)` compares
-- references; the ids of distinct candidates with the alias' bare id differ, or it is no alias.
alias_among : List AccountSnapshot → Option AccountSnapshot → Option AccountSnapshot
unfolding id_is
alias_among eligible none = none
alias_among eligible (some alias) = find (id_is alias.account_id) eligible

first_some {ℓ} : {A : Type ℓ} → Option A → Option A → Option A
first_some (some a) b = some a
first_some none b = b

-- The account to stick with, if it is still eligible.
unfoldable pub current_account :
    Option Text → List AccountSnapshot → List AccountSnapshot → Option AccountSnapshot
unfolding first_some id_is alias_among
current_account none eligible aliases = none
current_account (some []) eligible aliases = none
current_account (some (c ∷ id)) eligible aliases =
    first_some (find (id_is (c ∷ id)) eligible)
      (alias_among eligible (find_unique_codex_alias (c ∷ id) aliases))

remember : Option Store → Bool → Text → Text → Option Store
remember none persist key id = none
remember (some store) true key id = some (set_config store key id)
remember (some store) false key id = some store

stick_or_move :
    Option AccountSnapshot
    → AccountSnapshot
    → Text
    → Text
    → Option Store
    → Bool
    → Option Store × Option StrategyPick
unfolding remember reported
stick_or_move (some current) first key model store persist =
    (store, some (reported failover current model))
stick_or_move none first key model store persist =
    (remember store persist key first.account_id, some (reported failover first model))

failover_among :
    List AccountSnapshot
    → Text
    → Option Store
    → Bool
    → List AccountSnapshot
    → Option Store × Option StrategyPick
unfolding stick_or_move stored
failover_among [] model store persist aliases = (store, none)
failover_among (first ∷ rest) model store persist aliases =
    let key = failover_config_key first.provider in
    stick_or_move (current_account (stored store key) (first ∷ rest) aliases) first key model store
      persist

unfoldable pub pick_failover :
    List AccountSnapshot
    → Text
    → Option Store
    → Bool
    → List AccountSnapshot
    → Option Store × Option StrategyPick
unfolding failover_among by_account_id has_failover_headroom
pick_failover snapshots model store persist aliases =
    failover_among (sort by_account_id (filter (λ s. has_failover_headroom s model) snapshots))
      model store persist aliases
