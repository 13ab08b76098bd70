-- ===== src/Strategies/Tests.antt =====
-- Three Claude accounts, and the theorems on the strategies at them.
use qlb.Base.{
  ℕ, ◌<◌, ◌≡◌, ◌≢◌, ◌↔◌, ◌⊎◌, inr, refl, true, false, none, some, List, [], ◌∷◌, Memᴰ, Text, codes,
  All, filter, pos, arith, length, ◌*◌, text_lt, text_eq,
}
use qlb.Types.{AccountSnapshot, authoritative, advisory}
use qlb.Scoring.{
  headroom, spread, round_robin, failover, default_ceiling, score_account, relevant_buckets,
  bucket_class, bucket_at, bucket_term, reading_term, percent,
}
use qlb.Scoring.Tests.{gauge, claude}
use qlb.Overrides.{failover_config_key}
use qlb.Store.{Store}
use qlb.Store.Config.{get_config, set_config, get-set_config, index_after}
use qlb.Store.Tests.{empty_store}
use qlb.Strategies.{
  StrategyContext, Scored, headroom_mode, pick_account, pick_with_strategy, is_drained, not_errored,
  reported, as_pick, by_account_id,
}
use qlb.Strategies.Headroom.{best_of, pick_headroom_then_all_in, is_fully_exhausted}
use qlb.Strategies.Headroom.Best.{is_candidate, Bested, IsBest, best_of-IsBest, best_of-first}
use qlb.Strategies.Headroom.Exhausted.{IsPick, LastResort, pick_headroom_then_all_in-IsPick}
use qlb.Strategies.Spread.{pick_spread}
use qlb.Strategies.Spread.Laws.{WithinMargin, pick_spread-IsPick}
use qlb.Strategies.RoundRobin.{pick_round_robin}
use qlb.Strategies.RoundRobin.Laws.{rotating}
use qlb.Strategies.RoundRobin.Turns.{after_picks, round_robin_fair}
use qlb.Strategies.Failover.{pick_failover, has_failover_headroom, current_account}
use qlb.Strategies.Failover.Laws.{
  eligible, pick_failover-stays, pick_failover-remembers, has_failover_headroom-at_limit,
}
use qlb.Strategies.Laws.{Barred, pick_account-none_iff, pick_account-drains_first}

abbrev pub sonnet : Text
sonnet = codes "claude-sonnet-5"

abbrev pub one : AccountSnapshot
one = claude (codes "a") ((codes "5h", gauge authoritative 50) ∷ [])

abbrev pub two : AccountSnapshot
two = claude (codes "b") ((codes "5h", gauge authoritative 20) ∷ [])

abbrev pub full : AccountSnapshot
full = claude (codes "c") ((codes "5h", gauge advisory 100) ∷ [])

abbrev three : List AccountSnapshot
three = one ∷ two ∷ full ∷ []

abbrev best_two : Scored
best_two = record { snapshot = two; score = pos (60 * percent) }

two_wins : best_of three sonnet default_ceiling ≡ some best_two
unfolding best_of score_account relevant_buckets bucket_class bucket_at bucket_term reading_term
two_wins = refl

best_of-IsBest_example : IsBest sonnet default_ceiling three best_two
best_of-IsBest_example = best_of-IsBest three sonnet default_ceiling two_wins

two_picked :
    pick_headroom_then_all_in three sonnet
    ≡ some (as_pick headroom_mode default_ceiling headroom best_two)
unfolding pick_headroom_then_all_in score_account relevant_buckets bucket_class bucket_at
    bucket_term reading_term
two_picked = refl

pick_headroom_then_all_in-IsPick_example :
    IsPick sonnet three (as_pick headroom_mode default_ceiling headroom best_two)
    × LastResort sonnet three headroom_mode
    × All (Bested sonnet default_ceiling (pos (60 * percent))) three
unfolding as_pick
pick_headroom_then_all_in-IsPick_example = pick_headroom_then_all_in-IsPick three sonnet two_picked

two_candidate : is_candidate sonnet default_ceiling two ≡ true
unfolding not_errored score_account relevant_buckets bucket_class bucket_at bucket_term reading_term
two_candidate = refl

one-Bested :
    All (Bested sonnet default_ceiling (score_account two sonnet default_ceiling)) (one ∷ [])
unfolding score_account relevant_buckets bucket_class bucket_at bucket_term reading_term
one-Bested = (inr (omega arith), tt)

best_of-first_example :
    best_of (two ∷ one ∷ []) sonnet default_ceiling
    ≡ some (record { snapshot = two; score = score_account two sonnet default_ceiling })
best_of-first_example = best_of-first two (one ∷ []) sonnet default_ceiling two_candidate one-Bested

two_spread :
    pick_spread length three sonnet (some (codes "s1"))
    ≡ some (as_pick headroom_mode default_ceiling spread best_two)
unfolding pick_spread score_account relevant_buckets bucket_class bucket_at bucket_term reading_term
    by_account_id
two_spread = refl

pick_spread-IsPick_example :
    IsPick sonnet three (as_pick headroom_mode default_ceiling spread best_two)
    × All (WithinMargin sonnet default_ceiling (pos (60 * percent))) three
unfolding as_pick
pick_spread-IsPick_example = pick_spread-IsPick length three sonnet b's' (codes "1") two_spread

rotating-three : rotating three sonnet ≡ one ∷ two ∷ full ∷ []
unfolding is_fully_exhausted score_account relevant_buckets bucket_class bucket_at bucket_term
    reading_term by_account_id text_lt
rotating-three = refl

two_of_three : Memᴰ two three
two_of_three = Memᴰ.tail (Memᴰ.head refl)

two_in_ring : Memᴰ two (one ∷ two ∷ [])
two_in_ring = Memᴰ.tail (Memᴰ.head refl)

round_robin_fair_example :
    (k : ℕ) × (k < length three)
    × ((pick_round_robin three sonnet (after_picks k three sonnet (some empty_store)) true).1
        ≡ some (reported round_robin two sonnet))
unfolding index_after get_config
round_robin_fair_example =
    round_robin_fair three sonnet one (two ∷ full ∷ []) 0 (some empty_store) two rotating-three
      (omega arith) refl two_of_three

abbrev sticky : Store
sticky = set_config empty_store (failover_config_key (codes "anthropic")) (codes "b")

eligible_both : eligible three sonnet ≡ one ∷ two ∷ []
unfolding has_failover_headroom relevant_buckets bucket_at by_account_id text_lt
eligible_both = refl

b_ne : codes "b" ≢ []
b_ne e = cc

pick_failover-stays_test :
    (b : AccountSnapshot) × (b.account_id ≡ codes "b")
    × (pick_failover three sonnet (some sticky) true []
        ≡ (some sticky, some (reported failover b sonnet)))
pick_failover-stays_test =
    pick_failover-stays three sonnet sticky true [] one (two ∷ []) (codes "b") two eligible_both
      (get-set_config empty_store (failover_config_key (codes "anthropic")) (codes "b")) b_ne
      two_in_ring refl

nobody_kept :
    current_account
      (get_config empty_store (failover_config_key (codes "anthropic")))
      (one ∷ two ∷ [])
      []
    ≡ none
unfolding get_config current_account
nobody_kept = refl

a_ne : codes "a" ≢ []
a_ne e = cc

pick_failover-remembers_test :
    let st' = set_config empty_store (failover_config_key (codes "anthropic")) (codes "a") in
    (pick_failover three sonnet (some empty_store) true []
      ≡ (some st', some (reported failover one sonnet)))
    × (b : AccountSnapshot) × (b.account_id ≡ codes "a")
    × (pick_failover three sonnet (some st') true []
        ≡ (some st', some (reported failover b sonnet)))
pick_failover-remembers_test =
    pick_failover-remembers three sonnet empty_store [] one (two ∷ []) eligible_both nobody_kept
      a_ne

five_h_listed : Memᴰ (codes "5h") (relevant_buckets full sonnet)
unfolding relevant_buckets
five_h_listed = Memᴰ.head refl

has_failover_headroom-at_limit_example : has_failover_headroom full sonnet ≡ false
unfolding bucket_at text_eq
has_failover_headroom-at_limit_example =
    has_failover_headroom-at_limit full sonnet (codes "5h") (gauge advisory 100) (100 * percent)
      five_h_listed refl refl (omega arith)

abbrev pub input : StrategyContext
input = record {
  snapshots = three;
  model = sonnet;
  session = none;
  drain_first_ids = codes "a" ∷ [];
  persist = true;
  alias_snapshots = none;
}

pick_account-none_iff_example :
    ((pick_account length round_robin input (some empty_store)).1 ≡ none)
    ↔ All (Barred round_robin sonnet) three
pick_account-none_iff_example = pick_account-none_iff length round_robin input (some empty_store)

abbrev best_one : Scored
best_one = record { snapshot = one; score = pos (30 * percent) }

one_drained :
    (pick_account length headroom input none).1
    ≡ some (as_pick headroom_mode default_ceiling headroom best_one)
unfolding pick_account pick_headroom_then_all_in score_account relevant_buckets bucket_class
    bucket_at bucket_term reading_term pick_with_strategy
one_drained = refl

pick_account-drains_first_example :
    Memᴰ one three
    × (not_errored one ≡ true)
    × ((is_drained (codes "a" ∷ []) one ≡ true)
        ⊎ All
            (Barred headroom sonnet)
            (filter (is_drained (codes "a" ∷ [])) (filter not_errored three)))
unfolding as_pick
pick_account-drains_first_example = pick_account-drains_first length headroom input none one_drained
