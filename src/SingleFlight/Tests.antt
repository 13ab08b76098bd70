-- ===== src/SingleFlight/Tests.antt =====
-- Single-flight fetches at concrete stores.
use qlb.Base.{ℕ, ◌+◌, ◌≡◌, refl, true, none, some, Option, List, Text, codes, suc, arith, ltb}
use qlb.Types.{BucketReading}
use qlb.Store.{Store}
use qlb.Store.Polls.{
  get_all_snapshots, newest_fetched_at, is_fresh, upsert_all, claim_poll_or_fresh,
}
use qlb.Store.Polls.Tests.{claimed_store, readings_at}
use qlb.SingleFlight.{
  FetchOutcome, Pass, Tick, Passed, single_flight_fetch, pass, hard_timeout_ms, wait_loop,
  default_poll_claim_ttl_ms,
}
use qlb.SingleFlight.Laws.{Ticking, single_flight_fetch-answers}
use qlb.SingleFlight.Coalesced.{single_flight_fetch-fresh}

timeout_8s : hard_timeout_ms default_poll_claim_ttl_ms ≡ 8000
unfolding hard_timeout_ms
timeout_8s = refl

-- `p2` asks at 4, is told `busy`, and finds what `p1` wrote after its first sleep.
abbrev waits : Pass
waits = record {
  me = codes "p2";
  now = 4;
  refused_at = 4;
  meanwhile = λ s. s;
  fetch = some (readings_at 9);
  ticks = λ i. record {
    now = i + 4;
    during = λ s. upsert_all s (codes "a") (readings_at 7);
    looked_at = i + 5;
  };
}

abbrev waits_ticking : Ticking waits.ticks
unfolding Ticking
waits_ticking i = omega arith

abbrev filled : Store
filled = upsert_all claimed_store (codes "a") (readings_at 7)

single_flight_fetch-answers_example :
    (store' : Store) × (outcome : FetchOutcome) × (result : Option (List (Text × BucketReading)))
    × (single_flight_fetch (codes "a") none 10 waits waits claimed_store
        ≡ Passed.answer store' outcome result)
single_flight_fetch-answers_example =
    single_flight_fetch-answers (codes "a") none 10 waits waits claimed_store
      (record { ticking = waits_ticking; starts = omega arith })
      (record { ticking = waits_ticking; starts = omega arith })

waits-coalesced :
    single_flight_fetch (codes "a") none 10 waits waits claimed_store
    ≡ Passed.answer filled FetchOutcome.coalesced (some (get_all_snapshots filled (codes "a")))
unfolding single_flight_fetch pass claim_poll_or_fresh newest_fetched_at get_all_snapshots
    qlb.Store.Config.lookup qlb.Store.Polls.claim_poll qlb.Base.text_eq wait_loop
    qlb.SingleFlight.turns_for qlb.SingleFlight.deadline_of qlb.Store.Polls.get_poll_claim
    upsert_all qlb.Store.Polls.upsert_snapshot qlb.Store.Config.upsert qlb.Store.Polls.upsert_bucket
    qlb.SingleFlight.nonempty
waits-coalesced = refl

single_flight_fetch-fresh_example :
    (some (get_all_snapshots filled (codes "a")) ≡ some (get_all_snapshots filled (codes "a")))
    × (is_fresh (newest_fetched_at (get_all_snapshots filled (codes "a"))) none ≡ true)
single_flight_fetch-fresh_example =
    single_flight_fetch-fresh (codes "a") none 10 waits waits claimed_store filled
      (some (get_all_snapshots filled (codes "a"))) waits-coalesced
