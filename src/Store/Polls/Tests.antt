-- ===== src/Store/Polls/Tests.antt =====
-- Claims on polling at concrete stores.
use mathlib.Core.Bool.{false≢true}
use qlb.Base.{
  ℕ, ◌<◌, ◌≡◌, ◌≢◌, ◌⊎◌, refl, true, false, none, some, List, [], ◌∷◌, Text, codes, text_eq,
  text_eq_iff,
}
use qlb.Types.{BucketReading, Source, Confidence}
use qlb.Store.{Store, PollClaimRow}
use qlb.Store.Tests.{empty_store}
use qlb.Store.Polls.{
  claim_poll, get_poll_claim, complete_poll, get_snapshot, newest_fetched_at, upsert_bucket, shows,
  upsert_all,
}
use qlb.Store.Polls.Laws.{
  Free, claim_of, claim_poll-cases, complete_poll-cases, complete_poll-taken_over,
}
use qlb.Store.Polls.Readings.{Newer}
use qlb.Store.Polls.Actions.{Action, act, run, LockStep}
use qlb.Store.Polls.Unique.{Unique}
use qlb.Store.Polls.Steps.{act-LockStep}
use qlb.Store.Polls.Newest.{run-Newer}

abbrev pub fetched_at : ℕ → BucketReading
fetched_at at = record {
  used_pct = some 0;
  used = none;
  limit = none;
  remaining = none;
  reset_at = none;
  window_min = some 300;
  source = Source.poll;
  confidence = Confidence.authoritative;
  fetched_at = at;
  detail = none;
}

abbrev pub readings_at : ℕ → List (Text × BucketReading)
readings_at at = (codes "session", fetched_at at) ∷ []

-- `p1` holds the claim on `a` until 10.
abbrev pub claimed_store : Store
claimed_store = record empty_store {
  poll_claims =
      record { account_id = codes "a"; holder_id = codes "p1"; claimed_at = 0; until = 10 } ∷ [];
}

newer_read : newest_fetched_at (readings_at 7) ≡ some 7
unfolding newest_fetched_at
newer_read = refl

older_dropped : upsert_bucket (codes "session") (fetched_at 6) (readings_at 7) ≡ readings_at 7
unfolding upsert_bucket text_eq
older_dropped = refl

p1_ne_p2 : codes "p1" ≢ codes "p2"
unfolding text_eq
p1_ne_p2 e = false≢true ((text_eq_iff (codes "p1") (codes "p2")).1 e)

claim_poll-cases_example :
    (Free (get_poll_claim claimed_store (codes "a")) 9
      × ((claim_poll claimed_store 9 (codes "a") (codes "p2") 10).1 ≡ true)
      × (get_poll_claim (claim_poll claimed_store 9 (codes "a") (codes "p2") 10).0 (codes "a")
          ≡ some (claim_of (codes "a") 9 (codes "p2") 10)))
    ⊎ ((row : PollClaimRow) × (get_poll_claim claimed_store (codes "a") ≡ some row)
        × (9 < row.until)
        × (claim_poll claimed_store 9 (codes "a") (codes "p2") 10 ≡ (claimed_store, false)))
claim_poll-cases_example = claim_poll-cases claimed_store 9 (codes "a") (codes "p2") 10

complete_poll-cases_example :
    let (store', wrote) =
      complete_poll claimed_store (codes "a") (codes "p1") 0 (some (readings_at 7)) in
    ((shows (get_poll_claim claimed_store (codes "a")) (codes "p1") 0 ≡ true)
      × (wrote ≡ true)
      × (store'.snapshots ≡ (upsert_all claimed_store (codes "a") (readings_at 7)).snapshots)
      × (shows (get_poll_claim store' (codes "a")) (codes "p1") 0 ≡ false))
    ⊎ ((shows (get_poll_claim claimed_store (codes "a")) (codes "p1") 0 ≡ false)
        × (wrote ≡ false)
        × (store'.snapshots ≡ claimed_store.snapshots)
        × (get_poll_claim store' (codes "a") ≡ get_poll_claim claimed_store (codes "a")))
complete_poll-cases_example =
    complete_poll-cases claimed_store (codes "a") (codes "p1") 0 (readings_at 7)

complete_poll-taken_over_example :
    let taken = (claim_poll claimed_store 10 (codes "a") (codes "p2") 10).0 in
    let (store', wrote) = complete_poll taken (codes "a") (codes "p1") 0 (some (readings_at 7)) in
    (wrote ≡ false)
    × (store'.snapshots ≡ claimed_store.snapshots)
    × (get_poll_claim store' (codes "a") ≡ some (claim_of (codes "a") 10 (codes "p2") 10))
unfolding claim_poll text_eq
complete_poll-taken_over_example =
    complete_poll-taken_over claimed_store (codes "a") (codes "p1") (codes "p2") 0 10 10
      (readings_at 7) p1_ne_p2 refl

-- `p1` completes its poll.
abbrev completes_p1 : Action
completes_p1 = Action.completes (codes "a") (codes "p1") 0 (some (readings_at 7))

act-LockStep_example :
    let t = act completes_p1 claimed_store in
    Unique t.poll_claims
    × LockStep
        (codes "a")
        (get_poll_claim claimed_store (codes "a"))
        completes_p1
        (get_poll_claim t (codes "a"))
unfolding Unique
act-LockStep_example = act-LockStep claimed_store completes_p1 (codes "a") (refl, tt)

abbrev actions : List Action
actions =
    completes_p1
    ∷ Action.deletes (codes "b")
    ∷ Action.claims 20 (codes "a") (codes "p2") 10
    ∷ Action.records (codes "a") (readings_at 5)
    ∷ []

a_ne_b : codes "b" ≢ codes "a"
unfolding text_eq
a_ne_b e = false≢true ((text_eq_iff (codes "b") (codes "a")).1 e)

-- A reading of 7 stands.
abbrev read_store : Store
read_store = upsert_all claimed_store (codes "a") (readings_at 7)

run-Newer_example :
    Newer
      (get_snapshot read_store (codes "a") (codes "session"))
      (get_snapshot (run actions read_store) (codes "a") (codes "session"))
run-Newer_example =
    run-Newer actions read_store (codes "a") (codes "session") (tt, (a_ne_b, (tt, (tt, tt))))
