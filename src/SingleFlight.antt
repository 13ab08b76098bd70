-- ===== src/SingleFlight.antt =====
-- src/single-flight.ts: one process at a time fetches an account's readings; the others wait for
-- what it finds. Times are in ms. What other processes do to the store is a function at each place
-- where the code awaits; what it awaits and its clock are data of a pass.
pub mod Laws
pub mod Coalesced
pub mod Tests
use qlb.Base.{
  ℕ, zero, suc, ◌+◌, ◌-◌, min, max, Bool, true, false, Option, none, some, List, [], ◌∷◌, Text,
  if◌then◌else◌, ltb, leb, or_else,
}
use qlb.Types.{BucketReading}
use qlb.Store.{Store, PollClaimRow}
use qlb.Store.Polls.{
  get_all_snapshots, newest_fetched_at, is_fresh, ClaimOutcome, claim_poll_or_fresh, get_poll_claim,
  release_poll_claim, complete_poll,
}

abbrev pub default_poll_claim_ttl_ms : ℕ
default_poll_claim_ttl_ms = 10000

-- Where `ttl - 2000` is negative the maximum is 1000 all the same.
unfoldable pub hard_timeout_ms : ℕ → ℕ
hard_timeout_ms ttl = max (ttl - 2000) 1000

-- `FetchOutcome`.
pub data FetchOutcome : Type 0 where
  fetched coalesced cached_after_failure : FetchOutcome

unfoldable pub nonempty : List (Text × BucketReading) → Option (List (Text × BucketReading))
nonempty [] = none
nonempty (entry ∷ rest) = some (entry ∷ rest)

-- A turn of the wait: the time of the loop's test, what happens during the sleep, and the time at
-- which the claim is looked at.
pub record Tick : Type 0 where
  pub now : ℕ
  pub during : Store → Store
  pub looked_at : ℕ

-- A pass through the claim: the id of the operation, the time of the claim, the time after `busy`,
-- the end of the fetch (`none`: it threw, or the hard timeout came first), what happens meanwhile,
-- and the turns of a wait.
pub record Pass : Type 0 where
  pub me : Text
  pub now : ℕ
  pub refused_at : ℕ
  pub meanwhile : Store → Store
  pub fetch : Option (List (Text × BucketReading))
  pub ticks : ℕ → Tick

pub data Waited : Type 0 where
  found : Store → List (Text × BucketReading) → Waited
  left_off : Store → Waited
  out_of_turns : Store → Waited

-- `!row || row.until <= Date.now()`.
is_over : Option PollClaimRow → ℕ → Bool
is_over none now = true
is_over (some row) now = leb row.until now

after_sleep : Text → Option ℕ → ℕ → (Store → Waited) → Store → Waited
unfolding is_over
after_sleep account seen now again store =
    if is_fresh (newest_fetched_at (get_all_snapshots store account)) seen
    then Waited.found store (get_all_snapshots store account)
    else if is_over (get_poll_claim store account) now
    then Waited.left_off store
    else again store

-- `while (Date.now() < deadline)`, with a number of turns that are left.
unfoldable pub wait_loop : ℕ → (ℕ → Tick) → ℕ → Text → Option ℕ → ℕ → Store → Waited
unfolding after_sleep
wait_loop zero ticks i account seen deadline store = Waited.out_of_turns store
wait_loop (suc left) ticks i account seen deadline store =
    let again = wait_loop left ticks (suc i) account seen deadline in
    if ltb (ticks i).now deadline
    then after_sleep account seen (ticks i).looked_at again ((ticks i).during store)
    else Waited.left_off store

-- `Math.min(live?.until ?? Date.now() + ttl, Date.now() + ttl)`.
unfoldable pub deadline_of : Option PollClaimRow → ℕ → ℕ → ℕ
deadline_of none now ttl = now + ttl
deadline_of (some live) now ttl = min live.until (now + ttl)

-- Turns of 50 ms that are enough for a deadline `ttl` ahead.
unfoldable pub turns_for : ℕ → ℕ
turns_for ttl = suc ttl

pub data Passed : Type 0 where
  answer : Store → FetchOutcome → Option (List (Text × BucketReading)) → Passed
  next_pass : Store → Passed
  stuck : Store → Passed

claimed_at_or : Option PollClaimRow → ℕ → ℕ
claimed_at_or none now = now
claimed_at_or (some claim) now = claim.claimed_at

-- `nonempty(cached) ?? nonempty(readings)`.
first_nonempty :
    Option (List (Text × BucketReading))
    → Option (List (Text × BucketReading))
    → Option (List (Text × BucketReading))
first_nonempty (some cached) readings = some cached
first_nonempty none readings = readings

-- What is done once the fetch has ended.
after_fetch : Text → Text → ℕ → Option (List (Text × BucketReading)) → Store → Passed
unfolding first_nonempty
after_fetch account me at (some readings) store =
    let store' = (complete_poll store account me at (some readings)).0 in
    Passed.answer store' FetchOutcome.fetched
      (first_nonempty (nonempty (get_all_snapshots store' account)) (nonempty readings))
after_fetch account me at none store =
    let store' = release_poll_claim store account me at in
    Passed.answer store' FetchOutcome.cached_after_failure
      (nonempty (get_all_snapshots store' account))

-- After the wait: fresh data, or another pass.
after_wait : Text → Option ℕ → Waited → Passed
after_wait account seen (Waited.found store cached) =
    Passed.answer store FetchOutcome.coalesced (nonempty cached)
after_wait account seen (Waited.left_off store) =
    if is_fresh (newest_fetched_at (get_all_snapshots store account)) seen
    then Passed.answer store FetchOutcome.coalesced (nonempty (get_all_snapshots store account))
    else Passed.next_pass store
after_wait account seen (Waited.out_of_turns store) = Passed.stuck store

after_claim : Text → Option ℕ → ℕ → Pass → Store × ClaimOutcome → Passed
unfolding claimed_at_or after_fetch after_wait
after_claim account seen ttl p (store, ClaimOutcome.fresh) =
    Passed.answer store FetchOutcome.coalesced (nonempty (get_all_snapshots store account))
after_claim account seen ttl p (store, ClaimOutcome.claimed) =
    after_fetch account p.me (claimed_at_or (get_poll_claim store account) p.now) p.fetch
      (p.meanwhile store)
after_claim account seen ttl p (store, ClaimOutcome.taken) = after_wait account seen (
    wait_loop (turns_for ttl) p.ticks 0 account seen
      (deadline_of (get_poll_claim store account) p.refused_at ttl) store)

-- A turn of `while (passes < 2)`.
unfoldable pub pass : Text → Option ℕ → ℕ → Pass → Store → Passed
unfolding after_claim
pass account seen ttl p store =
    after_claim account seen ttl p (claim_poll_or_fresh store p.now account p.me ttl seen)

-- The poll wait timed out.
give_up : Text → Passed → Passed
give_up account (Passed.next_pass store) =
    Passed.answer store FetchOutcome.cached_after_failure
      (nonempty (get_all_snapshots store account))
give_up account (Passed.answer store outcome result) = Passed.answer store outcome result
give_up account (Passed.stuck store) = Passed.stuck store

second : (Store → Passed) → Passed → Passed
second again (Passed.next_pass store) = again store
second again (Passed.answer store outcome result) = Passed.answer store outcome result
second again (Passed.stuck store) = Passed.stuck store

-- `singleFlightFetch`: at most two passes.
unfoldable pub single_flight_fetch : Text → Option ℕ → ℕ → Pass → Pass → Store → Passed
unfolding give_up second
single_flight_fetch account seen ttl p q store =
    give_up account (second (pass account seen ttl q) (pass account seen ttl p store))

or_cached : List (Text × BucketReading) → Passed → Passed
unfolding first_nonempty
or_cached cached (Passed.answer store outcome result) =
    Passed.answer store outcome (first_nonempty result (nonempty cached))
or_cached cached (Passed.next_pass store) = Passed.next_pass store
or_cached cached (Passed.stuck store) = Passed.stuck store

-- `fetchAndCache`.
unfoldable pub fetch_and_cache : Text → ℕ → Pass → Pass → Store → Passed
unfolding or_cached
fetch_and_cache account ttl p q store =
    let cached = get_all_snapshots store account in
    or_cached cached (single_flight_fetch account (newest_fetched_at cached) ttl p q store)
