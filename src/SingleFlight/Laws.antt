-- ===== src/SingleFlight/Laws.antt =====
-- src/single-flight.ts: the wait ends, and what a coalesced or a fetched answer holds.
use qlb.Base.{
  ℕ, zero, suc, ◌+◌, ◌-◌, ◌≤◌, ◌<◌, ◌≡◌, refl, inl, inr, true, Option, none, some, List, Text, ltb,
  Bool-cases, arith,
}
use qlb.Types.{BucketReading}
use qlb.Store.{Store, PollClaimRow}
use qlb.Store.Polls.{
  get_all_snapshots, newest_fetched_at, is_fresh, ClaimOutcome, claim_poll_or_fresh, get_poll_claim,
}
use qlb.SingleFlight.{
  FetchOutcome, nonempty, Tick, Pass, Waited, is_over, after_sleep, wait_loop, deadline_of,
  turns_for, Passed, claimed_at_or, after_fetch, after_wait, after_claim, pass, give_up, second,
  single_flight_fetch,
}

-- A sleep takes at least a millisecond of the clock (the source asks for 50).
unfoldable pub Ticking : (ℕ → Tick) → Type 0
Ticking ticks = (i : ℕ) → (ticks i).now < (ticks (suc i)).now

-- The wait ended.
unfoldable pub Ended : Waited → Type 0
Ended (Waited.found store cached) = Unit
Ended (Waited.left_off store) = Unit
Ended (Waited.out_of_turns store) = ⊥

late : (a b : ℕ) → (b - a < 0) → ⊥
late a b lt = omega arith

closer : (a a' b left : ℕ) → (b - a < suc left) → a < a' → ltb a b ≡ true → b - a' < left
closer a a' b left enough lt e = ground arith

sleep-Ended :
    (account : Text) (seen : Option ℕ) (at : ℕ) (again : Store → Waited)
    → ((s : Store) → Ended (again s))
    → (s : Store) → Ended (after_sleep account seen at again s)
unfolding after_sleep Ended
sleep-Ended account seen at again ends s =
    elim (Bool-cases (is_fresh (newest_fetched_at (get_all_snapshots s account)) seen)) [
      | inl known ↦ rw known tt
      | inr old ↦ elim (Bool-cases (is_over (get_poll_claim s account) at)) [
        | inl over ↦ rw (old, over) tt
        | inr stands ↦ rw (old, stands) (ends s)
      ]
    ]

wait_loop-Ended :
    (left : ℕ) (ticks : ℕ → Tick) (i : ℕ) (account : Text) (seen : Option ℕ) (deadline : ℕ)
    (store : Store)
    → Ticking ticks
    → deadline - (ticks i).now < left
    → Ended (wait_loop left ticks i account seen deadline store)
unfolding wait_loop after_sleep Ended Ticking
wait_loop-Ended zero ticks i account seen deadline store clock enough =
    late (ticks i).now deadline enough
wait_loop-Ended (suc left) ticks i account seen deadline store clock enough =
    elim (Bool-cases (ltb (ticks i).now deadline)) [
      | inr over ↦ rw over tt
      | inl early ↦ rw early (
          sleep-Ended account seen (ticks i).looked_at
            (wait_loop left ticks (suc i) account seen deadline)
            (λ s.
              wait_loop-Ended left ticks (suc i) account seen deadline s clock
                (closer (ticks i).now (ticks (suc i)).now deadline left enough (clock i) early))
            ((ticks i).during store))
    ]

-- A pass whose clock goes on.
pub record Clocked (p : Pass) : Type 0 where
  pub ticking : Ticking p.ticks
  pub starts : p.refused_at ≤ (p.ticks 0).now

-- Neither out of turns nor, at the end, between passes.
unfoldable pub GoesOn : Passed → Type 0
GoesOn (Passed.answer store outcome result) = Unit
GoesOn (Passed.next_pass store) = Unit
GoesOn (Passed.stuck store) = ⊥

after_wait-GoesOn :
    (account : Text) (seen : Option ℕ) (w : Waited) → Ended w → GoesOn (after_wait account seen w)
unfolding after_wait Ended GoesOn
after_wait-GoesOn account seen (Waited.found store cached) e = tt
after_wait-GoesOn account seen (Waited.left_off store) e =
    elim (Bool-cases (is_fresh (newest_fetched_at (get_all_snapshots store account)) seen)) [
      | inl known ↦ rw known tt
      | inr old ↦ rw old tt
    ]
after_wait-GoesOn account seen (Waited.out_of_turns store) e = e

deadline_of-le : (o : Option PollClaimRow) (now ttl : ℕ) → deadline_of o now ttl ≤ now + ttl
unfolding deadline_of
deadline_of-le none now ttl = omega arith
deadline_of-le (some row) now ttl = omega arith

soon :
    (deadline start now ttl : ℕ) → deadline ≤ start + ttl → start ≤ now → deadline - now < suc ttl
soon deadline start now ttl a b = omega arith

after_fetch-GoesOn :
    (account me : Text) (at : ℕ) (fetch : Option (List (Text × BucketReading))) (store : Store)
    → GoesOn (after_fetch account me at fetch store)
unfolding after_fetch GoesOn
after_fetch-GoesOn account me at none store = tt
after_fetch-GoesOn account me at (some readings) store = tt

after_claim-GoesOn :
    (account : Text) (seen : Option ℕ) (ttl : ℕ) (p : Pass) (store : Store) (o : ClaimOutcome)
    → Clocked p
    → GoesOn (after_claim account seen ttl p (store, o))
unfolding after_claim GoesOn turns_for
after_claim-GoesOn account seen ttl p store ClaimOutcome.fresh c = tt
after_claim-GoesOn account seen ttl p store ClaimOutcome.claimed c =
    after_fetch-GoesOn account p.me (claimed_at_or (get_poll_claim store account) p.now) p.fetch
      (p.meanwhile store)
after_claim-GoesOn account seen ttl p store ClaimOutcome.taken c =
    let deadline = deadline_of (get_poll_claim store account) p.refused_at ttl in
    after_wait-GoesOn account seen (wait_loop (suc ttl) p.ticks 0 account seen deadline store) (
      wait_loop-Ended (suc ttl) p.ticks 0 account seen deadline store c.ticking (
        soon deadline p.refused_at (p.ticks 0).now ttl
          (deadline_of-le (get_poll_claim store account) p.refused_at ttl) c.starts))

pass-GoesOn :
    (account : Text) (seen : Option ℕ) (ttl : ℕ) (p : Pass) (store : Store)
    → Clocked p
    → GoesOn (pass account seen ttl p store)
unfolding pass
pass-GoesOn account seen ttl p store c =
    let (store', o) = claim_poll_or_fresh store p.now account p.me ttl seen in
    after_claim-GoesOn account seen ttl p store' o c

Answers : Passed → Type 0
Answers r =
    (store : Store) × (outcome : FetchOutcome) × (result : Option (List (Text × BucketReading)))
    × (r ≡ Passed.answer store outcome result)

give_up-Answers : (account : Text) (r : Passed) → GoesOn r → Answers (give_up account r)
unfolding give_up GoesOn Answers
give_up-Answers account (Passed.answer store outcome result) e = (store, outcome, result, refl)
give_up-Answers account (Passed.next_pass store) e =
    (store, FetchOutcome.cached_after_failure, nonempty (get_all_snapshots store account), refl)
give_up-Answers account (Passed.stuck store) e = absurd e

ends :
    (account : Text) (again : Store → Passed) (r : Passed)
    → ((s : Store) → GoesOn (again s))
    → GoesOn r
    → Answers (give_up account (second again r))
unfolding give_up second GoesOn Answers
ends account again (Passed.answer store outcome result) more e = (store, outcome, result, refl)
ends account again (Passed.stuck store) more e = absurd e
ends account again (Passed.next_pass store) more e =
    give_up-Answers account (again store) (more store)

-- While clocks go on, a single-flight fetch ends within its two passes, with an answer: the wait is
-- over within its turns, whatever other processes do to the store.
pub single_flight_fetch-answers :
    (account : Text) (seen : Option ℕ) (ttl : ℕ) (p q : Pass) (store : Store)
    → Clocked p
    → Clocked q
    → (store' : Store) × (outcome : FetchOutcome) × (result : Option (List (Text × BucketReading)))
      × (single_flight_fetch account seen ttl p q store ≡ Passed.answer store' outcome result)
unfolding single_flight_fetch Answers
single_flight_fetch-answers account seen ttl p q store c d =
    ends account (pass account seen ttl q) (pass account seen ttl p store)
      (λ s. pass-GoesOn account seen ttl q s d) (pass-GoesOn account seen ttl p store c)
