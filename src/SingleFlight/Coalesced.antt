-- ===== src/SingleFlight/Coalesced.antt =====
-- src/single-flight.ts: what a caller gets that did not fetch itself.
use qlb.Base.{
  ℕ, zero, suc, ◌≡◌, refl, subst, inl, inr, true, Option, none, some, List, [], ◌∷◌, Text, ltb,
  Bool-cases,
}
use qlb.Types.{BucketReading}
use qlb.Store.{Store}
use qlb.Store.Polls.{
  get_all_snapshots, newest_fetched_at, is_fresh, ClaimOutcome, claim_poll, claim_poll_or_fresh,
  get_poll_claim,
}
use qlb.SingleFlight.{
  FetchOutcome, nonempty, Tick, Pass, Waited, is_over, after_sleep, wait_loop, deadline_of,
  turns_for, Passed, claimed_at_or, after_fetch, after_wait, after_claim, pass, give_up, second,
  single_flight_fetch,
}

-- Data of the store, newer than what the caller saw.
unfoldable pub Fresh : Text → Option ℕ → Store → Option (List (Text × BucketReading)) → Type 0
Fresh account seen store result =
    (result ≡ some (get_all_snapshots store account))
    × (is_fresh (newest_fetched_at (get_all_snapshots store account)) seen ≡ true)

unfoldable pub FreshIfCoalesced : Text → Option ℕ → Passed → Type 0
FreshIfCoalesced account seen (Passed.answer store FetchOutcome.coalesced result) =
    Fresh account seen store result
FreshIfCoalesced account seen (Passed.answer store FetchOutcome.fetched result) = Unit
FreshIfCoalesced account seen (Passed.answer store FetchOutcome.cached_after_failure result) = Unit
FreshIfCoalesced account seen (Passed.next_pass store) = Unit
FreshIfCoalesced account seen (Passed.stuck store) = Unit

-- Fresh readings are at least one reading.
nonempty-fresh :
    (seen : Option ℕ) (rows : List (Text × BucketReading))
    → is_fresh (newest_fetched_at rows) seen ≡ true
    → nonempty rows ≡ some rows
unfolding is_fresh newest_fetched_at nonempty
nonempty-fresh none [] e = cc
nonempty-fresh (some at) [] e = cc
nonempty-fresh seen (row ∷ rest) e = refl

in_store-Fresh :
    (account : Text) (seen : Option ℕ) (store : Store)
    → is_fresh (newest_fetched_at (get_all_snapshots store account)) seen ≡ true
    → Fresh account seen store (nonempty (get_all_snapshots store account))
unfolding Fresh
in_store-Fresh account seen store e = (nonempty-fresh seen (get_all_snapshots store account) e, e)

-- What a wait found is in the store, and fresh.
FoundFresh : Text → Option ℕ → Waited → Type 0
FoundFresh account seen (Waited.found store cached) =
    (cached ≡ get_all_snapshots store account)
    × (is_fresh (newest_fetched_at (get_all_snapshots store account)) seen ≡ true)
FoundFresh account seen (Waited.left_off store) = Unit
FoundFresh account seen (Waited.out_of_turns store) = Unit

sleep-FoundFresh :
    (account : Text) (seen : Option ℕ) (at : ℕ) (again : Store → Waited)
    → ((s : Store) → FoundFresh account seen (again s))
    → (s : Store) → FoundFresh account seen (after_sleep account seen at again s)
unfolding after_sleep FoundFresh
sleep-FoundFresh account seen at again later s =
    elim (Bool-cases (is_fresh (newest_fetched_at (get_all_snapshots s account)) seen)) [
      | inl known ↦ rw known (refl, known)
      | inr old ↦ elim (Bool-cases (is_over (get_poll_claim s account) at)) [
        | inl over ↦ rw (old, over) tt
        | inr stands ↦ rw (old, stands) (later s)
      ]
    ]

wait_loop-FoundFresh :
    (left : ℕ) (ticks : ℕ → Tick) (i : ℕ) (account : Text) (seen : Option ℕ) (deadline : ℕ)
    (store : Store)
    → FoundFresh account seen (wait_loop left ticks i account seen deadline store)
unfolding wait_loop FoundFresh
wait_loop-FoundFresh zero ticks i account seen deadline store = tt
wait_loop-FoundFresh (suc left) ticks i account seen deadline store =
    elim (Bool-cases (ltb (ticks i).now deadline)) [
      | inr over ↦ rw over tt
      | inl early ↦ rw early (
          sleep-FoundFresh account seen (ticks i).looked_at
            (wait_loop left ticks (suc i) account seen deadline)
            (λ s. wait_loop-FoundFresh left ticks (suc i) account seen deadline s)
            ((ticks i).during store))
    ]

after_wait-Fresh :
    (account : Text) (seen : Option ℕ) (w : Waited)
    → FoundFresh account seen w
    → FreshIfCoalesced account seen (after_wait account seen w)
unfolding after_wait FoundFresh FreshIfCoalesced
after_wait-Fresh account seen (Waited.found store cached) (is, known) =
    rw is (in_store-Fresh account seen store known)
after_wait-Fresh account seen (Waited.left_off store) f =
    elim (Bool-cases (is_fresh (newest_fetched_at (get_all_snapshots store account)) seen)) [
      | inl known ↦ rw known (in_store-Fresh account seen store known)
      | inr old ↦ rw old tt
    ]
after_wait-Fresh account seen (Waited.out_of_turns store) f = tt

after_fetch-Fresh :
    (account : Text) (seen : Option ℕ) (me : Text) (at : ℕ)
    (fetch : Option (List (Text × BucketReading))) (store : Store)
    → FreshIfCoalesced account seen (after_fetch account me at fetch store)
unfolding after_fetch FreshIfCoalesced
after_fetch-Fresh account seen me at none store = tt
after_fetch-Fresh account seen me at (some readings) store = tt

-- The claim says `fresh` only where the store is.
claim-fresh :
    (store : Store) (now : ℕ) (account holder : Text) (ttl : ℕ) (seen : Option ℕ)
    → (claim_poll_or_fresh store now account holder ttl seen).1 ≡ ClaimOutcome.fresh
    → let store' = (claim_poll_or_fresh store now account holder ttl seen).0 in
      is_fresh (newest_fetched_at (get_all_snapshots store' account)) seen ≡ true
unfolding claim_poll_or_fresh
claim-fresh store now account holder ttl seen e =
    elim (Bool-cases (is_fresh (newest_fetched_at (get_all_snapshots store account)) seen)) [
      | inl known ↦ rw known known
      | inr old ↦ elim (Bool-cases (claim_poll store now account holder ttl).1) [
        | inl got ↦ cc (rw (old, got) at e)
        | inr lost ↦ cc (rw (old, lost) at e)
      ]
    ]

after_claim-Fresh :
    (account : Text) (seen : Option ℕ) (ttl : ℕ) (p : Pass) (store : Store) (o : ClaimOutcome)
    → (o ≡ ClaimOutcome.fresh
        → is_fresh (newest_fetched_at (get_all_snapshots store account)) seen ≡ true)
    → FreshIfCoalesced account seen (after_claim account seen ttl p (store, o))
unfolding after_claim FreshIfCoalesced
after_claim-Fresh account seen ttl p store ClaimOutcome.fresh known =
    in_store-Fresh account seen store (known refl)
after_claim-Fresh account seen ttl p store ClaimOutcome.claimed known =
    after_fetch-Fresh account seen p.me (claimed_at_or (get_poll_claim store account) p.now) p.fetch
      (p.meanwhile store)
after_claim-Fresh account seen ttl p store ClaimOutcome.taken known =
    let deadline = deadline_of (get_poll_claim store account) p.refused_at ttl in
    after_wait-Fresh account seen (wait_loop (turns_for ttl) p.ticks 0 account seen deadline store)
      (wait_loop-FoundFresh (turns_for ttl) p.ticks 0 account seen deadline store)

pass-Fresh :
    (account : Text) (seen : Option ℕ) (ttl : ℕ) (p : Pass) (store : Store)
    → FreshIfCoalesced account seen (pass account seen ttl p store)
unfolding pass
pass-Fresh account seen ttl p store =
    let (store', o) = claim_poll_or_fresh store p.now account p.me ttl seen in
    after_claim-Fresh account seen ttl p store' o (claim-fresh store p.now account p.me ttl seen)

give_up-Fresh :
    (account : Text) (seen : Option ℕ) (r : Passed)
    → FreshIfCoalesced account seen r
    → FreshIfCoalesced account seen (give_up account r)
unfolding give_up FreshIfCoalesced
give_up-Fresh account seen (Passed.answer store outcome result) f = f
give_up-Fresh account seen (Passed.next_pass store) f = tt
give_up-Fresh account seen (Passed.stuck store) f = tt

second-Fresh :
    (account : Text) (seen : Option ℕ) (again : Store → Passed) (r : Passed)
    → ((s : Store) → FreshIfCoalesced account seen (again s))
    → FreshIfCoalesced account seen r
    → FreshIfCoalesced account seen (second again r)
unfolding second FreshIfCoalesced
second-Fresh account seen again (Passed.answer store outcome result) more f = f
second-Fresh account seen again (Passed.next_pass store) more f = more store
second-Fresh account seen again (Passed.stuck store) more f = tt

all-Fresh :
    (account : Text) (seen : Option ℕ) (ttl : ℕ) (p q : Pass) (store : Store)
    → FreshIfCoalesced account seen (single_flight_fetch account seen ttl p q store)
unfolding single_flight_fetch
all-Fresh account seen ttl p q store =
    give_up-Fresh account seen (second (pass account seen ttl q) (pass account seen ttl p store)) (
      second-Fresh account seen (pass account seen ttl q) (pass account seen ttl p store)
        (λ s. pass-Fresh account seen ttl q s) (pass-Fresh account seen ttl p store))

-- A coalesced answer is what the store holds for the account, and it is newer than what the caller
-- had seen: no caller that waited is given stale data as fresh.
pub single_flight_fetch-fresh :
    (account : Text) (seen : Option ℕ) (ttl : ℕ) (p q : Pass) (store store' : Store)
    (result : Option (List (Text × BucketReading)))
    → single_flight_fetch account seen ttl p q store
      ≡ Passed.answer store' FetchOutcome.coalesced result
    → (result ≡ some (get_all_snapshots store' account))
      × (is_fresh (newest_fetched_at (get_all_snapshots store' account)) seen ≡ true)
unfolding FreshIfCoalesced Fresh
single_flight_fetch-fresh account seen ttl p q store store' result e =
    subst (FreshIfCoalesced account seen) e (all-Fresh account seen ttl p q store)
