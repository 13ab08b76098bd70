-- ===== src/Lease/Returns.antt =====
-- src/refresh-lease.ts: what `refreshIfNeeded` returns, and how it came to it.
use mathlib.Core.Option.{some-injective}
use qlb.Base.{
  ℕ, zero, suc, ◌+◌, ◌≤◌, ◌<◌, ◌≡◌, refl, ap, subst, inl, inr, Bool, true, false, Option, none,
  some, Text, Bool-cases, arith, ltb,
}
use qlb.Store.{Store, AccountRow, get_account}
use qlb.Store.Leases.{
  get_grant_generation, acquire_refresh_lease, Acquired, acquired, busy, stale_gen, unknown_account,
  handle_auth_revoked,
}
use qlb.Lease.{
  Grant, World, Opening, read_grant, ReadResult, repair_on_read, read_journal, read_item,
  read_and_repair, WriteOutcome, fenced, fenced_keychain, fenced_write, AdapterResult, Attempt,
  Progress, stamped, after_write, after_revoked, after_adapter, with_helper, after_wait,
  after_acquire, is_fresh, after_read, attempt, next_attempt, refresh_loop, loop_from,
  refresh_if_needed, bootstrap_if_missing, max_outer_attempts, default_lease_ttl_ms,
}
use qlb.Lease.Laws.{At, fenced_write-split}

-- How an attempt from a world came to return a grant, at its end: the grant is the item that it read,
-- far from its expiry and not older than the journal that it read after it; or the grant was expired,
-- and its refresh was committed, so that the journal and the item are at it.
pub data Returned (id : Text) (a : Attempt) (w : World) (g : Grant) (v : World) : Type 0 where
  unexpired :
      (gen : ℕ)
      → read_grant (a.before_item w) id ≡ some g
      → get_grant_generation (a.before_journal (a.before_item w)).store id ≡ some gen
      → gen ≤ g.generation
      → a.now + 60000 < g.expires
      → Returned id a w g v
  committed :
      (gen : ℕ)
      → g.generation ≡ gen + 1
      → g.written_by ≡ some a.me
      → At v id (gen + 1) g
      → Returned id a w g v

-- Attempts in a row that end with another attempt, from those left at first to those left then.
pub data Tries (env : ℕ → Attempt) (id : Text) : ℕ → World → ℕ → World → Type 0 where
  no_more : {n : ℕ} {w : World} → Tries env id n w n w
  again :
      {n k : ℕ} {w u v : World}
      → attempt w id (env n) ≡ (u, Progress.again)
      → Tries env id n u k v
      → Tries env id (suc n) w k v

done_inj : {g h : Grant} → Progress.done g ≡ Progress.done h → g ≡ h
done_inj {g} {h} e = some-injective g h (ap grant_of e)
  where
    grant_of : Progress → Option Grant
    grant_of (Progress.done x) = some x
    grant_of Progress.again = none
    grant_of (Progress.thrown x) = none

module _ (id : Text) (a : Attempt) (start : World) where
  abbrev Out : World × Progress → Type 0
  Out r = (g : Grant) → r.1 ≡ Progress.done g → Returned id a start g r.0

  -- A read that succeeds gave the item, and a generation that is not before the journal's.
  ReadGood : World × ReadResult → Type 0
  ReadGood (w, ReadResult.read_failed e) = Unit
  ReadGood (w, ReadResult.read_ok g gen) =
      (n : ℕ) × (read_grant (a.before_item start) id ≡ some g)
      × (get_grant_generation (a.before_journal (a.before_item start)).store id ≡ some n)
      × (n ≤ g.generation)

  repair-ReadGood :
      (n : ℕ) (g : Grant)
      → read_grant (a.before_item start) id ≡ some g
      → get_grant_generation (a.before_journal (a.before_item start)).store id ≡ some n
      → ReadGood (repair_on_read a.before_repair (a.before_journal (a.before_item start)) id g n)
  unfolding ReadGood repair_on_read
  repair-ReadGood n g item journal = elim (Bool-cases (ltb n g.generation)) [
    | inl ahead ↦ rw ahead (n, item, journal, ground arith)
    | inr behind ↦ elim (Bool-cases (ltb g.generation n)) [
      | inl older ↦ rw (behind, older) tt
      | inr level ↦ rw (behind, level) (n, item, journal, ground arith)
    ]
  ]

  read_item-ReadGood :
      (row : Option AccountRow) (item : Option Grant)
      → read_grant (a.before_item start) id ≡ item
      → ReadGood (read_item a.before_journal a.before_repair (a.before_item start) id row item)
  unfolding ReadGood read_item
  read_item-ReadGood none item e = tt
  read_item-ReadGood (some row) none e = tt
  read_item-ReadGood (some row) (some g) e =
      journal (get_grant_generation (a.before_journal (a.before_item start)).store id) refl
    where
      journal :
          (o : Option ℕ)
          → get_grant_generation (a.before_journal (a.before_item start)).store id ≡ o
          → ReadGood (read_journal a.before_repair (a.before_journal (a.before_item start)) id g o)
      journal none k = unfold read_journal in tt
      journal (some n) k = unfold read_journal in repair-ReadGood n g e k

  after_write-Out :
      (w : World) (gen : ℕ) (g : Grant)
      → g.generation ≡ gen + 1
      → g.written_by ≡ some a.me
      → Out (after_write g (fenced_write w id a.me gen g))
  unfolding after_write
  after_write-Out w gen g next by =
      go (fenced_write w id a.me gen g) (elim (fenced_write-split w id a.me gen g) [
        | inl (old, before, is, ok, after) ↦ (λ e. after)
        | inr (same, refused) ↦ (λ e. absurd (refused e))
      ])
    where
      go :
          (r : World × WriteOutcome)
          → (r.1 ≡ WriteOutcome.committed → At r.0 id (gen + 1) g)
          → Out (after_write g r)
      go (v, WriteOutcome.committed) f h e =
          subst (λ x. Returned id a start x v) (done_inj e)
            (Returned.committed gen next by (f refl))
      go (v, fenced) f h e = cc
      go (v, fenced_keychain) f h e = cc

  after_revoked-Out : (w : World) (r : Store × Bool) → Out (after_revoked w r)
  unfolding after_revoked
  after_revoked-Out w (st, true) g e = cc
  after_revoked-Out w (st, false) g e = cc

  after_adapter-Out :
      (w : World) (gen : ℕ) (r : AdapterResult) → Out (after_adapter w id a.me gen r)
  unfolding after_adapter
  after_adapter-Out w gen (AdapterResult.refreshed g) =
      after_write-Out w gen (stamped g gen a.me) (unfold stamped in refl) (unfold stamped in refl)
  after_adapter-Out w gen AdapterResult.aborted = λ g e. cc
  after_adapter-Out w gen AdapterResult.revoked =
      after_revoked-Out w (handle_auth_revoked w.store id a.me gen)
  after_adapter-Out w gen AdapterResult.failed = λ g e. cc

  with_helper-Out : (b : Bool) (w : World) (gen : ℕ) → Out (with_helper b w id gen a)
  unfolding with_helper
  with_helper-Out false w gen = λ g e. cc
  with_helper-Out true w gen = after_adapter-Out (a.meanwhile w) gen a.outcome

  after_wait-Out : (b : Bool) (w : World) → Out (after_wait b w)
  unfolding after_wait
  after_wait-Out true w g e = cc
  after_wait-Out false w g e = cc

  after_acquire-Out :
      (w : World) (gen : ℕ) (r : Store × Acquired) → Out (after_acquire w id gen a r)
  unfolding after_acquire
  after_acquire-Out w gen (st, acquired) =
      with_helper-Out a.helper_usable (record w { store = st }) gen
  after_acquire-Out w gen (st, busy) =
      after_wait-Out a.wait_in_time (a.meanwhile (record w { store = st }))
  after_acquire-Out w gen (st, stale_gen) = λ g e. cc
  after_acquire-Out w gen (st, unknown_account) = λ g e. cc

  after_read-Out : (r : World × ReadResult) → ReadGood r → Out (after_read id a r)
  unfolding after_read ReadGood is_fresh
  after_read-Out (w, ReadResult.read_failed x) good g e = cc
  after_read-Out (w, ReadResult.read_ok old gen) (n, item, journal, le) g e =
      elim (Bool-cases (is_fresh old a.now)) [
        | inl fresh ↦ rw fresh (
            subst (λ x. Returned id a start x w) (done_inj (rw fresh at e))
              (Returned.unexpired n item journal le (ground (arith, fresh))))
        | inr expired ↦ rw expired (
            after_acquire-Out (a.before_acquire w) gen
              (acquire_refresh_lease (a.before_acquire w).store a.now id a.me a.pid gen
                default_lease_ttl_ms)
              g (rw expired at e))
      ]

  attempt-Out : Out (attempt start id a)
  unfolding attempt read_and_repair
  attempt-Out =
      after_read-Out (read_and_repair a.before_journal a.before_repair (a.before_item start) id) (
        read_item-ReadGood (get_account (a.before_item start).store id)
          (read_grant (a.before_item start) id) refl)

-- What a loop of attempts from a world came to: its last attempt, and the attempts before it.
abbrev Traced : (ℕ → Attempt) → Text → ℕ → World → Grant → World → Type 0
Traced env id left w g v =
    (k : ℕ) × (u : World) × Tries env id left w (suc k) u × Returned id (env k) u g v

refresh_loop-Traced :
    (left : ℕ) (env : ℕ → Attempt) (id : Text) (w : World) (g : Grant)
    → (refresh_loop left env id w).1 ≡ Progress.done g
    → Traced env id left w g (refresh_loop left env id w).0
unfolding refresh_loop next_attempt
refresh_loop-Traced zero env id w g e = cc
refresh_loop-Traced (suc left) env id w g e =
    go (λ u h. refresh_loop-Traced left env id u g h) (attempt w id (env left)) refl
      (attempt-Out id (env left) w) e
  where
    go :
        ((u : World)
          → (refresh_loop left env id u).1 ≡ Progress.done g
          → Traced env id left u g (refresh_loop left env id u).0)
        → (r : World × Progress) → attempt w id (env left) ≡ r
        → ((h : Grant) → r.1 ≡ Progress.done h → Returned id (env left) w h r.0)
        → (next_attempt (refresh_loop left env id) r).1 ≡ Progress.done g
        → Traced env id (suc left) w g (next_attempt (refresh_loop left env id) r).0
    go rest (u, Progress.again) is out k =
        let (n, x, tries, ret) = rest u k in (n, x, Tries.again is tries, ret)
    go rest (u, Progress.done h) is out k = (left, w, Tries.no_more, out g k)
    go rest (u, Progress.thrown x) is out k = cc

-- A grant that `refreshIfNeeded` returns was returned by one of its 32 attempts, after others that
-- began again: either that attempt read it off the Keychain item, more than a minute from its expiry
-- and not older than the journal that it read next, or that attempt's refresh was committed, and as it
-- returns the item is the grant and the journal is at its generation. Other processes may do anything
-- before each read, before the repair and the lease, and during the waits.
pub refresh_if_needed-Returned :
    (o : Opening) (env : ℕ → Attempt) (id : Text) (current : Grant) (w : World) (g : Grant)
    → (refresh_if_needed o env id current w).1 ≡ Progress.done g
    → (start : World) × (bootstrap_if_missing o w id current ≡ some start)
      × (k : ℕ) × (u : World) × Tries env id max_outer_attempts start (suc k) u
      × Returned id (env k) u g (refresh_if_needed o env id current w).0
unfolding refresh_if_needed loop_from
refresh_if_needed-Returned o env id current w g e = go (bootstrap_if_missing o w id current) refl e
  where
    go :
        (m : Option World)
        → bootstrap_if_missing o w id current ≡ m
        → (loop_from env id w m).1 ≡ Progress.done g
        → (start : World) × (bootstrap_if_missing o w id current ≡ some start)
          × (k : ℕ) × (u : World) × Tries env id max_outer_attempts start (suc k) u
          × Returned id (env k) u g (loop_from env id w m).0
    go none is k = cc
    go (some start) is k =
        let (n, u, tries, ret) = refresh_loop-Traced max_outer_attempts env id start g k in
        (start, is, n, u, tries, ret)
