-- ===== src/Lease.antt =====
-- src/refresh-lease.ts: refreshing an account's OAuth grant under a lease, fenced by the generation of
-- the grant. The Keychain item of an account is what `parseGrant` makes of its text, and `none` where
-- it refuses; no item is an error of the Keychain. What the source waits for is data of an attempt.
pub mod Laws
pub mod Steps
pub mod Runs
pub mod Returns
pub mod Tests
use qlb.Base.{
  ℕ, zero, suc, ◌+◌, ◌-◌, ◌==◌, Bool, true, false, not, ◌&&◌, Option, none, some, List, [], ◌∷◌,
  Text, if◌then◌else◌, ltb, leb,
}
use qlb.Store.{Store, AccountRow, get_account}
use qlb.Store.Config.{lookup, upsert}
use qlb.Store.Leases.{
  get_grant_generation, bump_grant_generation, repair_grant_generation, acquire_refresh_lease,
  Acquired, acquired, busy, stale_gen, unknown_account, release_refresh_lease,
  delete_lease_if_holder, refresh_lease_name, handle_auth_revoked,
}

abbrev default_lease_ttl_ms : ℕ
default_lease_ttl_ms = 15000

abbrev default_expiry_skew_ms : ℕ
default_expiry_skew_ms = 60000

-- `MAX_OUTER_ATTEMPTS`.
abbrev pub max_outer_attempts : ℕ
max_outer_attempts = 32

pub record Grant : Type 0 where
  pub access : Text
  pub refresh : Text
  pub expires : ℕ
  pub generation : ℕ
  pub written_by : Option Text

-- The store, and the Keychain items by account.
pub record World : Type 0 where
  pub store : Store
  pub keychain : List (Text × Option Grant)

pub data RefreshError : Type 0 where
  unknown_account_error keychain_error keychain_older : RefreshError
  wait_timeout helper_refused auth_revoked other_error retry_limit : RefreshError

-- `parseGrant(keychain.getSync(...))`.
flatten : Option (Option Grant) → Option Grant
flatten none = none
flatten (some g) = g

unfoldable pub read_grant : World → Text → Option Grant
unfolding flatten
read_grant w id = flatten (lookup id w.keychain)

-- `keychain.setSync(..., JSON.stringify(grant))`.
unfoldable pub write_grant : World → Text → Grant → World
write_grant w id g = record w { keychain = upsert id (some g) w.keychain }

-- What the first read of the Keychain meets: whether it succeeds where there is an item, and what other
-- processes do between it and the write.
pub record Opening : Type 0 where
  pub readable : Bool
  pub meanwhile : World → World

-- An item that cannot be read, for whatever reason, is overwritten.
bootstrap_item : Opening → World → Text → Grant → Option (Option Grant) → World
bootstrap_item o w id fallback none = write_grant (o.meanwhile w) id fallback
bootstrap_item o w id fallback (some item) =
    if o.readable then w else write_grant (o.meanwhile w) id fallback

-- `bootstrapIfMissing`; nothing where the account is unknown.
unfoldable pub bootstrap_if_missing : Opening → World → Text → Grant → Option World
unfolding bootstrap_item
bootstrap_if_missing o w id fallback = elim (get_account w.store id) [
  | none ↦ none
  | some row ↦ some (bootstrap_item o w id fallback (lookup id w.keychain))
]

pub data ReadResult : Type 0 where
  read_ok : Grant → ℕ → ReadResult
  read_failed : RefreshError → ReadResult

-- What step 1 does with the two generations; what the repair changes is not looked at.
repair_on_read : (World → World) → World → Text → Grant → ℕ → World × ReadResult
repair_on_read before_repair w id grant gen =
    let v = before_repair w in
    if ltb gen grant.generation
    then (
      record v { store = repair_grant_generation v.store id gen grant.generation },
      ReadResult.read_ok grant grant.generation,
    )
    else if ltb grant.generation gen
    then (w, ReadResult.read_failed RefreshError.keychain_older)
    else (w, ReadResult.read_ok grant gen)

read_journal : (World → World) → World → Text → Grant → Option ℕ → World × ReadResult
unfolding repair_on_read
read_journal before_repair w id grant none =
    (w, ReadResult.read_failed RefreshError.unknown_account_error)
read_journal before_repair w id grant (some gen) = repair_on_read before_repair w id grant gen

read_item :
    (World → World)
    → (World → World)
    → World
    → Text
    → Option AccountRow
    → Option Grant
    → World × ReadResult
unfolding read_journal
read_item before_journal before_repair w id none item =
    (w, ReadResult.read_failed RefreshError.unknown_account_error)
read_item before_journal before_repair w id (some row) none =
    (w, ReadResult.read_failed RefreshError.keychain_error)
read_item before_journal before_repair w id (some row) (some grant) =
    let v = before_journal w in
    read_journal before_repair v id grant (get_grant_generation v.store id)

-- `readAndRepair`: step 1. The item, the journal and the repair are three moments, and other processes
-- may come between them.
unfoldable pub read_and_repair :
    (World → World) → (World → World) → World → Text → World × ReadResult
unfolding read_item
read_and_repair before_journal before_repair w id =
    read_item before_journal before_repair w id (get_account w.store id) (read_grant w id)

pub data WriteOutcome : Type 0 where
  fenced fenced_keychain committed : WriteOutcome

-- The end of the transaction of step 5: the write to the Keychain, the swap and the release.
commit_grant : World → Text → Text → ℕ → Grant → World × WriteOutcome
commit_grant w id me gen g =
    let (store, n) = bump_grant_generation w.store id gen in
    let written = write_grant w id g in
    if n == 1
    then (
      record written { store = delete_lease_if_holder store (refresh_lease_name id) me },
      committed,
    )
    else (record written { store = store }, fenced)

same_generation : Option ℕ → ℕ → Bool
same_generation none gen = false
same_generation (some k) gen = k == gen

pub generation_at : Option Grant → Option ℕ
generation_at none = none
generation_at (some g) = some g.generation

-- Step 5, the fenced write: one transaction.
unfoldable pub fenced_write : World → Text → Text → ℕ → Grant → World × WriteOutcome
unfolding commit_grant same_generation generation_at
fenced_write w id me gen g =
    if same_generation (get_grant_generation w.store id) gen
    then (if same_generation (generation_at (read_grant w id)) gen
        then commit_grant w id me gen g
        else (w, fenced_keychain))
    else (w, fenced)

-- A crash after the write to the Keychain and before the commit: SQLite rolls its part back.
unfoldable pub crash_write : World → Text → Text → ℕ → Grant → World
crash_write w id me gen g = record (fenced_write w id me gen g).0 { store = w.store }

-- How the adapter's refresh ends.
pub data AdapterResult : Type 0 where
  refreshed : Grant → AdapterResult
  aborted revoked failed : AdapterResult

-- What an attempt meets: the time, its holder id, whether a wait for another holder ends in time,
-- whether the helper is usable, how the adapter's call ends, and what other processes do: before the
-- item is read, the journal, the repair, the lease, and while a wait or the adapter's call lasts.
pub record Attempt : Type 0 where
  pub now : ℕ
  pub me : Text
  pub pid : ℕ
  pub wait_in_time : Bool
  pub helper_usable : Bool
  pub before_item : World → World
  pub before_journal : World → World
  pub before_repair : World → World
  pub before_acquire : World → World
  pub meanwhile : World → World
  pub outcome : AdapterResult

pub data Progress : Type 0 where
  again : Progress
  done : Grant → Progress
  thrown : RefreshError → Progress

-- `{ ...refreshed, generation: gen + 1, writtenBy: me }`.
unfoldable pub stamped : Grant → ℕ → Text → Grant
stamped g gen me = record g { generation = gen + 1; written_by = some me }

after_write : Grant → World × WriteOutcome → World × Progress
after_write g (w, committed) = (w, Progress.done g)
after_write g (w, fenced) = (w, Progress.again)
after_write g (w, fenced_keychain) = (w, Progress.again)

after_revoked : World → Store × Bool → World × Progress
after_revoked w (store, true) = (record w { store = store }, Progress.again)
after_revoked w (store, false) =
    (record w { store = store }, Progress.thrown RefreshError.auth_revoked)

-- Steps 4 and 5, after the adapter's call.
unfoldable pub after_adapter : World → Text → Text → ℕ → AdapterResult → World × Progress
unfolding after_write after_revoked
after_adapter w id me gen (AdapterResult.refreshed g) =
    after_write (stamped g gen me) (fenced_write w id me gen (stamped g gen me))
after_adapter w id me gen AdapterResult.aborted =
    (record w { store = release_refresh_lease w.store id me }, Progress.again)
after_adapter w id me gen AdapterResult.revoked =
    after_revoked w (handle_auth_revoked w.store id me gen)
after_adapter w id me gen AdapterResult.failed = (
  record w { store = release_refresh_lease w.store id me },
  Progress.thrown RefreshError.other_error,
)

with_helper : Bool → World → Text → ℕ → Attempt → World × Progress
with_helper false w id gen a = (
  record w { store = release_refresh_lease w.store id a.me },
  Progress.thrown RefreshError.helper_refused,
)
with_helper true w id gen a = after_adapter (a.meanwhile w) id a.me gen a.outcome

after_wait : Bool → World → World × Progress
after_wait true w = (w, Progress.again)
after_wait false w = (w, Progress.thrown RefreshError.wait_timeout)

-- Step 3's three answers.
after_acquire : World → Text → ℕ → Attempt → Store × Acquired → World × Progress
unfolding with_helper after_wait
after_acquire w id gen a (store, acquired) =
    with_helper a.helper_usable (record w { store = store }) id gen a
after_acquire w id gen a (store, busy) =
    after_wait a.wait_in_time (a.meanwhile (record w { store = store }))
after_acquire w id gen a (store, stale_gen) = (record w { store = store }, Progress.again)
after_acquire w id gen a (store, unknown_account) =
    (record w { store = store }, Progress.thrown RefreshError.unknown_account_error)

-- `grant.expires - Date.now() > this.expirySkewMs`.
unfoldable pub is_fresh : Grant → ℕ → Bool
is_fresh g now = ltb (now + default_expiry_skew_ms) g.expires

after_read : Text → Attempt → World × ReadResult → World × Progress
unfolding is_fresh after_acquire
after_read id a (w, ReadResult.read_failed e) = (w, Progress.thrown e)
after_read id a (w, ReadResult.read_ok grant gen) =
    if is_fresh grant a.now
    then (w, Progress.done grant)
    else let v = a.before_acquire w in
      after_acquire v id gen a
        (acquire_refresh_lease v.store a.now id a.me a.pid gen default_lease_ttl_ms)

-- One turn of the loop.
unfoldable pub attempt : World → Text → Attempt → World × Progress
unfolding after_read
attempt w id a =
    after_read id a (read_and_repair a.before_journal a.before_repair (a.before_item w) id)

next_attempt : (World → World × Progress) → World × Progress → World × Progress
next_attempt loop (w, Progress.again) = loop w
next_attempt loop (w, Progress.done g) = (w, Progress.done g)
next_attempt loop (w, Progress.thrown e) = (w, Progress.thrown e)

-- The loop, with the number of attempts that are left.
unfoldable pub refresh_loop : ℕ → (ℕ → Attempt) → Text → World → World × Progress
unfolding next_attempt
refresh_loop zero env id w = (w, Progress.thrown RefreshError.retry_limit)
refresh_loop (suc left) env id w = next_attempt (refresh_loop left env id) (attempt w id (env left))

loop_from : (ℕ → Attempt) → Text → World → Option World → World × Progress
loop_from env id w none = (w, Progress.thrown RefreshError.unknown_account_error)
loop_from env id w (some started) = refresh_loop max_outer_attempts env id started

-- `refreshIfNeeded`, over what its first read and each attempt meet.
unfoldable pub refresh_if_needed : Opening → (ℕ → Attempt) → Text → Grant → World → World × Progress
unfolding loop_from
refresh_if_needed o env id current w = loop_from env id w (bootstrap_if_missing o w id current)
