-- ===== src/Store/Polls.antt =====
-- src/store.ts: the readings of the `snapshots` table and the claims on polling an account.
-- `account_id` is the primary key of `poll_claims`, `(account_id, bucket)` that of `snapshots`.
pub mod Laws
pub mod Readings
pub mod Actions
pub mod Unique
pub mod Steps
pub mod Newest
pub mod Tests
use qlb.Base.{
  ℕ, ◌+◌, ◌==◌, Bool, true, false, not, ◌&&◌, Option, none, some, List, [], ◌∷◌, Text, text_eq,
  if◌then◌else◌, ltb, leb, is_some, or_else, filter, find,
}
use qlb.Types.{BucketReading}
use qlb.Store.{Store, PollClaimRow}
use qlb.Store.Config.{lookup, upsert}

-- What the columns keep of a reading, and `toReading` gives back.
unfoldable pub stored : BucketReading → BucketReading
stored r = record r { window_min = none; detail = none }

-- `upsertSnapStmt`: a row is overwritten by a reading that was fetched later.
unfoldable pub upsert_bucket :
    Text → BucketReading → List (Text × BucketReading) → List (Text × BucketReading)
unfolding stored
upsert_bucket bucket r [] = (bucket, stored r) ∷ []
upsert_bucket bucket r ((k, old) ∷ rest) =
    if text_eq k bucket
    then (k, (if ltb old.fetched_at r.fetched_at then stored r else old)) ∷ rest
    else (k, old) ∷ upsert_bucket bucket r rest

unfoldable pub get_all_snapshots : Store → Text → List (Text × BucketReading)
get_all_snapshots store id = or_else (lookup id store.snapshots) []

unfoldable pub get_snapshot : Store → Text → Text → Option BucketReading
get_snapshot store id bucket = lookup bucket (get_all_snapshots store id)

unfoldable pub upsert_snapshot : Store → Text → Text → BucketReading → Store
upsert_snapshot store id bucket r = record store {
  snapshots = upsert id (upsert_bucket bucket r (get_all_snapshots store id)) store.snapshots;
}

-- The loop over `Object.entries(readings)`.
unfoldable pub upsert_all : Store → Text → List (Text × BucketReading) → Store
upsert_all store id [] = store
upsert_all store id ((bucket, r) ∷ rest) = upsert_all (upsert_snapshot store id bucket r) id rest

later_of : Option ℕ → ℕ → Option ℕ
later_of none at = some at
later_of (some top) at = if ltb top at then some at else some top

newest_from : Option ℕ → List (Text × BucketReading) → Option ℕ
unfolding later_of
newest_from top [] = top
newest_from top ((_, r) ∷ rest) = newest_from (later_of top r.fetched_at) rest

unfoldable pub newest_fetched_at : List (Text × BucketReading) → Option ℕ
unfolding newest_from
newest_fetched_at buckets = newest_from none buckets

unfoldable pub is_fresh : Option ℕ → Option ℕ → Bool
is_fresh row_fetched_at none = is_some row_fetched_at
is_fresh none (some seen) = false
is_fresh (some fetched) (some seen) = ltb seen fetched

-- `claimPollStmt`, and whether it changed a row.
pub claim_rows : PollClaimRow → List PollClaimRow → List PollClaimRow × Bool
claim_rows new [] = (new ∷ [], true)
claim_rows new (row ∷ rest) =
    let (rest', changed) = claim_rows new rest in
    if text_eq row.account_id new.account_id
    then (if leb row.until new.claimed_at then (new ∷ rest, true) else (row ∷ rest, false))
    else (row ∷ rest', changed)

unfoldable pub claim_poll : Store → ℕ → Text → Text → ℕ → Store × Bool
unfolding claim_rows
claim_poll store now account holder ttl =
    let new : PollClaimRow = record {
      account_id = account;
      holder_id = holder;
      claimed_at = now;
      until = now + ttl;
    } in
    let (rows, changed) = claim_rows new store.poll_claims in
    (record store { poll_claims = rows }, changed)

pub data ClaimOutcome : Type 0 where
  claimed fresh taken : ClaimOutcome

-- 'acquired' is `claimed`, 'busy' is `taken`.
unfoldable pub claim_poll_or_fresh : Store → ℕ → Text → Text → ℕ → Option ℕ → Store × ClaimOutcome
unfolding is_fresh
claim_poll_or_fresh store now account holder ttl seen =
    let (store', changed) = claim_poll store now account holder ttl in
    if is_fresh (newest_fetched_at (get_all_snapshots store account)) seen
    then (store, ClaimOutcome.fresh)
    else (store', (if changed then ClaimOutcome.claimed else ClaimOutcome.taken))

unfoldable pub get_poll_claim : Store → Text → Option PollClaimRow
get_poll_claim store account = find (λ row. text_eq row.account_id account) store.poll_claims

-- The `WHERE` of `releasePollStmt`.
unfoldable pub is_claim : Text → Text → ℕ → PollClaimRow → Bool
is_claim account holder at row =
    text_eq row.account_id account && (text_eq row.holder_id holder && (row.claimed_at == at))

unfoldable pub release_poll_claim : Store → Text → Text → ℕ → Store
unfolding is_claim
release_poll_claim store account holder at = record store {
  poll_claims = filter (λ row. not (is_claim account holder at row)) store.poll_claims;
}

-- `claim && claim.holder_id === holderId && claim.claimed_at === claimedAt`.
unfoldable pub shows : Option PollClaimRow → Text → ℕ → Bool
shows none holder at = false
shows (some row) holder at = text_eq row.holder_id holder && (row.claimed_at == at)

pub write_claimed : Store → Text → Text → ℕ → Option (List (Text × BucketReading)) → Store × Bool
unfolding shows
write_claimed store account holder at none = (store, false)
write_claimed store account holder at (some readings) =
    if shows (get_poll_claim store account) holder at
    then (upsert_all store account readings, true)
    else (store, false)

-- `completePoll`: Rule W and the release, one transaction.
unfoldable pub complete_poll :
    Store → Text → Text → ℕ → Option (List (Text × BucketReading)) → Store × Bool
unfolding write_claimed
complete_poll store account holder at readings =
    let (store', wrote) = write_claimed store account holder at readings in
    (release_poll_claim store' account holder at, wrote)
