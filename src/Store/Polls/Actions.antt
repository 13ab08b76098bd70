-- ===== src/Store/Polls/Actions.antt =====
-- src/store.ts: the transactions on the claims and the readings, as actions of a process, and the lock
-- with a time limit that they make of the claim on an account.
use qlb.Base.{ℕ, ◌<◌, ◌≡◌, ◌≢◌, true, false, Option, none, some, List, [], ◌∷◌, Text}
use qlb.Types.{BucketReading}
use qlb.Store.{Store, PollClaimRow}
use qlb.Store.Deletes.{delete_account_cascade}
use qlb.Store.Polls.{
  claim_poll, claim_poll_or_fresh, release_poll_claim, shows, complete_poll, upsert_all,
}
use qlb.Store.Polls.Laws.{Free, claim_of}

-- What a process does: `claimPoll`, `claimPollOrFresh`, `releasePollClaim`, `completePoll`, `upsertAll`
-- and `deleteAccountCascade`, with which `pruneAccountIfUnowned` ends where it does not refuse. The
-- moves of rows to another account's id (src/codex-rekey.ts) are left out.
pub data Action : Type 0 where
  claims : (now : ℕ) (account holder : Text) (ttl : ℕ) → Action
  claims_unless_fresh : (now : ℕ) (account holder : Text) (ttl : ℕ) (seen : Option ℕ) → Action
  releases : (account holder : Text) (at : ℕ) → Action
  completes :
      (account holder : Text) (at : ℕ) (readings : Option (List (Text × BucketReading))) → Action
  records : (account : Text) (readings : List (Text × BucketReading)) → Action
  deletes : (account : Text) → Action

unfoldable pub act : Action → Store → Store
act (Action.claims now account holder ttl) s = (claim_poll s now account holder ttl).0
act (Action.claims_unless_fresh now account holder ttl seen) s =
    (claim_poll_or_fresh s now account holder ttl seen).0
act (Action.releases account holder at) s = release_poll_claim s account holder at
act (Action.completes account holder at readings) s = (complete_poll s account holder at readings).0
act (Action.records account readings) s = upsert_all s account readings
act (Action.deletes account) s = delete_account_cascade s account

-- A run: actions of any processes, in the order in which the store takes them.
unfoldable pub run : List Action → Store → Store
run [] s = s
run (a ∷ rest) s = run rest (act a s)

abbrev pub account_of : Action → Text
account_of (Action.claims now account holder ttl) = account
account_of (Action.claims_unless_fresh now account holder ttl seen) = account
account_of (Action.releases account holder at) = account
account_of (Action.completes account holder at readings) = account
account_of (Action.records account readings) = account
account_of (Action.deletes account) = account

-- What an action makes of the lock of an account, whose holder is `o`: it is taken where it is free or
-- has run out, and left to its holder else; it is given back by the claim that holds it, and by no
-- other; it goes with the account, and what another account meets leaves it alone.
pub data LockStep (account : Text) (o : Option PollClaimRow)
    : Action → Option PollClaimRow → Type 0 where
  elsewhere : {a : Action} → account_of a ≢ account → LockStep account o a o
  taken :
      (now : ℕ) (holder : Text) (ttl : ℕ)
      → Free o now
      → LockStep account o
          (Action.claims now account holder ttl)
          (some (claim_of account now holder ttl))
  refused :
      (now : ℕ) (holder : Text) (ttl : ℕ) (row : PollClaimRow)
      → o ≡ some row
      → now < row.until
      → LockStep account o (Action.claims now account holder ttl) o
  read_instead :
      (now : ℕ) (holder : Text) (ttl : ℕ) (seen : Option ℕ)
      → LockStep account o (Action.claims_unless_fresh now account holder ttl seen) o
  not_fresh :
      {p : Option PollClaimRow} (now : ℕ) (holder : Text) (ttl : ℕ) (seen : Option ℕ)
      → LockStep account o (Action.claims now account holder ttl) p
      → LockStep account o (Action.claims_unless_fresh now account holder ttl seen) p
  given_back :
      (holder : Text) (at : ℕ)
      → shows o holder at ≡ true
      → LockStep account o (Action.releases account holder at) none
  not_held :
      (holder : Text) (at : ℕ)
      → shows o holder at ≡ false
      → LockStep account o (Action.releases account holder at) o
  completed :
      {p : Option PollClaimRow} (holder : Text) (at : ℕ)
      (readings : Option (List (Text × BucketReading)))
      → LockStep account o (Action.releases account holder at) p
      → LockStep account o (Action.completes account holder at readings) p
  recorded :
      (readings : List (Text × BucketReading))
      → LockStep account o (Action.records account readings) o
  deleted : LockStep account o (Action.deletes account) none
