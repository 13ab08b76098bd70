-- ===== src/Store/Polls/Newest.antt =====
-- src/store.ts: along a run, the readings of an account that is not deleted only get newer.
use qlb.Base.{
  ℕ, ◌≡◌, ◌≢◌, refl, inl, inr, Bool-cases, Option, none, some, List, [], ◌∷◌, Text, All, or_else,
}
use qlb.Types.{BucketReading}
use qlb.Store.{Store}
use qlb.Store.Config.{lookup}
use qlb.Store.Deletes.{delete_account_cascade, lookup-delete_key}
use qlb.Store.Polls.{
  claim_poll, claim_poll_or_fresh, get_poll_claim, release_poll_claim, shows, write_claimed,
  complete_poll, get_snapshot, get_all_snapshots, newest_fetched_at, is_fresh,
}
use qlb.Store.Polls.Laws.{claim_poll-snapshots}
use qlb.Store.Polls.Readings.{Newer, Newer-refl, Newer-trans, upsert_all-Newer}
use qlb.Store.Polls.Actions.{Action, act, run}

-- An action that does not delete an account.
abbrev pub Spares : Text → Action → Type 0
Spares id (Action.deletes account) = account ≢ id
Spares id _ = Unit

same_readings :
    (s t : Store) (account bucket : Text)
    → t.snapshots ≡ s.snapshots
    → Newer (get_snapshot s account bucket) (get_snapshot t account bucket)
unfolding get_snapshot get_all_snapshots
same_readings s t account bucket e =
    rw e (Newer-refl (lookup bucket (or_else (lookup account s.snapshots) [])))

write_claimed-Newer :
    (s : Store) (account holder : Text) (at : ℕ) (readings : Option (List (Text × BucketReading)))
    (other bucket : Text)
    → Newer
        (get_snapshot s other bucket)
        (get_snapshot (write_claimed s account holder at readings).0 other bucket)
unfolding write_claimed
write_claimed-Newer s account holder at none other bucket = same_readings s s other bucket refl
write_claimed-Newer s account holder at (some readings) other bucket =
    elim (Bool-cases (shows (get_poll_claim s account) holder at)) [
      | inl mine ↦ rw mine (upsert_all-Newer s account readings other bucket)
      | inr gone ↦ rw gone (same_readings s s other bucket refl)
    ]

deleted-Newer :
    (s : Store) (account other bucket : Text)
    → account ≢ other
    → Newer
        (get_snapshot s other bucket)
        (get_snapshot (delete_account_cascade s account) other bucket)
unfolding get_snapshot get_all_snapshots delete_account_cascade
deleted-Newer s account other bucket ne =
    rw (lookup-delete_key account other s.snapshots ne)
      (Newer-refl (lookup bucket (or_else (lookup other s.snapshots) [])))

unless_fresh-Newer :
    (s : Store) (now : ℕ) (account holder : Text) (ttl : ℕ) (seen : Option ℕ) (id bucket : Text)
    → Newer
        (get_snapshot s id bucket)
        (get_snapshot (claim_poll_or_fresh s now account holder ttl seen).0 id bucket)
unfolding claim_poll_or_fresh
unless_fresh-Newer s now account holder ttl seen id bucket =
    elim (Bool-cases (is_fresh (newest_fetched_at (get_all_snapshots s account)) seen)) [
      | inl known ↦ rw known (same_readings s s id bucket refl)
      | inr old ↦ rw old (
          same_readings s (claim_poll s now account holder ttl).0 id bucket
            (claim_poll-snapshots s now account holder ttl))
    ]

act-Newer :
    (s : Store) (a : Action) (id bucket : Text)
    → Spares id a
    → Newer (get_snapshot s id bucket) (get_snapshot (act a s) id bucket)
unfolding act complete_poll release_poll_claim get_snapshot get_all_snapshots
act-Newer s (Action.claims now account holder ttl) id bucket spares =
    same_readings s (claim_poll s now account holder ttl).0 id bucket
      (claim_poll-snapshots s now account holder ttl)
act-Newer s (Action.claims_unless_fresh now account holder ttl seen) id bucket spares =
    unless_fresh-Newer s now account holder ttl seen id bucket
act-Newer s (Action.releases account holder at) id bucket spares =
    same_readings s (release_poll_claim s account holder at) id bucket refl
act-Newer s (Action.completes account holder at readings) id bucket spares =
    write_claimed-Newer s account holder at readings id bucket
act-Newer s (Action.records account readings) id bucket spares =
    upsert_all-Newer s account readings id bucket
act-Newer s (Action.deletes account) id bucket spares = deleted-Newer s account id bucket spares

-- Along any run of claims, releases, completions, recordings and deletions, in any order and by any
-- processes, no reading of an account that none of them deletes is lost or replaced by an older one.
pub run-Newer :
    (actions : List Action) (s : Store) (id bucket : Text)
    → All (Spares id) actions
    → Newer (get_snapshot s id bucket) (get_snapshot (run actions s) id bucket)
unfolding run
run-Newer [] s id bucket spares = Newer-refl (get_snapshot s id bucket)
run-Newer (a ∷ rest) s id bucket (first, later) =
    Newer-trans (get_snapshot s id bucket) (get_snapshot (act a s) id bucket)
      (get_snapshot (run rest (act a s)) id bucket) (act-Newer s a id bucket first)
      (run-Newer rest (act a s) id bucket later)
