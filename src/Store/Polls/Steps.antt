-- ===== src/Store/Polls/Steps.antt =====
-- src/store.ts: the claims on polling implement, for each account, a lock with a time limit.
use qlb.Base.{
  ℕ, ◌≡◌, ◌≢◌, ◌⊎◌, refl, subst, inl, inr, not, Option, none, some, List, [], ◌∷◌, Text, text_eq,
  text_eq_iff, text_eq_refl, filter, Bool-cases, arith,
}
use qlb.Types.{BucketReading}
use qlb.Store.{Store, PollClaimRow}
use qlb.Store.Deletes.{delete_account_cascade}
use qlb.Store.Polls.{
  claim_poll, claim_poll_or_fresh, get_poll_claim, is_claim, release_poll_claim, shows,
  write_claimed, complete_poll, upsert_all, get_all_snapshots, newest_fetched_at, is_fresh,
}
use qlb.Store.Polls.Laws.{
  claim_of, claim_in, claim_rows-Free, claim_rows-held, claim_rows-other, Free-or_held, find-keep,
  find-keep_other, upsert_all-claims,
}
use qlb.Store.Polls.Actions.{Action, act, account_of, LockStep}
use qlb.Store.Polls.Unique.{Unique, claim_rows-Unique, filter-Unique, release-Unique, release-gone}

same_or_not : (a b : Text) → (a ≡ b) ⊎ (a ≢ b)
same_or_not a b = elim (Bool-cases (text_eq a b)) [
  | inl same ↦ inl ((text_eq_iff a b).0 same)
  | inr other ↦ inr (λ e. cc (rw (e, text_eq_refl b) at other))
]

eq-elsewhere :
    {account : Text} {o p : Option PollClaimRow} {a : Action}
    → p ≡ o
    → account_of a ≢ account
    → LockStep account o a p
eq-elsewhere e ne = rw e (LockStep.elsewhere ne)

claim-other :
    (s : Store) (now : ℕ) (account holder : Text) (ttl : ℕ) (other : Text)
    → account ≢ other
    → get_poll_claim (claim_poll s now account holder ttl).0 other ≡ get_poll_claim s other
unfolding claim_poll get_poll_claim claim_of
claim-other s now account holder ttl other ne =
    claim_rows-other (claim_of account now holder ttl) s.poll_claims other ne

claim-lock :
    (s : Store) (now : ℕ) (account holder : Text) (ttl : ℕ) (other : Text)
    → LockStep other
        (get_poll_claim s other)
        (Action.claims now account holder ttl)
        (get_poll_claim (claim_poll s now account holder ttl).0 other)
unfolding claim_poll get_poll_claim claim_of
claim-lock s now account holder ttl other =
    let new = claim_of account now holder ttl in
    elim (same_or_not account other) [
      | inr ne ↦ eq-elsewhere (claim-other s now account holder ttl other ne) ne
      | inl same ↦ rw (← same) (elim (Free-or_held (claim_in account s.poll_claims) now) [
        | inl free ↦
            rw (claim_rows-Free new s.poll_claims free).1 (LockStep.taken now holder ttl free)
        | inr (row, e, live) ↦
            rw (claim_rows-held new row s.poll_claims e live)
              (LockStep.refused now holder ttl row e live)
      ])
    ]

claim_unless_fresh-lock :
    (s : Store) (now : ℕ) (account holder : Text) (ttl : ℕ) (seen : Option ℕ) (other : Text)
    → LockStep other
        (get_poll_claim s other)
        (Action.claims_unless_fresh now account holder ttl seen)
        (get_poll_claim (claim_poll_or_fresh s now account holder ttl seen).0 other)
unfolding claim_poll_or_fresh
claim_unless_fresh-lock s now account holder ttl seen other = elim (same_or_not account other) [
  | inr ne ↦ elim (Bool-cases (is_fresh (newest_fetched_at (get_all_snapshots s account)) seen)) [
    | inl known ↦ rw known (LockStep.elsewhere ne)
    | inr old ↦ rw old (eq-elsewhere (claim-other s now account holder ttl other ne) ne)
  ]
  | inl same ↦
      rw (← same)
        (elim (Bool-cases (is_fresh (newest_fetched_at (get_all_snapshots s account)) seen)) [
          | inl known ↦ rw known (LockStep.read_instead now holder ttl seen)
          | inr old ↦
              rw old (
                LockStep.not_fresh now holder ttl seen
                  (claim-lock s now account holder ttl account))
        ])
]

release-lock :
    (s : Store) (account holder : Text) (at : ℕ) (other : Text)
    → Unique s.poll_claims
    → LockStep other
        (get_poll_claim s other)
        (Action.releases account holder at)
        (get_poll_claim (release_poll_claim s account holder at) other)
unfolding get_poll_claim release_poll_claim
release-lock s account holder at other u = elim (same_or_not account other) [
  | inr ne ↦ eq-elsewhere (find-keep_other account holder at s.poll_claims other ne) ne
  | inl same ↦ rw (← same) (elim (Bool-cases (shows (claim_in account s.poll_claims) holder at)) [
    | inl mine ↦
        rw (release-gone account holder at s.poll_claims u mine)
          (LockStep.given_back holder at mine)
    | inr gone ↦
        rw (find-keep account holder at s.poll_claims gone) (LockStep.not_held holder at gone)
  ])
]

write_claimed-claims :
    (s : Store) (account holder : Text) (at : ℕ) (readings : Option (List (Text × BucketReading)))
    → (write_claimed s account holder at readings).0.poll_claims ≡ s.poll_claims
unfolding write_claimed
write_claimed-claims s account holder at none = refl
write_claimed-claims s account holder at (some readings) =
    elim (Bool-cases (shows (get_poll_claim s account) holder at)) [
      | inl mine ↦ rw mine (upsert_all-claims s account readings)
      | inr gone ↦ rw gone refl
    ]

complete-lock :
    (s : Store) (account holder : Text) (at : ℕ) (readings : Option (List (Text × BucketReading)))
    (other : Text)
    → Unique s.poll_claims
    → LockStep other
        (get_poll_claim s other)
        (Action.completes account holder at readings)
        (get_poll_claim (complete_poll s account holder at readings).0 other)
unfolding complete_poll get_poll_claim release_poll_claim
complete-lock s account holder at readings other u =
    let mid = (write_claimed s account holder at readings).0 in
    let same = write_claimed-claims s account holder at readings in
    elim (same_or_not account other) [
      | inr ne ↦ eq-elsewhere (completed_other mid.poll_claims same ne) ne
      | inl is ↦ rw (← is) (
          LockStep.completed holder at readings (
            subst
              (λ rows.
                LockStep account (claim_in account rows) (Action.releases account holder at)
                  (get_poll_claim (release_poll_claim mid account holder at) account))
              same (release-lock mid account holder at account (rw same u))))
    ]
  where
    completed_other :
        (rows : List PollClaimRow)
        → rows ≡ s.poll_claims
        → account ≢ other
        → claim_in other (filter (λ row. not (is_claim account holder at row)) rows)
          ≡ claim_in other s.poll_claims
    completed_other rows same ne = rw (← same) (find-keep_other account holder at rows other ne)

delete-gone :
    (account : Text) (rows : List PollClaimRow)
    → claim_in account (filter (λ row. not (text_eq row.account_id account)) rows) ≡ none
delete-gone account [] = refl
delete-gone account (row ∷ rest) = elim (Bool-cases (text_eq row.account_id account)) [
  | inl mine ↦ rw mine (delete-gone account rest)
  | inr other ↦ rw other (rw other (delete-gone account rest))
]

delete-other :
    (account other : Text) (rows : List PollClaimRow)
    → account ≢ other
    → claim_in other (filter (λ row. not (text_eq row.account_id account)) rows)
      ≡ claim_in other rows
delete-other account other [] ne = refl
delete-other account other (row ∷ rest) ne = ground (
  arith,
  delete-other account other rest ne,
  text_eq_iff row.account_id account,
  text_eq_iff row.account_id other,
  ne,
)

delete-lock :
    (s : Store) (account other : Text)
    → LockStep other
        (get_poll_claim s other)
        (Action.deletes account)
        (get_poll_claim (delete_account_cascade s account) other)
unfolding delete_account_cascade get_poll_claim
delete-lock s account other = elim (same_or_not account other) [
  | inr ne ↦ eq-elsewhere (delete-other account other s.poll_claims ne) ne
  | inl same ↦ rw (← same) (rw (delete-gone account s.poll_claims) LockStep.deleted)
]

record-lock :
    (s : Store) (account : Text) (readings : List (Text × BucketReading)) (other : Text)
    → LockStep other
        (get_poll_claim s other)
        (Action.records account readings)
        (get_poll_claim (upsert_all s account readings) other)
unfolding get_poll_claim
record-lock s account readings other = elim (same_or_not account other) [
  | inr ne ↦ rw (upsert_all-claims s account readings) (LockStep.elsewhere ne)
  | inl same ↦ rw (← same, upsert_all-claims s account readings) (LockStep.recorded readings)
]

unless_fresh-Unique :
    (s : Store) (now : ℕ) (account holder : Text) (ttl : ℕ) (seen : Option ℕ)
    → Unique s.poll_claims
    → Unique (claim_poll_or_fresh s now account holder ttl seen).0.poll_claims
unfolding claim_poll_or_fresh claim_poll claim_of
unless_fresh-Unique s now account holder ttl seen u =
    elim (Bool-cases (is_fresh (newest_fetched_at (get_all_snapshots s account)) seen)) [
      | inl known ↦ rw known u
      | inr old ↦ rw old (claim_rows-Unique (claim_of account now holder ttl) s.poll_claims u)
    ]

act-Unique : (s : Store) (a : Action) → Unique s.poll_claims → Unique (act a s).poll_claims
unfolding act claim_poll claim_of complete_poll delete_account_cascade
act-Unique s (Action.claims now account holder ttl) u =
    claim_rows-Unique (claim_of account now holder ttl) s.poll_claims u
act-Unique s (Action.claims_unless_fresh now account holder ttl seen) u =
    unless_fresh-Unique s now account holder ttl seen u
act-Unique s (Action.releases account holder at) u = release-Unique s account holder at u
act-Unique s (Action.completes account holder at readings) u =
    release-Unique (write_claimed s account holder at readings).0 account holder at
      (rw (write_claimed-claims s account holder at readings) u)
act-Unique s (Action.records account readings) u = rw (upsert_all-claims s account readings) u
act-Unique s (Action.deletes account) u =
    filter-Unique (λ row. not (text_eq row.account_id account)) s.poll_claims u

-- The claims implement the lock: where each account has at most one claim, every claim, release,
-- completion, recording and deletion is, for each account, the step of its lock that the action and the
-- lock's holder allow, and each account still has at most one claim. So a claim that stands is given
-- back by its own holder and time, or run out and taken, or deleted with its account, and goes in no
-- other way.
pub act-LockStep :
    (s : Store) (a : Action) (account : Text)
    → Unique s.poll_claims
    → Unique (act a s).poll_claims
      × LockStep account (get_poll_claim s account) a (get_poll_claim (act a s) account)
act-LockStep s a account u = (act-Unique s a u, lock a)
  where
    lock :
        (b : Action)
        → LockStep account (get_poll_claim s account) b (get_poll_claim (act b s) account)
    lock (Action.claims now acc holder ttl) = unfold act in claim-lock s now acc holder ttl account
    lock (Action.claims_unless_fresh now acc holder ttl seen) =
        unfold act in claim_unless_fresh-lock s now acc holder ttl seen account
    lock (Action.releases acc holder at) = unfold act in release-lock s acc holder at account u
    lock (Action.completes acc holder at readings) =
        unfold act in complete-lock s acc holder at readings account u
    lock (Action.records acc readings) = unfold act in record-lock s acc readings account
    lock (Action.deletes acc) = unfold act in delete-lock s acc account
