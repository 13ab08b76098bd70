-- ===== src/Store/Polls/Unique.antt =====
-- src/store.ts: an account has at most one claim on polling, whatever is done to the claims.
use qlb.Base.{
  ℕ, ◌≡◌, refl, inl, inr, Bool, true, false, not, none, List, [], ◌∷◌, Text, text_eq, text_eq_iff,
  filter, leb, Bool-cases, arith,
}
use qlb.Store.{Store, PollClaimRow}
use qlb.Store.Polls.{claim_rows, is_claim, release_poll_claim, shows}
use qlb.Store.Polls.Laws.{claim_in}

-- `account_id` is a primary key.
unfoldable pub Unique : List PollClaimRow → Type 0
Unique [] = Unit
Unique (row ∷ rest) = (claim_in row.account_id rest ≡ none) × Unique rest

claim_rows-none :
    (new : PollClaimRow) (rows : List PollClaimRow) (account : Text)
    → text_eq new.account_id account ≡ false
    → claim_in account rows ≡ none
    → claim_in account (claim_rows new rows).0 ≡ none
unfolding claim_rows
claim_rows-none new [] account ne e = rw ne
claim_rows-none new (row ∷ rest) account ne e = ground (
  arith,
  claim_rows-none new rest account ne,
  e,
  text_eq_iff row.account_id new.account_id,
  text_eq_iff row.account_id account,
  text_eq_iff new.account_id account,
)

pub claim_rows-Unique :
    (new : PollClaimRow) (rows : List PollClaimRow) → Unique rows → Unique (claim_rows new rows).0
unfolding claim_rows Unique
claim_rows-Unique new [] u = (refl, tt)
claim_rows-Unique new (row ∷ rest) (fresh, u) =
    elim (Bool-cases (text_eq row.account_id new.account_id)) [
      | inr other ↦ rw other (
        claim_rows-none new rest row.account_id (flipped other) fresh,
        claim_rows-Unique new rest u,
      )
      | inl same ↦ elim (Bool-cases (leb row.until new.claimed_at)) [
        | inl late ↦
            rw (same, late) (rw (← (text_eq_iff row.account_id new.account_id).0 same) fresh, u)
        | inr live ↦ rw (same, live) (fresh, u)
      ]
    ]
  where
    flipped :
        text_eq row.account_id new.account_id ≡ false
        → text_eq new.account_id row.account_id ≡ false
    flipped e = ground (
      arith,
      text_eq_iff row.account_id new.account_id,
      text_eq_iff new.account_id row.account_id,
      e,
    )

pub filter-none :
    (p : PollClaimRow → Bool) (rows : List PollClaimRow) (account : Text)
    → claim_in account rows ≡ none
    → claim_in account (filter p rows) ≡ none
filter-none p [] account e = refl
filter-none p (row ∷ rest) account e = ground (arith, filter-none p rest account, e)

pub filter-Unique :
    (p : PollClaimRow → Bool) (rows : List PollClaimRow) → Unique rows → Unique (filter p rows)
unfolding Unique
filter-Unique p [] u = tt
filter-Unique p (row ∷ rest) (fresh, u) = elim (Bool-cases (p row)) [
  | inl kept ↦ rw kept (filter-none p rest row.account_id fresh, filter-Unique p rest u)
  | inr dropped ↦ rw dropped (filter-Unique p rest u)
]

pub release-gone :
    (account holder : Text) (at : ℕ) (rows : List PollClaimRow)
    → Unique rows
    → shows (claim_in account rows) holder at ≡ true
    → claim_in account (filter (λ row. not (is_claim account holder at row)) rows) ≡ none
unfolding Unique shows is_claim
release-gone account holder at [] u e = refl
release-gone account holder at (row ∷ rest) (fresh, u) e =
    elim (Bool-cases (text_eq row.account_id account)) [
      | inr other ↦ rw other (rw other (release-gone account holder at rest u (rw other at e)))
      | inl same ↦
          rw (same, (rw same at e))
            (filter-none (λ row. not (is_claim account holder at row)) rest account
              (rw (← (text_eq_iff row.account_id account).0 same) fresh))
    ]

pub release-Unique :
    (s : Store) (account holder : Text) (at : ℕ)
    → Unique s.poll_claims
    → Unique (release_poll_claim s account holder at).poll_claims
unfolding release_poll_claim
release-Unique s account holder at u =
    filter-Unique (λ row. not (is_claim account holder at row)) s.poll_claims u
