-- ===== src/Store/Polls/Laws.antt =====
-- src/store.ts: what a claim on polling is good for, and Rule W.
use mathlib.Core.Option.{some-injective}
use qlb.Base.{
  ℕ, ◌+◌, ◌==◌, ◌≤◌, ◌<◌, ◌≡◌, ◌≢◌, ◌⊎◌, refl, sym, ◌∙◌, inl, inr, true, false, not, ◌&&◌, Option,
  none, some, List, [], ◌∷◌, Text, text_eq, text_eq_iff, text_eq_refl, find, filter, leb,
  Bool-cases, arith,
}
use qlb.Types.{BucketReading}
use qlb.Store.{Store, PollClaimRow}
use qlb.Store.Polls.{
  claim_rows, claim_poll, get_poll_claim, is_claim, release_poll_claim, shows, write_claimed,
  complete_poll, upsert_all, upsert_snapshot,
}

abbrev pub claim_in : Text → List PollClaimRow → Option PollClaimRow
claim_in account rows = find (λ row. text_eq row.account_id account) rows

-- No claim, or one that has run out.
unfoldable pub Free : Option PollClaimRow → ℕ → Type 0
Free none now = Unit
Free (some row) now = row.until ≤ now

pub claim_rows-Free :
    (new : PollClaimRow) (rows : List PollClaimRow)
    → Free (claim_in new.account_id rows) new.claimed_at
    → ((claim_rows new rows).1 ≡ true)
      × (claim_in new.account_id (claim_rows new rows).0 ≡ some new)
unfolding claim_rows Free
claim_rows-Free new [] free = (refl, rw (text_eq_refl new.account_id))
claim_rows-Free new (row ∷ rest) free = elim (Bool-cases (text_eq row.account_id new.account_id)) [
  | inr other ↦ let (t, e) = claim_rows-Free new rest (rw other at free) in rw other (t, rw other e)
  | inl same ↦
      let late : leb row.until new.claimed_at ≡ true = ran_out (rw same at free) in
      rw (same, late) (refl, rw (text_eq_refl new.account_id))
]
  where
    ran_out : {a b : ℕ} → a ≤ b → leb a b ≡ true
    ran_out le = ground arith

pub claim_rows-held :
    (new row : PollClaimRow) (rows : List PollClaimRow)
    → claim_in new.account_id rows ≡ some row
    → new.claimed_at < row.until
    → claim_rows new rows ≡ (rows, false)
unfolding claim_rows
claim_rows-held new row [] e lt = cc
claim_rows-held new row (r ∷ rest) e lt = elim (Bool-cases (text_eq r.account_id new.account_id)) [
  | inr other ↦ rw other (rw (claim_rows-held new row rest (rw other at e) lt))
  | inl same ↦
      let is : r ≡ row = some-injective r row (rw same at e) in
      let live : leb r.until new.claimed_at ≡ false = still (rw (sym is) at lt) in rw (same, live)
]
  where
    still : {a b : ℕ} → a < b → leb b a ≡ false
    still lt = ground arith

pub claim_rows-other :
    (new : PollClaimRow) (rows : List PollClaimRow) (account : Text)
    → new.account_id ≢ account
    → claim_in account (claim_rows new rows).0 ≡ claim_in account rows
unfolding claim_rows
claim_rows-other new [] account ne = elim (Bool-cases (text_eq new.account_id account)) [
  | inl same ↦ absurd (ne ((text_eq_iff new.account_id account).0 same))
  | inr differs ↦ rw differs
]
claim_rows-other new (row ∷ rest) account ne = ground (
  arith,
  claim_rows-other new rest account ne,
  text_eq_iff row.account_id new.account_id,
  text_eq_iff row.account_id account,
  text_eq_iff new.account_id account,
  ne,
)

find-release :
    (account holder : Text) (at : ℕ) (rows : List PollClaimRow)
    → shows (claim_in account (filter (λ row. not (is_claim account holder at row)) rows)) holder at
      ≡ false
unfolding shows is_claim
find-release account holder at [] = refl
find-release account holder at (row ∷ rest) = ground (arith, find-release account holder at rest)

pub find-keep :
    (account holder : Text) (at : ℕ) (rows : List PollClaimRow)
    → shows (claim_in account rows) holder at ≡ false
    → claim_in account (filter (λ row. not (is_claim account holder at row)) rows)
      ≡ claim_in account rows
unfolding shows is_claim
find-keep account holder at [] e = refl
find-keep account holder at (row ∷ rest) e = ground (arith, find-keep account holder at rest, e)

pub find-keep_other :
    (account holder : Text) (at : ℕ) (rows : List PollClaimRow) (other : Text)
    → account ≢ other
    → claim_in other (filter (λ row. not (is_claim account holder at row)) rows)
      ≡ claim_in other rows
unfolding is_claim
find-keep_other account holder at [] other ne = refl
find-keep_other account holder at (row ∷ rest) other ne = ground (
  arith,
  find-keep_other account holder at rest other ne,
  text_eq_iff row.account_id account,
  text_eq_iff row.account_id other,
  ne,
)

unfoldable pub claim_of : Text → ℕ → Text → ℕ → PollClaimRow
claim_of account now holder ttl = record {
  account_id = account;
  holder_id = holder;
  claimed_at = now;
  until = now + ttl;
}

pub Free-or_held :
    (o : Option PollClaimRow) (now : ℕ)
    → Free o now ⊎ ((row : PollClaimRow) × (o ≡ some row) × (now < row.until))
unfolding Free
Free-or_held none now = inl tt
Free-or_held (some row) now = elim (le_or_lt row.until now) [
  | inl le ↦ inl le
  | inr lt ↦ inr (row, refl, lt)
]
  where
    le_or_lt : (a b : ℕ) → (a ≤ b) ⊎ (b < a)
    le_or_lt a b = omega arith

-- A claim is granted exactly where none stands or the standing one has run out; a refused claim
-- changes nothing.
pub claim_poll-cases :
    (store : Store) (now : ℕ) (account holder : Text) (ttl : ℕ)
    → (Free (get_poll_claim store account) now
        × ((claim_poll store now account holder ttl).1 ≡ true)
        × (get_poll_claim (claim_poll store now account holder ttl).0 account
            ≡ some (claim_of account now holder ttl)))
      ⊎ ((row : PollClaimRow) × (get_poll_claim store account ≡ some row)
          × (now < row.until)
          × (claim_poll store now account holder ttl ≡ (store, false)))
unfolding claim_poll get_poll_claim Free claim_of
claim_poll-cases store now account holder ttl =
    let new = claim_of account now holder ttl in
    elim (Free-or_held (claim_in account store.poll_claims) now) [
      | inl free ↦
          let (granted, is) = claim_rows-Free new store.poll_claims free in inl (free, granted, is)
      | inr (row, e, live) ↦
          inr (row, e, live, rw (claim_rows-held new row store.poll_claims e live))
    ]

-- After a release the claim is gone, or another's stands.
pub release-shows :
    (store : Store) (account holder : Text) (at : ℕ)
    → shows (get_poll_claim (release_poll_claim store account holder at) account) holder at ≡ false
unfolding get_poll_claim release_poll_claim
release-shows store account holder at = find-release account holder at store.poll_claims

pub release-keeps :
    (store : Store) (account holder : Text) (at : ℕ)
    → shows (get_poll_claim store account) holder at ≡ false
    → get_poll_claim (release_poll_claim store account holder at) account
      ≡ get_poll_claim store account
unfolding get_poll_claim release_poll_claim
release-keeps store account holder at e = find-keep account holder at store.poll_claims e

pub upsert_all-claims :
    (store : Store) (account : Text) (readings : List (Text × BucketReading))
    → (upsert_all store account readings).poll_claims ≡ store.poll_claims
unfolding upsert_all upsert_snapshot
upsert_all-claims store account [] = refl
upsert_all-claims store account ((bucket, r) ∷ rest) =
    upsert_all-claims (upsert_snapshot store account bucket r) account rest

-- Rule W: a result is written where the claim it was fetched under still stands, and dropped where
-- it does not; a claim that has taken its place is kept.
pub complete_poll-cases :
    (store : Store) (account holder : Text) (at : ℕ) (readings : List (Text × BucketReading))
    → let (store', wrote) = complete_poll store account holder at (some readings) in
      ((shows (get_poll_claim store account) holder at ≡ true)
        × (wrote ≡ true)
        × (store'.snapshots ≡ (upsert_all store account readings).snapshots)
        × (shows (get_poll_claim store' account) holder at ≡ false))
      ⊎ ((shows (get_poll_claim store account) holder at ≡ false)
          × (wrote ≡ false)
          × (store'.snapshots ≡ store.snapshots)
          × (get_poll_claim store' account ≡ get_poll_claim store account))
unfolding complete_poll write_claimed release_poll_claim get_poll_claim
complete_poll-cases store account holder at readings =
    elim (Bool-cases (shows (claim_in account store.poll_claims) holder at)) [
      | inl mine ↦ inl (
        mine,
        rw mine refl,
        rw mine refl,
        rw mine (find-release account holder at (upsert_all store account readings).poll_claims),
      )
      | inr gone ↦ inr (
        gone,
        rw gone refl,
        rw gone refl,
        rw gone (find-keep account holder at store.poll_claims gone),
      )
    ]

pub claim_poll-snapshots :
    (store : Store) (now : ℕ) (account holder : Text) (ttl : ℕ)
    → (claim_poll store now account holder ttl).0.snapshots ≡ store.snapshots
unfolding claim_poll
claim_poll-snapshots store now account holder ttl = refl

-- A holder whose claim has run out and been taken over by another writes nothing, and the other's
-- claim stands.
pub complete_poll-taken_over :
    (store : Store) (account first second : Text) (at now ttl : ℕ)
    (readings : List (Text × BucketReading))
    → first ≢ second
    → (claim_poll store now account second ttl).1 ≡ true
    → let taken = (claim_poll store now account second ttl).0 in
      let (store', wrote) = complete_poll taken account first at (some readings) in
      (wrote ≡ false)
      × (store'.snapshots ≡ store.snapshots)
      × (get_poll_claim store' account ≡ some (claim_of account now second ttl))
unfolding shows claim_of
complete_poll-taken_over store account first second at now ttl readings differ granted =
    elim (claim_poll-cases store now account second ttl) [
      | inr (row, e, live, refused) ↦ cc (rw refused at granted)
      | inl (free, _, is) ↦
          elim (complete_poll-cases (claim_poll store now account second ttl).0 account first at
            readings) [
              | inl (mine, _, _, _) ↦ absurd (not_first (rw is at mine))
              | inr (_, wrote, snaps, claim) ↦
                  (wrote, snaps ∙ claim_poll-snapshots store now account second ttl, rw claim is)
            ]
    ]
  where
    not_first : text_eq second first && (now == at) ≡ true → ⊥
    not_first e = ground (arith, text_eq_iff second first, differ, e)
