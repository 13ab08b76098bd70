-- ===== src/Store/Polls/Readings.antt =====
-- src/store.ts: the readings of an account only ever get newer.
use qlb.Base.{
  ℕ, ◌≤◌, ◌≡◌, inl, inr, false, Option, none, some, List, [], ◌∷◌, Text, text_eq, text_eq_iff,
  text_eq_refl, or_else, ltb, if◌then◌else◌, All, Bool-cases, arith,
}
use qlb.Types.{BucketReading}
use qlb.Store.{Store}
use qlb.Store.Config.{lookup, lookup-upsert}
use qlb.Store.Polls.{
  stored, upsert_bucket, get_all_snapshots, get_snapshot, upsert_snapshot, upsert_all,
}

-- A reading is there, fetched at the time or later.
unfoldable pub Since : ℕ → Option BucketReading → Type 0
Since at none = ⊥
Since at (some r) = at ≤ r.fetched_at

-- What stands under a bucket before and after.
unfoldable pub Newer : Option BucketReading → Option BucketReading → Type 0
Newer none new = Unit
Newer (some old) new = Since old.fetched_at new

pub Newer-refl : (o : Option BucketReading) → Newer o o
unfolding Newer Since
Newer-refl none = tt
Newer-refl (some r) = omega arith

Since-Newer : (at : ℕ) (o p : Option BucketReading) → Since at o → Newer o p → Since at p
unfolding Newer Since
Since-Newer at none p s n = absurd s
Since-Newer at (some r) none s n = n
Since-Newer at (some r) (some q) s n = omega arith

pub Newer-trans : (o p q : Option BucketReading) → Newer o p → Newer p q → Newer o q
unfolding Newer
Newer-trans none p q a b = tt
Newer-trans (some r) p q a b = Since-Newer r.fetched_at p q a b

-- The row that an upsert leaves.
abbrev merged : BucketReading → BucketReading → BucketReading
merged old r = if ltb old.fetched_at r.fetched_at then stored r else old

merged-later :
    (old r : BucketReading)
    → (old.fetched_at ≤ (merged old r).fetched_at) × (r.fetched_at ≤ (merged old r).fetched_at)
unfolding stored
merged-later old r = elim (Bool-cases (ltb old.fetched_at r.fetched_at)) [
  | inl new ↦ rw new (ground arith)
  | inr same ↦ rw same (ground arith)
]

upsert_bucket-Newer :
    (bucket key : Text) (r : BucketReading) (rows : List (Text × BucketReading))
    → Newer (lookup key rows) (lookup key (upsert_bucket bucket r rows))
unfolding lookup upsert_bucket Newer Since
upsert_bucket-Newer bucket key r [] = tt
upsert_bucket-Newer bucket key r ((k, old) ∷ rest) = elim (Bool-cases (text_eq k key)) [
  | inl mine ↦ elim (Bool-cases (text_eq k bucket)) [
    | inl same ↦ rw (same, mine) (merged-later old r).0
    | inr other ↦ rw (other, mine) (Newer-refl (some old))
  ]
  | inr no_match ↦ elim (Bool-cases (text_eq k bucket)) [
    | inl same ↦ rw (same, no_match) (Newer-refl (lookup key rest))
    | inr other ↦ rw (other, no_match) (upsert_bucket-Newer bucket key r rest)
  ]
]

upsert_bucket-Since :
    (bucket : Text) (r : BucketReading) (rows : List (Text × BucketReading))
    → Since r.fetched_at (lookup bucket (upsert_bucket bucket r rows))
unfolding lookup upsert_bucket Since stored
upsert_bucket-Since bucket r [] = rw (text_eq_refl bucket) (ground arith)
upsert_bucket-Since bucket r ((k, old) ∷ rest) = elim (Bool-cases (text_eq k bucket)) [
  | inl same ↦ rw same (rw same (merged-later old r).1)
  | inr other ↦ rw other (rw other (upsert_bucket-Since bucket r rest))
]

get_snapshot-upsert :
    (store : Store) (id bucket : Text) (r : BucketReading)
    → get_all_snapshots (upsert_snapshot store id bucket r) id
      ≡ upsert_bucket bucket r (get_all_snapshots store id)
unfolding get_all_snapshots upsert_snapshot
get_snapshot-upsert store id bucket r = rw (
  lookup-upsert id id (upsert_bucket bucket r (or_else (lookup id store.snapshots) []))
      store.snapshots,
  text_eq_refl id,
)

untouched_snapshots :
    (store : Store) (id id' bucket : Text) (r : BucketReading)
    → text_eq id id' ≡ false
    → get_all_snapshots (upsert_snapshot store id bucket r) id' ≡ get_all_snapshots store id'
unfolding get_all_snapshots upsert_snapshot
untouched_snapshots store id id' bucket r other = rw (
  lookup-upsert id id' (upsert_bucket bucket r (or_else (lookup id store.snapshots) []))
      store.snapshots,
  other,
)

landed :
    (store : Store) (id bucket : Text) (r : BucketReading)
    → Since r.fetched_at (get_snapshot (upsert_snapshot store id bucket r) id bucket)
unfolding get_snapshot
landed store id bucket r =
    rw (get_snapshot-upsert store id bucket r)
      (upsert_bucket-Since bucket r (get_all_snapshots store id))

upsert_snapshot-Newer :
    (store : Store) (id bucket : Text) (r : BucketReading) (id' key : Text)
    → Newer (get_snapshot store id' key) (get_snapshot (upsert_snapshot store id bucket r) id' key)
unfolding get_snapshot
upsert_snapshot-Newer store id bucket r id' key = elim (Bool-cases (text_eq id id')) [
  | inl same ↦
      let is = (text_eq_iff id id').0 same in
      rw (← is) (
        rw (get_snapshot-upsert store id bucket r)
          (upsert_bucket-Newer bucket key r (get_all_snapshots store id)))
  | inr other ↦
      rw (untouched_snapshots store id id' bucket r other)
        (Newer-refl (lookup key (get_all_snapshots store id')))
]

-- Writing readings never puts an older reading in the place of a newer one, for any account and
-- bucket.
pub upsert_all-Newer :
    (store : Store) (id : Text) (readings : List (Text × BucketReading)) (id' key : Text)
    → Newer (get_snapshot store id' key) (get_snapshot (upsert_all store id readings) id' key)
unfolding upsert_all
upsert_all-Newer store id [] id' key = Newer-refl (get_snapshot store id' key)
upsert_all-Newer store id ((bucket, r) ∷ rest) id' key =
    let one = upsert_snapshot store id bucket r in
    Newer-trans (get_snapshot store id' key) (get_snapshot one id' key)
      (get_snapshot (upsert_all one id rest) id' key)
      (upsert_snapshot-Newer store id bucket r id' key) (upsert_all-Newer one id rest id' key)

-- Each reading that was written is there, or a newer one.
pub upsert_all-Since :
    (store : Store) (id : Text) (readings : List (Text × BucketReading))
    → All
        (λ entry. Since entry.1.fetched_at (get_snapshot (upsert_all store id readings) id entry.0))
        readings
unfolding upsert_all
upsert_all-Since store id [] = tt
upsert_all-Since store id ((bucket, r) ∷ rest) =
    let one = upsert_snapshot store id bucket r in
    (
      Since-Newer r.fetched_at (get_snapshot one id bucket)
          (get_snapshot (upsert_all one id rest) id bucket) (landed store id bucket r)
          (upsert_all-Newer one id rest id bucket),
      upsert_all-Since one id rest,
    )
