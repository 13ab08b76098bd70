-- ===== src/Resolve/Resets.antt =====
-- `findEarliestReset`: the least reset of all readings that have one.
use mathlib.Core.Option.{some-injective}
use qlb.Base.{
  ℕ, ◌≤◌, ◌≡◌, refl, sym, ap, ◌∙◌, ◌⊎◌, inl, inr, Option, none, some, List, [], ◌∷◌, Memᴰ, Text,
  ltb, Bool-cases, arith,
}
use qlb.Types.{BucketReading, AccountSnapshot}
use qlb.Resolve.{
  EarliestReset, earlier_reset, earlier_of_buckets, earliest_loop, find_earliest_reset,
}

-- A reset of a reading of a snapshot of the list, with its account and its bucket.
pub record IsReset (snapshots : List AccountSnapshot) (c : EarliestReset) : Type 0 where
  pub snap : AccountSnapshot
  pub reading : BucketReading
  pub listed : Memᴰ snap snapshots
  pub bucket : Memᴰ (c.limit_type, reading) snap.buckets
  pub account : c.account_id ≡ snap.account_id
  pub reset : reading.reset_at ≡ some c.at

-- The least of the resets that `Has` describes, or none where there is no such reset.
abbrev pub IsEarliest : (EarliestReset → Type 0) → Option EarliestReset → Type 0
IsEarliest Has none = (c : EarliestReset) → ¬ (Has c)
IsEarliest Has (some r) = Has r × ((c : EarliestReset) → Has c → r.at ≤ c.at)

-- The same for a search that starts with a best reset.
abbrev Outcome : Option EarliestReset → (EarliestReset → Type 0) → Option EarliestReset → Type 0
Outcome best Has none = (best ≡ none) × ((c : EarliestReset) → ¬ (Has c))
Outcome best Has (some r) =
    ((best ≡ some r) ⊎ Has r)
    × ((b : EarliestReset) → best ≡ some b → r.at ≤ b.at)
    × ((c : EarliestReset) → Has c → r.at ≤ c.at)

-- Two searches, one after the other.
Outcome-trans :
    (best mid res : Option EarliestReset) (H1 H2 H : EarliestReset → Type 0)
    → ((c : EarliestReset) → H c → H1 c ⊎ H2 c)
    → ((c : EarliestReset) → H1 c → H c)
    → ((c : EarliestReset) → H2 c → H c)
    → Outcome best H1 mid
    → Outcome mid H2 res
    → Outcome best H res
Outcome-trans best none none H1 H2 H split left right (b, f) (g, h) =
    (b, (λ c k. elim (split c k) [ inl x ↦ f c x | inr y ↦ h c y ]))
Outcome-trans best (some m) none H1 H2 H split left right o (g, h) = cc
Outcome-trans best none (some r) H1 H2 H split left right (b, f) (from, below, all) = (
  elim from [ inl e ↦ cc | inr y ↦ inr (right r y) ],
  (λ x e. cc),
  (λ c k. elim (split c k) [ inl x ↦ absurd (f c x) | inr y ↦ all c y ]),
)
Outcome-trans best (some m) (some r) H1 H2 H split left right (from1, below1, all1)
      (from, below, all) =
    let le = below m refl in
    (
      elim from [
        | inl e ↦
            let same = some-injective m r e in
            elim from1 [ inl e1 ↦ inl (e1 ∙ e) | inr x ↦ inr (left r (rw (← same) x)) ]
        | inr y ↦ inr (right r y)
      ],
      (λ x e. let k = below1 x e in omega arith),
      (λ c k. elim (split c k) [ inl x ↦ let j = all1 c x in omega arith | inr y ↦ all c y ]),
    )

ReadingReset : Text → Text → Option ℕ → EarliestReset → Type 0
ReadingReset id limit o c = (c.account_id ≡ id) × (c.limit_type ≡ limit) × (o ≡ some c.at)

BucketReset : Text → List (Text × BucketReading) → EarliestReset → Type 0
BucketReset id bs c =
    (reading : BucketReading) × Memᴰ (c.limit_type, reading) bs
    × (c.account_id ≡ id)
    × (reading.reset_at ≡ some c.at)

keep_best :
    (H : EarliestReset → Type 0) (b : EarliestReset)
    → ((c : EarliestReset) → H c → b.at ≤ c.at)
    → Outcome (some b) H (some b)
keep_best H b all =
    (inl refl, (λ x e. let k = ap EarliestReset.at (some-injective b x e) in omega arith), all)

earlier_reset-Outcome :
    (id limit : Text) (best : Option EarliestReset) (o : Option ℕ)
    → Outcome best (ReadingReset id limit o) (earlier_reset id limit best o)
unfolding earlier_reset ReadingReset
earlier_reset-Outcome id limit none none = (refl, (λ c k. cc))
earlier_reset-Outcome id limit (some b) none = keep_best _ b (λ c k. cc)
earlier_reset-Outcome id limit none (some t) =
    (inr (refl, refl, refl), (λ b e. cc), (λ c k. let j = some-injective t c.at k.2 in omega arith))
earlier_reset-Outcome id limit (some b) (some t) = elim (Bool-cases (ltb t b.at)) [
  | inl less ↦ rw less (
    inr (refl, refl, refl),
    (λ x e. let k = ap EarliestReset.at (some-injective b x e) in ground arith),
    (λ c k. let j = some-injective t c.at k.2 in omega arith),
  )
  | inr more ↦ rw more (keep_best _ b (λ c k. let j = some-injective t c.at k.2 in ground arith))
]

none_of_nil :
    (best : Option EarliestReset) (H : EarliestReset → Type 0)
    → ((c : EarliestReset) → ¬ (H c))
    → Outcome best H best
none_of_nil none H f = (refl, f)
none_of_nil (some b) H f = keep_best H b (λ c k. absurd (f c k))

earlier_of_buckets-Outcome :
    (id : Text) (best : Option EarliestReset) (bs : List (Text × BucketReading))
    → Outcome best (BucketReset id bs) (earlier_of_buckets id best bs)
unfolding earlier_of_buckets BucketReset ReadingReset
earlier_of_buckets-Outcome id best [] = none_of_nil best _ (λ c k. elim k.1 [ ])
earlier_of_buckets-Outcome id best ((limit, reading) ∷ rest) =
    Outcome-trans best (earlier_reset id limit best reading.reset_at) _
      (ReadingReset id limit reading.reset_at) (BucketReset id rest) _
      (λ c k. split c k.0 k.1 k.2 k.3)
      (λ c k. (reading, Memᴰ.head (ap (λ x. (x, reading)) k.1), k.0, k.2))
      (λ c k. (k.0, Memᴰ.tail k.1, k.2, k.3)) (earlier_reset-Outcome id limit best reading.reset_at)
      (earlier_of_buckets-Outcome id (earlier_reset id limit best reading.reset_at) rest)
  where
    split :
        (c : EarliestReset) (r : BucketReading)
        → Memᴰ (c.limit_type, r) ((limit, reading) ∷ rest)
        → c.account_id ≡ id
        → r.reset_at ≡ some c.at
        → ReadingReset id limit reading.reset_at c ⊎ BucketReset id rest c
    split c r (Memᴰ.head e) a h = inl (a, ap (λ x. x.0) e, ap (λ x. x.1.reset_at) (sym e) ∙ h)
    split c r (Memᴰ.tail m) a h = inr (r, m, a, h)

earliest_loop-Outcome :
    (best : Option EarliestReset) (ss : List AccountSnapshot)
    → Outcome best (IsReset ss) (earliest_loop best ss)
unfolding earliest_loop BucketReset
earliest_loop-Outcome best [] = none_of_nil best _ (λ c k. elim k.listed [ ])
earliest_loop-Outcome best (s ∷ ss) =
    Outcome-trans best (earlier_of_buckets s.account_id best s.buckets) _
      (BucketReset s.account_id s.buckets) (IsReset ss) _ (λ c k. split c k k.listed)
      (λ c k. record {
        snap = s;
        reading = k.0;
        listed = Memᴰ.head refl;
        bucket = k.1;
        account = k.2;
        reset = k.3;
      })
      (λ c k. record {
        snap = k.snap;
        reading = k.reading;
        listed = Memᴰ.tail k.listed;
        bucket = k.bucket;
        account = k.account;
        reset = k.reset;
      })
      (earlier_of_buckets-Outcome s.account_id best s.buckets)
      (earliest_loop-Outcome (earlier_of_buckets s.account_id best s.buckets) ss)
  where
    split :
        (c : EarliestReset) (k : IsReset (s ∷ ss) c)
        → Memᴰ k.snap (s ∷ ss)
        → BucketReset s.account_id s.buckets c ⊎ IsReset ss c
    split c k (Memᴰ.head e) =
        inl (k.reading, rw e at k.bucket, k.account ∙ ap AccountSnapshot.account_id e, k.reset)
    split c k (Memᴰ.tail m) = inr (record {
      snap = k.snap;
      reading = k.reading;
      listed = m;
      bucket = k.bucket;
      account = k.account;
      reset = k.reset;
    })

IsEarliest-of_Outcome :
    (H : EarliestReset → Type 0) (res : Option EarliestReset)
    → Outcome none H res
    → IsEarliest H res
IsEarliest-of_Outcome H none o = o.1
IsEarliest-of_Outcome H (some r) (inl e, below, all) = cc
IsEarliest-of_Outcome H (some r) (inr h, below, all) = (h, all)

-- The reset that an exhausted request is told is one of the readings' resets, with its account and its
-- bucket, and none of them is earlier; there is no such reset only where no reading has one.
pub find_earliest_reset-IsEarliest :
    (snapshots : List AccountSnapshot)
    → IsEarliest (IsReset snapshots) (find_earliest_reset snapshots)
unfolding find_earliest_reset
find_earliest_reset-IsEarliest snapshots =
    IsEarliest-of_Outcome (IsReset snapshots) (earliest_loop none snapshots)
      (earliest_loop-Outcome none snapshots)
