-- ===== src/Scoring/Laws.antt =====
-- What the score of an account means: the least term, rounded; when it is positive; how it moves
-- with the ceiling; which readings it never looks at.
use qlb.Base.{
  ℕ, zero, suc, ◌+◌, ◌*◌, ◌≤◌, ◌≡◌, refl, ◌↔◌, ◌⊎◌, inl, inr, true, Option, none, some, List, [],
  ◌∷◌, Memᴰ, ℤ, pos, ◌≤ℤ◌, min_ℤ, is_pos, Text, All, arith, All-mem,
}
use qlb.Types.{Confidence, BucketReading, AccountSnapshot, authoritative, stale, advisory, unknown}
use qlb.Scoring.{
  unknown_score, BucketClass, five_h, weekly, balance, other, bucket_class, confidence_factor,
  bucket_at, bucket_term, reading_term, terms, least, round, score_terms, score_account,
  relevant_buckets, scaled_headroom, term_at, collect,
}
use qlb.Scoring.Terms.{
  round-mono, is_pos-round, least-le, least-mem, terms-bucket_term, bucket_term-terms,
}

score_terms-le : (ts : List ℤ) {t : ℤ} → Memᴰ t ts → score_terms ts ≤ℤ round t
unfolding score_terms
score_terms-le [] m = elim m [ ]
score_terms-le (u ∷ ts) {t} m =
    round-mono (least u ts) t (All-mem (λ v. least u ts ≤ℤ v) (u ∷ ts) (least-le u ts) m)

score_terms-cases :
    (ts : List ℤ)
    → ((ts ≡ []) × (score_terms ts ≡ unknown_score))
      ⊎ ((t : ℤ) × Memᴰ t ts × (score_terms ts ≡ round t))
unfolding score_terms
score_terms-cases [] = inl (refl, refl)
score_terms-cases (t ∷ ts) = inr (least t ts, least-mem t ts, refl)

-- No relevant bucket that is scored lets the score exceed its own rounded term.
pub score_account-le :
    (s : AccountSnapshot) (m : Text) (c : ℕ) (k : Text) (t : ℤ)
    → Memᴰ k (relevant_buckets s m)
    → bucket_term s k c ≡ some t
    → score_account s m c ≤ℤ round t
unfolding score_account
score_account-le s m c k t mem e =
    score_terms-le (terms s c (relevant_buckets s m))
      (bucket_term-terms s c (relevant_buckets s m) k t mem e)

-- The score is the rounded term of one relevant bucket, or the unknown score where no relevant
-- bucket is scored.
pub score_account-attained :
    (s : AccountSnapshot) (m : Text) (c : ℕ)
    → ((terms s c (relevant_buckets s m) ≡ []) × (score_account s m c ≡ unknown_score))
      ⊎ ((k : Text) × (t : ℤ) × Memᴰ k (relevant_buckets s m)
          × (bucket_term s k c ≡ some t)
          × (score_account s m c ≡ round t))
unfolding score_account
score_account-attained s m c = elim (score_terms-cases (terms s c (relevant_buckets s m))) [
  | inl h ↦ inl h
  | inr (t, mem, e) ↦
      let (k, mk, ek) = terms-bucket_term s c (relevant_buckets s m) mem in inr (k, t, mk, ek, e)
]

-- The weight of a reading, in hundredths: 0 where it is not scored.
abbrev weight_of : Confidence → BucketClass → ℕ
weight_of authoritative five_h = 100
weight_of authoritative balance = 100
weight_of authoritative weekly = 60
weight_of stale five_h = 50
weight_of stale balance = 50
weight_of stale weekly = 30
weight_of _ _ = 0

-- A known reading with a weight leaves room under the ceiling that rounding does not swallow.
abbrev Room : ℕ → Option ℕ → ℕ → Type 0
Room c none w = Unit
Room c (some used) zero = Unit
Room c (some used) (suc w) = suc w * used + 50 ≤ suc w * c

abbrev ReadingHasRoom : ℕ → Text → BucketReading → Type 0
ReadingHasRoom c k b = Room c b.used_pct (weight_of b.confidence (bucket_class k b.window_min))

abbrev RoomAt : ℕ → Text → Option BucketReading → Type 0
RoomAt c k none = Unit
RoomAt c k (some b) = ReadingHasRoom c k b

-- The bucket at a key is missing, unknown, unscored, or has room.
abbrev pub HasRoom : AccountSnapshot → ℕ → Text → Type 0
HasRoom s c k = RoomAt c k (bucket_at s.buckets k)

abbrev RoomyTerm : Option ℤ → Type 0
RoomyTerm none = Unit
RoomyTerm (some t) = pos 50 ≤ℤ t

scaled-Room :
    (c : ℕ) (u : Option ℕ) (conf : Confidence) (klass : BucketClass)
    → RoomyTerm (scaled_headroom u (confidence_factor conf) klass c)
      ↔ Room c u (weight_of conf klass)
unfolding reading_term
scaled-Room c none conf klass = (λ _. tt, λ _. tt)
scaled-Room c (some u) authoritative five_h = ground arith
scaled-Room c (some u) authoritative weekly = ground arith
scaled-Room c (some u) authoritative balance = ground arith
scaled-Room c (some u) authoritative other = ground arith
scaled-Room c (some u) stale five_h = ground arith
scaled-Room c (some u) stale weekly = ground arith
scaled-Room c (some u) stale balance = ground arith
scaled-Room c (some u) stale other = ground arith
scaled-Room c (some u) advisory klass = ground arith
scaled-Room c (some u) unknown klass = ground arith

bucket_room :
    (c : ℕ) (k : Text) (o : Option BucketReading) → RoomyTerm (term_at k c o) ↔ RoomAt c k o
unfolding bucket_term reading_term
bucket_room c k none = (λ _. tt, λ _. tt)
bucket_room c k (some b) = scaled-Room c b.used_pct b.confidence (bucket_class k b.window_min)

collect_room :
    (o : Option ℤ) (ts : List ℤ)
    → All (λ t. pos 50 ≤ℤ t) (collect o ts) ↔ (RoomyTerm o × All (λ t. pos 50 ≤ℤ t) ts)
unfolding terms
collect_room none ts = (λ h. (tt, h), λ h. h.1)
collect_room (some t) ts = (λ h. h, λ h. h)

-- All terms are roomy exactly when all keys are.
terms_room :
    (s : AccountSnapshot) (c : ℕ) (ks : List Text)
    → All (λ t. pos 50 ≤ℤ t) (terms s c ks) ↔ All (HasRoom s c) ks
unfolding terms bucket_term
terms_room s c [] = (λ _. tt, λ _. tt)
terms_room s c (k ∷ ks) =
    let first = bucket_room c k (bucket_at s.buckets k) in
    let later = terms_room s c ks in
    let both = collect_room (bucket_term s k c) (terms s c ks) in
    (
      (λ h. let p = both.0 h in (first.0 p.0, later.0 p.1)),
      (λ h. both.1 (first.1 h.0, later.1 h.1)),
    )

roomy_least : (t : ℤ) (ts : List ℤ) → (pos 50 ≤ℤ least t ts) ↔ All (λ u. pos 50 ≤ℤ u) (t ∷ ts)
unfolding least
roomy_least t [] = (λ h. (h, tt), λ h. h.0)
roomy_least t (u ∷ ts) =
    let ih = roomy_least (min_ℤ t u) ts in
    (
      (λ h. let p = ih.0 h in (ground (arith, p), (ground (arith, p), p.1))),
      (λ h. ih.1 (ground (arith, h), h.1.1)),
    )

score_terms_room : (ts : List ℤ) → (is_pos (score_terms ts) ≡ true) ↔ All (λ u. pos 50 ≤ℤ u) ts
unfolding score_terms
score_terms_room [] = (λ _. tt, λ _. refl)
score_terms_room (t ∷ ts) =
    let r = is_pos-round (least t ts) in
    let l = roomy_least t ts in ((λ h. l.0 (r.0 h)), (λ h. r.1 (l.1 h)))

-- An account's score is positive exactly when every relevant bucket that is scored has room under
-- the ceiling, by at least half a unit of the rounding.
pub score_account-pos_iff :
    (s : AccountSnapshot) (m : Text) (c : ℕ)
    → (is_pos (score_account s m c) ≡ true) ↔ All (HasRoom s c) (relevant_buckets s m)
unfolding score_account
score_account-pos_iff s m c =
    let a = score_terms_room (terms s c (relevant_buckets s m)) in
    let b = terms_room s c (relevant_buckets s m) in ((λ h. b.0 (a.0 h)), (λ h. a.1 (b.1 h)))
