-- ===== src/Scoring/Ceiling.antt =====
-- How the score moves with the ceiling, and with the readings that it does not look at.
use qlb.Base.{
  ℕ, ◌≤◌, ◌≡◌, refl, sym, ap, inl, inr, true, Option, none, some, List, [], ◌∷◌, map, ℤ, ◌≤ℤ◌,
  min_ℤ, is_pos, Text, Bool-cases, arith, text_eq,
}
use qlb.Types.{Confidence, authoritative, advisory, stale, unknown, BucketReading, AccountSnapshot}
use qlb.Scoring.{
  BucketClass, five_h, weekly, balance, other, bucket_class, confidence_factor, bucket_at,
  bucket_term, reading_term, terms, least, score_terms, score_account, relevant_buckets,
  scaled_headroom, term_at, collect, keys,
}
use qlb.Scoring.Terms.{round-mono, min-mono}

-- Scored alike, and no lower.
abbrev TermLe : Option ℤ → Option ℤ → Type 0
TermLe none none = Unit
TermLe none (some u) = ⊥
TermLe (some t) none = ⊥
TermLe (some t) (some u) = t ≤ℤ u

abbrev AllLe : List ℤ → List ℤ → Type 0
AllLe [] [] = Unit
AllLe [] (u ∷ us) = ⊥
AllLe (t ∷ ts) [] = ⊥
AllLe (t ∷ ts) (u ∷ us) = (t ≤ℤ u) × AllLe ts us

scaled_mono :
    (c c' : ℕ)
    → c ≤ c'
    → (u : Option ℕ) (f : Option ℕ) (klass : BucketClass)
    → TermLe (scaled_headroom u f klass c) (scaled_headroom u f klass c')
unfolding reading_term
scaled_mono c c' h none f klass = tt
scaled_mono c c' h (some u) none klass = tt
scaled_mono c c' h (some u) (some f) five_h = grind arith
scaled_mono c c' h (some u) (some f) weekly = grind arith
scaled_mono c c' h (some u) (some f) balance = grind arith
scaled_mono c c' h (some u) (some f) other = tt

term_mono :
    (c c' : ℕ)
    → c ≤ c'
    → (k : Text) (o : Option BucketReading) → TermLe (term_at k c o) (term_at k c' o)
unfolding bucket_term reading_term
term_mono c c' h k none = tt
term_mono c c' h k (some b) =
    scaled_mono c c' h b.used_pct (confidence_factor b.confidence) (bucket_class k b.window_min)

collect_mono :
    (o p : Option ℤ) (ts us : List ℤ)
    → TermLe o p
    → AllLe ts us
    → AllLe (collect o ts) (collect p us)
unfolding terms
collect_mono none none ts us h l = l
collect_mono none (some u) ts us h l = elim h [ ]
collect_mono (some t) none ts us h l = elim h [ ]
collect_mono (some t) (some u) ts us h l = (h, l)

terms_mono :
    (s : AccountSnapshot) (c c' : ℕ)
    → c ≤ c'
    → (ks : List Text) → AllLe (terms s c ks) (terms s c' ks)
unfolding terms bucket_term
terms_mono s c c' h [] = tt
terms_mono s c c' h (k ∷ ks) =
    collect_mono (bucket_term s k c) (bucket_term s k c') _ _
      (term_mono c c' h k (bucket_at s.buckets k)) (terms_mono s c c' h ks)

least-mono : (t u : ℤ) (ts us : List ℤ) → t ≤ℤ u → AllLe ts us → least t ts ≤ℤ least u us
unfolding least
least-mono t u [] [] h l = h
least-mono t u [] (u' ∷ us) h l = elim l [ ]
least-mono t u (t' ∷ ts) [] h l = elim l [ ]
least-mono t u (t' ∷ ts) (u' ∷ us) h l =
    least-mono (min_ℤ t t') (min_ℤ u u') ts us (min-mono t t' u u' h l.0) l.1

score_terms-mono : (ts us : List ℤ) → AllLe ts us → score_terms ts ≤ℤ score_terms us
unfolding score_terms
score_terms-mono [] [] l = omega arith
score_terms-mono [] (u ∷ us) l = elim l [ ]
score_terms-mono (t ∷ ts) [] l = elim l [ ]
score_terms-mono (t ∷ ts) (u ∷ us) l =
    round-mono (least t ts) (least u us) (least-mono t u ts us l.0 l.1)

-- A higher ceiling never lowers the score of an account.
pub score_account-mono :
    (s : AccountSnapshot) (m : Text) (c c' : ℕ)
    → c ≤ c'
    → score_account s m c ≤ℤ score_account s m c'
unfolding score_account
score_account-mono s m c c' h =
    score_terms-mono (terms s c (relevant_buckets s m)) (terms s c' (relevant_buckets s m))
      (terms_mono s c c' h (relevant_buckets s m))

-- So an account that is a candidate below a ceiling is one below any higher ceiling.
pub pos-score_mono :
    (s : AccountSnapshot) (m : Text) (c c' : ℕ)
    → c ≤ c'
    → is_pos (score_account s m c) ≡ true
    → is_pos (score_account s m c') ≡ true
pos-score_mono s m c c' h p = ground (arith, score_account-mono s m c c' h)

-- What is left of a reading that is advisory or unknown: nothing known. The others are kept.
abbrev blank_for : Confidence → BucketReading → BucketReading
blank_for authoritative b = b
blank_for stale b = b
blank_for advisory b = record b { used_pct = none }
blank_for unknown b = record b { used_pct = none }

abbrev pub blank : BucketReading → BucketReading
blank b = blank_for b.confidence b

-- A snapshot without what its advisory and unknown readings say.
abbrev pub without_unproven : AccountSnapshot → AccountSnapshot
without_unproven s = record s { buckets = map (λ e. (e.0, blank e.1)) s.buckets }

scaled_none : (u : Option ℕ) (klass : BucketClass) (c : ℕ) → scaled_headroom u none klass c ≡ none
unfolding reading_term
scaled_none none klass c = refl
scaled_none (some u) klass c = refl

blank_term :
    (f : Confidence) (k : Text) (b : BucketReading) (c : ℕ)
    → b.confidence ≡ f
    → reading_term k (blank_for f b) c ≡ reading_term k b c
unfolding reading_term confidence_factor
blank_term authoritative k b c e = refl
blank_term stale k b c e = refl
blank_term advisory k b c e = rw e (sym (scaled_none b.used_pct (bucket_class k b.window_min) c))
blank_term unknown k b c e = rw e (sym (scaled_none b.used_pct (bucket_class k b.window_min) c))

blank_at :
    (bs : List (Text × BucketReading)) (k : Text) (c : ℕ)
    → term_at k c (bucket_at (map (λ e. (e.0, blank e.1)) bs) k) ≡ term_at k c (bucket_at bs k)
unfolding bucket_at term_at
blank_at [] k c = refl
blank_at ((j, b) ∷ bs) k c = elim (Bool-cases (text_eq j k)) [
  | inl same ↦ rw same (blank_term b.confidence k b c refl)
  | inr differ ↦ rw differ (blank_at bs k c)
]

keys-blank : (bs : List (Text × BucketReading)) → keys (map (λ e. (e.0, blank e.1)) bs) ≡ keys bs
keys-blank [] = refl
keys-blank ((j, b) ∷ bs) = ap (◌∷◌ j) (keys-blank bs)

relevant-blank :
    (s : AccountSnapshot) (m : Text)
    → relevant_buckets (without_unproven s) m ≡ relevant_buckets s m
unfolding relevant_buckets
relevant-blank s m = rw (keys-blank s.buckets)

terms-blank :
    (s : AccountSnapshot) (c : ℕ) (ks : List Text) → terms (without_unproven s) c ks ≡ terms s c ks
unfolding terms bucket_term
terms-blank s c [] = refl
terms-blank s c (k ∷ ks) = cc (blank_at s.buckets k c, terms-blank s c ks)

-- What an advisory or unknown reading says never moves the score, whatever the provider, the
-- model and the ceiling.
pub score-without_unproven :
    (s : AccountSnapshot) (m : Text) (c : ℕ)
    → score_account (without_unproven s) m c ≡ score_account s m c
unfolding score_account
score-without_unproven s m c = rw (relevant-blank s m, terms-blank s c (relevant_buckets s m))
