-- ===== src/Scoring/Terms.antt =====
-- The list of terms that `scoreAccount` collects, its least element and its rounding.
use qlb.Base.{
  ℕ, ◌≡◌, refl, sym, ap, ◌∙◌, ◌↔◌, inl, inr, true, some, List, [], ◌∷◌, Memᴰ, ℤ, pos, ◌≤ℤ◌, ltb_ℤ,
  min_ℤ, is_pos, Text, All, Option-cases, Bool-cases, arith,
}
use qlb.Types.{AccountSnapshot}
use qlb.Scoring.{bucket_term, terms, least, round}

pub ≤ℤ_refl : (a : ℤ) → a ≤ℤ a
≤ℤ_refl a = omega arith

pub ≤ℤ_trans : (a b c : ℤ) → a ≤ℤ b → b ≤ℤ c → a ≤ℤ c
≤ℤ_trans a b c h k = omega arith

pub round-mono : (a b : ℤ) → a ≤ℤ b → round a ≤ℤ round b
unfolding round
round-mono a b h = ground arith

pub is_pos-round : (t : ℤ) → (is_pos (round t) ≡ true) ↔ (pos 50 ≤ℤ t)
unfolding round
is_pos-round t = ground arith

pub min-le : (t u : ℤ) → (min_ℤ t u ≤ℤ t) × (min_ℤ t u ≤ℤ u)
min-le t u = ground arith

pub min-mono : (t u t' u' : ℤ) → t ≤ℤ t' → u ≤ℤ u' → min_ℤ t u ≤ℤ min_ℤ t' u'
min-mono t u t' u' h k = ground arith

-- The least of the terms is one of them, and none is below it.
pub least-le : (t : ℤ) (ts : List ℤ) → All (λ u. least t ts ≤ℤ u) (t ∷ ts)
unfolding least
least-le t [] = (≤ℤ_refl t, tt)
least-le t (u ∷ ts) =
    let ih = least-le (min_ℤ t u) ts in
    let below = ≤ℤ_trans (least (min_ℤ t u) ts) (min_ℤ t u) in
    (below t ih.0 (min-le t u).0, (below u ih.0 (min-le t u).1, ih.1))

mem_later {ℓ} : {A : Type ℓ} (a x y : A) (xs : List A) → Memᴰ a (x ∷ xs) → Memᴰ a (x ∷ y ∷ xs)
mem_later a x y xs (Memᴰ.head e) = Memᴰ.head e
mem_later a x y xs (Memᴰ.tail m) = Memᴰ.tail (Memᴰ.tail m)

pub least-mem : (t : ℤ) (ts : List ℤ) → Memᴰ (least t ts) (t ∷ ts)
unfolding least
least-mem t [] = Memᴰ.head refl
least-mem t (u ∷ ts) = elim (Bool-cases (ltb_ℤ u t)) [
  | inl less ↦ rw less (Memᴰ.tail (least-mem u ts))
  | inr more ↦ rw more (mem_later (least t ts) t u ts (least-mem t ts))
]

-- The terms are those of the relevant buckets that are scored.
pub terms-bucket_term :
    (s : AccountSnapshot) (c : ℕ) (ks : List Text) {t : ℤ}
    → Memᴰ t (terms s c ks)
    → (k : Text) × Memᴰ k ks × (bucket_term s k c ≡ some t)
unfolding terms
terms-bucket_term s c [] m = elim m [ ]
terms-bucket_term s c (k ∷ ks) {t} m = elim (Option-cases (bucket_term s k c)) [
  | inl e ↦ let (j, mj, ej) = terms-bucket_term s c ks (rw (e, terms) at m) in (j, Memᴰ.tail mj, ej)
  | inr (u, e) ↦ split (λ v m'. terms-bucket_term s c ks m') u e (rw (e, terms) at m)
]
  where
    split :
        ((v : ℤ) → Memᴰ v (terms s c ks) → (j : Text) × Memᴰ j ks × (bucket_term s j c ≡ some v))
        → (u : ℤ) → bucket_term s k c ≡ some u
        → Memᴰ t (u ∷ terms s c ks)
        → (j : Text) × Memᴰ j (k ∷ ks) × (bucket_term s j c ≡ some t)
    split ih u e (Memᴰ.head h) = (k, Memᴰ.head refl, e ∙ ap some (sym h))
    split ih u e (Memᴰ.tail r) = let (j, mj, ej) = ih t r in (j, Memᴰ.tail mj, ej)

pub bucket_term-terms :
    (s : AccountSnapshot) (c : ℕ) (ks : List Text) (k : Text) (t : ℤ)
    → Memᴰ k ks
    → bucket_term s k c ≡ some t
    → Memᴰ t (terms s c ks)
unfolding terms
bucket_term-terms s c [] k t m e = elim m [ ]
bucket_term-terms s c (j ∷ ks) k t (Memᴰ.head h) e = rw (← h) (rw (e, terms) (Memᴰ.head refl))
bucket_term-terms s c (j ∷ ks) k t (Memᴰ.tail m) e = elim (Option-cases (bucket_term s j c)) [
  | inl no_term ↦ rw (no_term, terms) (bucket_term-terms s c ks k t m e)
  | inr (u, one) ↦ rw (one, terms) (Memᴰ.tail (bucket_term-terms s c ks k t m e))
]
