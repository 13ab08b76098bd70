-- ===== src/Strategies/Headroom/Best.antt =====
-- What the loop of `bestOf` finds.
use qlb.Base.{
  ℕ, ◌≡◌, refl, subst, ◌↔◌, ◌⊎◌, inl, inr, Bool, true, false, ◌&&◌, Option, none, some, List, [],
  ◌∷◌, Memᴰ, ℤ, ◌≤ℤ◌, is_pos, Text, All, Bool-cases, arith,
}
use qlb.Types.{AccountSnapshot}
use qlb.Scoring.{score_account}
use qlb.Strategies.Pick.{Scored, not_errored}
use qlb.Strategies.Headroom.{beats, better, best_loop, best_of}

-- An account that may be picked below a ceiling.
abbrev pub is_candidate : Text → ℕ → AccountSnapshot → Bool
is_candidate m c s = not_errored s && is_pos (score_account s m c)

-- An account that is no candidate, or scores no more.
abbrev pub Bested : Text → ℕ → ℤ → AccountSnapshot → Type 0
Bested m c z s = (is_candidate m c s ≡ false) ⊎ (score_account s m c ≤ℤ z)

-- What a found best account is, among those looked at.
pub record IsBest (m : Text) (c : ℕ) (ss : List AccountSnapshot) (b : Scored) : Type 0 where
  pub listed : Memᴰ b.snapshot ss
  pub candidate : is_candidate m c b.snapshot ≡ true
  pub scored : b.score ≡ score_account b.snapshot m c
  pub best : All (Bested m c b.score) ss

abbrev Good : Text → ℕ → Option Scored → Type 0
Good m c none = Unit
Good m c (some b) = (is_candidate m c b.snapshot ≡ true) × (b.score ≡ score_account b.snapshot m c)

abbrev AtLeast : Option Scored → ℤ → Type 0
AtLeast none z = Unit
AtLeast (some a) z = a.score ≤ℤ z

abbrev Listed : Option Scored → List AccountSnapshot → AccountSnapshot → Type 0
Listed none ss s = Memᴰ s ss
Listed (some a) ss s = (s ≡ a.snapshot) ⊎ Memᴰ s ss

-- What the loop leaves, from what was found before and the accounts still to look at.
abbrev Found : Text → ℕ → Option Scored → List AccountSnapshot → Option Scored → Type 0
Found m c o ss none = (o ≡ none) × All (λ s. is_candidate m c s ≡ false) ss
Found m c o ss (some b) =
    Good m c (some b) × Listed o ss b.snapshot × AtLeast o b.score × All (Bested m c b.score) ss

abbrev taken : Text → ℕ → AccountSnapshot → Option Scored
taken m c s = some (record { snapshot = s; score = score_account s m c })

module _ (m : Text) (c : ℕ) (s : AccountSnapshot) where
  better-skip : (o : Option Scored) → is_candidate m c s ≡ false → better m c o s ≡ o
  unfolding better
  better-skip o h = ground arith

  better-keep : (o : Option Scored) → beats o (score_account s m c) ≡ false → better m c o s ≡ o
  unfolding better
  better-keep o h = ground arith

  better-take :
      (o : Option Scored)
      → is_candidate m c s ≡ true
      → beats o (score_account s m c) ≡ true
      → better m c o s ≡ taken m c s
  unfolding better
  better-take o h b = ground arith

  later :
      (o : Option Scored) (ss : List AccountSnapshot) (t : AccountSnapshot)
      → Listed o ss t
      → Listed o (s ∷ ss) t
  later none ss t l = Memᴰ.tail l
  later (some a) ss t (inl e) = inl e
  later (some a) ss t (inr l) = inr (Memᴰ.tail l)

  -- The account is no candidate, or is beaten by what was found: the accumulator stays.
  Found-skip :
      (o r : Option Scored) (ss : List AccountSnapshot)
      → is_candidate m c s ≡ false
      → Found m c o ss r
      → Found m c o (s ∷ ss) r
  Found-skip o none ss h (e, f) = (e, (h, f))
  Found-skip o (some b) ss h (g, l, a, f) = (g, later o ss b.snapshot l, a, (inl h, f))

  Found-keep :
      (o r : Option Scored) (ss : List AccountSnapshot)
      → beats o (score_account s m c) ≡ false
      → Found m c o ss r
      → Found m c o (s ∷ ss) r
  unfolding beats
  Found-keep none r ss h f = cc
  Found-keep (some a) none ss h (e, f) = cc
  Found-keep (some a) (some b) ss h (g, l, le, f) =
      (g, later (some a) ss b.snapshot l, le, (inr (ground (arith, h, le)), f))

  Found-take :
      (o r : Option Scored) (ss : List AccountSnapshot)
      → beats o (score_account s m c) ≡ true
      → Found m c (taken m c s) ss r
      → Found m c o (s ∷ ss) r
  unfolding beats
  Found-take o none ss h (e, f) = cc
  Found-take none (some b) ss h (g, inl e, le, f) = (g, Memᴰ.head e, tt, (inr le, f))
  Found-take none (some b) ss h (g, inr l, le, f) = (g, Memᴰ.tail l, tt, (inr le, f))
  Found-take (some a) (some b) ss h (g, l, le, f) =
      (g, inr (placed l), ground (arith, h, le), (inr le, f))
    where
      placed : ((b.snapshot ≡ s) ⊎ Memᴰ b.snapshot ss) → Memᴰ b.snapshot (s ∷ ss)
      placed (inl e) = Memᴰ.head e
      placed (inr k) = Memᴰ.tail k

best_loop-Found :
    (m : Text) (c : ℕ) (o : Option Scored) (ss : List AccountSnapshot)
    → Good m c o
    → Found m c o ss (best_loop m c o ss)
unfolding best_loop
best_loop-Found m c none [] g = (refl, tt)
best_loop-Found m c (some b) [] g = (g, inl refl, omega arith, tt)
best_loop-Found m c o (s ∷ ss) g = elim (Bool-cases (is_candidate m c s)) [
  | inr none_here ↦
      rw (better-skip m c s o none_here)
        (Found-skip m c s o (best_loop m c o ss) ss none_here (best_loop-Found m c o ss g))
  | inl here ↦ elim (Bool-cases (beats o (score_account s m c))) [
    | inr kept ↦
        rw (better-keep m c s o kept)
          (Found-keep m c s o (best_loop m c o ss) ss kept (best_loop-Found m c o ss g))
    | inl won ↦ rw (better-take m c s o here won) (
        Found-take m c s o (best_loop m c (taken m c s) ss) ss won
          (best_loop-Found m c (taken m c s) ss (here, refl)))
  ]
]

-- What `bestOf` returns is a candidate of the list, with its score, and no candidate of the list
-- scores higher.
pub best_of-IsBest :
    (ss : List AccountSnapshot) (m : Text) (c : ℕ) {b : Scored}
    → best_of ss m c ≡ some b
    → IsBest m c ss b
unfolding best_of
best_of-IsBest ss m c {b} e =
    let (g, l, a, f) = subst (Found m c none ss) e (best_loop-Found m c none ss tt) in
    record { listed = l; candidate = g.0; scored = g.1; best = f }

-- `bestOf` returns nothing exactly when no account of the list is a candidate.
pub best_of-none_iff :
    (ss : List AccountSnapshot) (m : Text) (c : ℕ)
    → (best_of ss m c ≡ none) ↔ All (λ s. is_candidate m c s ≡ false) ss
unfolding best_of
best_of-none_iff ss m c = (
  (λ e. (subst (Found m c none ss) e (best_loop-Found m c none ss tt)).1),
  (λ f. best_loop-skip ss f),
)
  where
    best_loop-skip :
        (rest : List AccountSnapshot)
        → All (λ s. is_candidate m c s ≡ false) rest
        → best_loop m c none rest ≡ none
    best_loop-skip [] f = refl
    best_loop-skip (s ∷ rest) f = rw (better-skip m c s none f.0) (best_loop-skip rest f.1)

-- The first account of the list wins against every later one that does not score higher.
pub best_of-first :
    (s : AccountSnapshot) (ss : List AccountSnapshot) (m : Text) (c : ℕ)
    → is_candidate m c s ≡ true
    → All (Bested m c (score_account s m c)) ss
    → best_of (s ∷ ss) m c ≡ some (record { snapshot = s; score = score_account s m c })
unfolding best_of
best_of-first s ss m c h f = rw (better-take m c s none h refl) (stays ss f)
  where
    stays :
        (rest : List AccountSnapshot)
        → All (Bested m c (score_account s m c)) rest
        → best_loop m c (taken m c s) rest ≡ taken m c s
    stays [] g = refl
    stays (t ∷ rest) (inl out, g) = rw (better-skip m c t (taken m c s) out) (stays rest g)
    stays (t ∷ rest) (inr le, g) =
        rw (better-keep m c t (taken m c s) (ground (arith, le))) (stays rest g)
