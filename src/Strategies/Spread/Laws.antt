-- ===== src/Strategies/Spread/Laws.antt =====
-- What `pickSpread` chooses among.
use mathlib.Core.List.{nil≢cons}
use mathlib.Core.Option.{some-injective, none-ne-some}
use native.Mathlib.Nat.{mod-lt}
use qlb.Base.{
  ℕ, ◌+◌, ◌%◌, ◌≤◌, ◌<◌, ◌≡◌, ◌≢◌, refl, sym, ap, subst, ◌∙◌, ◌↔◌, ◌⊎◌, inl, inr, true, false, not,
  Option, none, some, List, [], ◌∷◌, Memᴰ, ℤ, ◌≤ℤ◌, max_ℤ, ltb_ℤ, pos_part, neg_part, Text, All,
  All-map, Bool-cases, Option-cases, arith, filter, length, get_elem?,
}
use qlb.Base.Sorting.{
  mem_of_mem-filter, mem-filter_of_mem, mem_of_mem-sort, mem-sort_of_mem, get_elem?-mem,
  get_elem?-total,
}
use qlb.Types.{AccountSnapshot}
use qlb.Scoring.{score_account, default_ceiling, all_in_ceiling, spread_margin, spread}
use qlb.Strategies.Pick.{CeilingMode, headroom_mode, all_in, Scored, StrategyPick, as_pick}
use qlb.Strategies.Headroom.{is_fully_exhausted}
use qlb.Strategies.Headroom.Best.{is_candidate}
use qlb.Strategies.Headroom.Exhausted.{
  IsPick, mode_ceiling, exhausted-candidate, candidate_up, pick_headroom_then_all_in-none_iff,
  all_exhausted, no_candidate, no_early_candidate,
}
use qlb.Strategies.Spread.{
  scored_positive, greatest, within_margin, scored_before, near_ties, chosen_tie, first_pick,
  pick_spread,
}

-- An entry of the list of scored candidates.
abbrev IsEntry : Text → ℕ → List AccountSnapshot → Scored → Type 0
IsEntry m c ss x =
    Memᴰ x.snapshot ss
    × (is_candidate m c x.snapshot ≡ true)
    × (x.score ≡ score_account x.snapshot m c)

scored-IsEntry :
    (ss : List AccountSnapshot) (m : Text) (c : ℕ) {x : Scored}
    → Memᴰ x (scored_positive ss m c)
    → IsEntry m c ss x
unfolding scored_positive
scored-IsEntry [] m c mem = elim mem [ ]
scored-IsEntry (s ∷ ss) m c {x} mem = elim (Bool-cases (is_candidate m c s)) [
  | inl h ↦ here h (λ n. scored-IsEntry ss m c n) (rw h at mem)
  | inr h ↦ let (l, h', e) = scored-IsEntry ss m c (rw h at mem) in (Memᴰ.tail l, h', e)
]
  where
    here :
        is_candidate m c s ≡ true
        → (Memᴰ x (scored_positive ss m c) → IsEntry m c ss x)
        → Memᴰ x (record { snapshot = s; score = score_account s m c } ∷ scored_positive ss m c)
        → IsEntry m c (s ∷ ss) x
    here h ih (Memᴰ.head e) = rw e (Memᴰ.head refl, h, refl)
    here h ih (Memᴰ.tail n) = let (l, h', e) = ih n in (Memᴰ.tail l, h', e)

scored-nil_iff :
    (ss : List AccountSnapshot) (m : Text) (c : ℕ)
    → (scored_positive ss m c ≡ []) ↔ All (λ s. is_candidate m c s ≡ false) ss
unfolding scored_positive
scored-nil_iff [] m c = (λ _. tt, λ _. refl)
scored-nil_iff (s ∷ ss) m c =
    let (to, from) = scored-nil_iff ss m c in
    elim (Bool-cases (is_candidate m c s)) [
      | inl h ↦ rw h ((λ e. absurd (nil≢cons (sym e))), (λ f. cc))
      | inr h ↦ rw h ((λ e. (refl, to e)), (λ f. from f.1))
    ]

-- The greatest score is that of an entry.
greatest-entry :
    (s : Scored) (rest : List Scored)
    → (x : Scored) × Memᴰ x (s ∷ rest) × (x.score ≡ greatest s.score rest)
unfolding greatest
greatest-entry s [] = (s, Memᴰ.head refl, refl)
greatest-entry s (t ∷ rest) = elim (Bool-cases (ltb_ℤ s.score t.score)) [
  | inl less ↦ let (x, mem, e) = greatest-entry t rest in (x, Memᴰ.tail mem, rw less e)
  | inr more ↦ let (x, mem, e) = greatest-entry s rest in (x, skip x mem, rw more e)
]
  where
    skip : (x : Scored) → Memᴰ x (s ∷ rest) → Memᴰ x (s ∷ t ∷ rest)
    skip x (Memᴰ.head e) = Memᴰ.head e
    skip x (Memᴰ.tail n) = Memᴰ.tail (Memᴰ.tail n)

greatest-ge :
    (z : ℤ) (rest : List Scored)
    → (z ≤ℤ greatest z rest) × All (λ x. x.score ≤ℤ greatest z rest) rest
unfolding greatest
greatest-ge z [] = (omega arith, tt)
greatest-ge z (t ∷ rest) =
    let (up, later) = greatest-ge (max_ℤ z t.score) rest in
    (ground (arith, up), (ground (arith, up), later))

near_ties-some : (s : Scored) (rest : List Scored) → near_ties (s ∷ rest) ≢ []
unfolding near_ties
near_ties-some s rest e =
    let (x, mem, top) = greatest-entry s rest in
    let near : within_margin (greatest s.score rest) x ≡ true =
      rw (← top) (unfold within_margin in ground arith) in
    absurd (
      not_listed x (
        subst (Memᴰ x) e (
          mem-sort_of_mem scored_before (filter (within_margin (greatest s.score rest)) (s ∷ rest))
            (mem-filter_of_mem (within_margin (greatest s.score rest)) (s ∷ rest) mem near))))
  where
    not_listed : (x : Scored) → Memᴰ x [] → ⊥
    not_listed x m = elim m [ ]

-- A score that is at most 10 points above.
abbrev pub WithinMargin : Text → ℕ → ℤ → AccountSnapshot → Type 0
WithinMargin m c z s =
    (is_candidate m c s ≡ false)
    ⊎ (pos_part (score_account s m c) + neg_part z
        ≤ pos_part z + neg_part (score_account s m c) + spread_margin)

near_ties-entry :
    (s : Scored) (rest : List Scored) {x : Scored}
    → Memᴰ x (near_ties (s ∷ rest))
    → Memᴰ x (s ∷ rest) × (within_margin (greatest s.score rest) x ≡ true)
unfolding near_ties
near_ties-entry s rest mem =
    mem_of_mem-filter (within_margin (greatest s.score rest)) (s ∷ rest) (
      mem_of_mem-sort scored_before (filter (within_margin (greatest s.score rest)) (s ∷ rest)) mem)

below-greatest :
    (ss : List AccountSnapshot) (m : Text) (c : ℕ) (g z : ℤ)
    → pos_part g + neg_part z ≤ pos_part z + neg_part g + spread_margin
    → All (λ x. x.score ≤ℤ g) (scored_positive ss m c)
    → All (WithinMargin m c z) ss
unfolding scored_positive
below-greatest [] m c g z near f = tt
below-greatest (s ∷ ss) m c g z near f = elim (Bool-cases (is_candidate m c s)) [
  | inr h ↦ (inl h, below-greatest ss m c g z near (rw h at f))
  | inl h ↦
      let f' : All (λ x. x.score ≤ℤ g)
          (record { snapshot = s; score = score_account s m c } ∷ scored_positive ss m c) =
        (rw h at f) in
      (inr (omega (arith, f'.0)), below-greatest ss m c g z near f'.1)
]

-- What the tie-break chooses from a list of scored candidates.
abbrev Chosen : CeilingMode → ℕ → Text → List AccountSnapshot → StrategyPick → Type 0
Chosen mode c m ss p =
    (x : Scored) × IsEntry m c ss x
    × (p ≡ as_pick mode c spread x)
    × All (WithinMargin m c x.score) ss

chosen_tie-Chosen :
    (mode : CeilingMode) (c h : ℕ) (m : Text) (ss : List AccountSnapshot) {p : StrategyPick}
    → chosen_tie mode c h (scored_positive ss m c) ≡ some p
    → Chosen mode c m ss p
unfolding chosen_tie
chosen_tie-Chosen mode c h m ss {p} e = go (scored_positive ss m c) refl e
  where
    go :
        (xs : List Scored)
        → scored_positive ss m c ≡ xs
        → chosen_tie mode c h xs ≡ some p
        → Chosen mode c m ss p
    go [] same k = cc
    go (s ∷ rest) same k =
        let tied = near_ties (s ∷ rest) in
        elim (Option-cases (get_elem? tied (h % length tied))) [
          | inl out ↦ absurd (none-ne-some p (rw (out, chosen_tie) at k))
          | inr (x, at) ↦
              let (mem, near) = near_ties-entry s rest (get_elem?-mem tied (h % length tied) at) in
              let top = greatest-ge s.score rest in
              (
                x,
                scored-IsEntry ss m c (rw same mem),
                sym (some-injective _ p (rw (at, chosen_tie) at k)),
                below-greatest ss m c (greatest s.score rest) x.score
                    (unfold within_margin in ground (arith, near)) (rw same top),
              )
        ]

chosen_tie-none :
    (mode : CeilingMode) (c h : ℕ) (xs : List Scored) → (chosen_tie mode c h xs ≡ none) ↔ (xs ≡ [])
unfolding chosen_tie
chosen_tie-none mode c h [] = (λ _. refl, λ _. refl)
chosen_tie-none mode c h (s ∷ rest) =
    let tied = near_ties (s ∷ rest) in
    let (x, at) =
      get_elem?-total tied (h % length tied) (mod-lt h (length-pos tied (near_ties-some s rest))) in
    rw (at, chosen_tie) ((λ e. cc), (λ e. cc))
  where
    length-pos : (xs : List Scored) → xs ≢ [] → 0 < length xs
    length-pos [] ne = absurd (ne refl)
    length-pos (y ∷ ys) ne = omega arith

Chosen-IsPick :
    (mode : CeilingMode) (m : Text) (ss : List AccountSnapshot) {p : StrategyPick}
    → Chosen mode (mode_ceiling mode) m ss p
    → mode_ceiling mode ≤ all_in_ceiling
    → IsPick m ss p × All (WithinMargin m p.ceiling p.score) ss
unfolding as_pick
Chosen-IsPick mode m ss {p} (x, (mem, cand, score), is, near) le = rw is (
  record {
    listed = mem;
    usable =
        exhausted-candidate m x.snapshot
        ∙ ap not (candidate_up (mode_ceiling mode) le m x.snapshot cand);
    at_ceiling = refl;
    scored = score;
  },
  near,
)

first_pick-cases :
    (o q : Option StrategyPick) {p : StrategyPick}
    → first_pick o q ≡ some p
    → (o ≡ some p) ⊎ ((o ≡ none) × (q ≡ some p))
unfolding first_pick
first_pick-cases none q e = inr (refl, e)
first_pick-cases (some a) q e = inl e

-- With a session, spread picks a usable account of the list that is at most 10 points behind the
-- best candidate at the ceiling of the pick, and reports its score.
pub pick_spread-IsPick :
    (hash : Text → ℕ) (ss : List AccountSnapshot) (m : Text) (c : ℕ) (session : Text)
    {p : StrategyPick}
    → pick_spread hash ss m (some (c ∷ session)) ≡ some p
    → IsPick m ss p × All (WithinMargin m p.ceiling p.score) ss
unfolding pick_spread
pick_spread-IsPick hash ss m c session e =
    elim (first_pick-cases
      (chosen_tie headroom_mode default_ceiling (hash (c ∷ session))
        (scored_positive ss m default_ceiling))
      (chosen_tie all_in all_in_ceiling (hash (c ∷ session)) (scored_positive ss m all_in_ceiling))
      e) [
        | inl h ↦
            Chosen-IsPick headroom_mode m ss
              (chosen_tie-Chosen headroom_mode default_ceiling (hash (c ∷ session)) m ss h)
              (omega arith)
        | inr (_, h) ↦
            Chosen-IsPick all_in m ss
              (chosen_tie-Chosen all_in all_in_ceiling (hash (c ∷ session)) m ss h) (omega arith)
      ]

first_pick-none : (o q : Option StrategyPick) → (first_pick o q ≡ none) ↔ ((o ≡ none) × (q ≡ none))
unfolding first_pick
first_pick-none none q = (λ e. (refl, e), λ e. e.1)
first_pick-none (some a) q = ((λ e. cc), (λ e. cc))

-- It picks nothing exactly when every account is fully exhausted or in error.
pub pick_spread-none_iff :
    (hash : Text → ℕ) (ss : List AccountSnapshot) (m : Text) (session : Option Text)
    → (pick_spread hash ss m session ≡ none) ↔ All (λ s. is_fully_exhausted s m ≡ true) ss
unfolding pick_spread
pick_spread-none_iff hash ss m none = pick_headroom_then_all_in-none_iff ss m
pick_spread-none_iff hash ss m (some []) = pick_headroom_then_all_in-none_iff ss m
pick_spread-none_iff hash ss m (some (c ∷ session)) =
    let h = hash (c ∷ session) in
    let early = scored_positive ss m default_ceiling in
    let late = scored_positive ss m all_in_ceiling in
    let both =
      first_pick-none (chosen_tie headroom_mode default_ceiling h early)
        (chosen_tie all_in all_in_ceiling h late) in
    (
      (λ e.
          All-map (λ s. is_candidate m all_in_ceiling s ≡ false)
            (λ s. is_fully_exhausted s m ≡ true) (all_exhausted ss m) ss
            ((scored-nil_iff ss m all_in_ceiling).0
              ((chosen_tie-none all_in all_in_ceiling h late).0 (both.0 e).1))),
      (λ f. both.1 (
        (chosen_tie-none headroom_mode default_ceiling h early).1 (
            (scored-nil_iff ss m default_ceiling).1 (
              All-map (λ s. is_fully_exhausted s m ≡ true)
                (λ s. is_candidate m default_ceiling s ≡ false) (no_early_candidate ss m) ss f)),
        (chosen_tie-none all_in all_in_ceiling h late).1 (
            (scored-nil_iff ss m all_in_ceiling).1 (
              All-map (λ s. is_fully_exhausted s m ≡ true)
                (λ s. is_candidate m all_in_ceiling s ≡ false) (no_candidate ss m) ss f)),
      )),
    )
