-- ===== src/Strategies/Headroom/Exhausted.antt =====
-- When `pickHeadroomThenAllIn` picks, and what.
use qlb.Base.{
  ℕ, ◌≤◌, ◌≡◌, refl, sym, ap, subst, ◌∙◌, ◌↔◌, inl, inr, true, false, not, Option, none, some, List,
  Memᴰ, Text, All, All-map, Bool-cases, arith,
}
use mathlib.Core.Bool.{false≢true}
use mathlib.Core.Option.{some-injective}
use qlb.Types.{AccountSnapshot}
use qlb.Scoring.{score_account, default_ceiling, all_in_ceiling}
use qlb.Scoring.Ceiling.{pos-score_mono}
use qlb.Strategies.Pick.{CeilingMode, headroom_mode, all_in, Scored, StrategyPick, not_errored}
use qlb.Strategies.Headroom.{
  headroom_or_all_in, best_of, pick_headroom_then_all_in, is_fully_exhausted,
}
use qlb.Strategies.Headroom.Best.{is_candidate, Bested, IsBest, best_of-IsBest, best_of-none_iff}

-- Being exhausted is being no candidate below 100 %.
pub exhausted-candidate :
    (m : Text) (s : AccountSnapshot)
    → is_fully_exhausted s m ≡ not (is_candidate m all_in_ceiling s)
unfolding is_fully_exhausted not_errored
exhausted-candidate m s = ground arith

pub candidate_up :
    (c : ℕ) (le : c ≤ all_in_ceiling) (m : Text) (s : AccountSnapshot)
    → is_candidate m c s ≡ true
    → is_candidate m all_in_ceiling s ≡ true
candidate_up c le m s h = ground (arith, h, pos-score_mono s m c all_in_ceiling le)

-- A candidate below 80 % is one below 100 %.
pub candidate-all_in :
    (m : Text) (s : AccountSnapshot)
    → is_candidate m default_ceiling s ≡ true
    → is_candidate m all_in_ceiling s ≡ true
candidate-all_in m s h = candidate_up default_ceiling (omega arith) m s h

-- The ceiling that a mode stands for.
abbrev pub mode_ceiling : CeilingMode → ℕ
mode_ceiling headroom_mode = default_ceiling
mode_ceiling all_in = all_in_ceiling

-- What every pick by score is: a usable account of the list, with its score at the ceiling of
-- the mode.
pub record IsPick (m : Text) (ss : List AccountSnapshot) (p : StrategyPick) : Type 0 where
  pub listed : Memᴰ p.snapshot ss
  pub usable : is_fully_exhausted p.snapshot m ≡ false
  pub at_ceiling : p.ceiling ≡ mode_ceiling p.mode
  pub scored : p.score ≡ score_account p.snapshot m p.ceiling

-- The all-in mode is for lists with no candidate below 80 %.
abbrev pub LastResort : Text → List AccountSnapshot → CeilingMode → Type 0
LastResort m ss headroom_mode = Unit
LastResort m ss all_in = All (λ s. is_candidate m default_ceiling s ≡ false) ss

module _ (ss : List AccountSnapshot) (m : Text) where
  best-usable :
      (c : ℕ) (b : Scored)
      → c ≤ all_in_ceiling
      → IsBest m c ss b
      → is_fully_exhausted b.snapshot m ≡ false
  best-usable c b le best =
      exhausted-candidate m b.snapshot ∙ ap not (candidate_up c le m b.snapshot best.candidate)

  -- `pickHeadroomThenAllIn` picks a usable account of the list, reports its score, prefers the
  -- headroom mode, and no candidate at the ceiling of the mode scores higher.
  pub pick_headroom_then_all_in-IsPick :
      {p : StrategyPick}
      → pick_headroom_then_all_in ss m ≡ some p
      → IsPick m ss p × LastResort m ss p.mode × All (Bested m p.ceiling p.score) ss
  unfolding pick_headroom_then_all_in
  pick_headroom_then_all_in-IsPick {p} e =
      go (best_of ss m default_ceiling) (best_of ss m all_in_ceiling) refl refl e
    where
      Picked : StrategyPick → Type 0
      Picked q = IsPick m ss q × LastResort m ss q.mode × All (Bested m q.ceiling q.score) ss

      go :
          (o q : Option Scored)
          → best_of ss m default_ceiling ≡ o
          → best_of ss m all_in_ceiling ≡ q
          → headroom_or_all_in o q ≡ some p
          → Picked p
      go (some b) q e1 e2 h =
          let best = best_of-IsBest ss m default_ceiling e1 in
          subst Picked (some-injective _ p h) (
            record {
              listed = best.listed;
              usable = best-usable default_ceiling b (omega arith) best;
              at_ceiling = refl;
              scored = best.scored;
            },
            tt,
            best.best,
          )
      go none (some b) e1 e2 h =
          let best = best_of-IsBest ss m all_in_ceiling e2 in
          subst Picked (some-injective _ p h) (
            record {
              listed = best.listed;
              usable = best-usable all_in_ceiling b (omega arith) best;
              at_ceiling = refl;
              scored = best.scored;
            },
            (best_of-none_iff ss m default_ceiling).0 e1,
            best.best,
          )
      go none none e1 e2 h = cc

  pub no_candidate :
      (s : AccountSnapshot)
      → is_fully_exhausted s m ≡ true
      → is_candidate m all_in_ceiling s ≡ false
  no_candidate s h = ground (arith, h, exhausted-candidate m s)

  pub no_early_candidate :
      (s : AccountSnapshot)
      → is_fully_exhausted s m ≡ true
      → is_candidate m default_ceiling s ≡ false
  no_early_candidate s h = elim (Bool-cases (is_candidate m default_ceiling s)) [
    | inl early ↦ absurd (false≢true (sym (no_candidate s h) ∙ candidate-all_in m s early))
    | inr late ↦ late
  ]

  pub all_exhausted :
      (s : AccountSnapshot)
      → is_candidate m all_in_ceiling s ≡ false
      → is_fully_exhausted s m ≡ true
  all_exhausted s h = exhausted-candidate m s ∙ ap not h

  -- It picks nothing exactly when every account of the list is fully exhausted or in error.
  pub pick_headroom_then_all_in-none_iff :
      (pick_headroom_then_all_in ss m ≡ none) ↔ All (λ s. is_fully_exhausted s m ≡ true) ss
  unfolding pick_headroom_then_all_in
  pick_headroom_then_all_in-none_iff = (
    (λ e. to (best_of ss m default_ceiling) (best_of ss m all_in_ceiling) refl e),
    (λ f. rw (
      (best_of-none_iff ss m default_ceiling).1 (
          All-map (λ s. is_fully_exhausted s m ≡ true)
            (λ s. is_candidate m default_ceiling s ≡ false) no_early_candidate ss f),
      (best_of-none_iff ss m all_in_ceiling).1 (
          All-map (λ s. is_fully_exhausted s m ≡ true)
            (λ s. is_candidate m all_in_ceiling s ≡ false) no_candidate ss f),
    )),
  )
    where
      to :
          (o q : Option Scored)
          → best_of ss m all_in_ceiling ≡ q
          → headroom_or_all_in o q ≡ none
          → All (λ s. is_fully_exhausted s m ≡ true) ss
      to (some b) q e h = cc
      to none (some b) e h = cc
      to none none e h =
          All-map (λ s. is_candidate m all_in_ceiling s ≡ false)
            (λ s. is_fully_exhausted s m ≡ true) all_exhausted ss
            ((best_of-none_iff ss m all_in_ceiling).0 e)
