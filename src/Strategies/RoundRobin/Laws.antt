-- ===== src/Strategies/RoundRobin/Laws.antt =====
-- What round robin picks, and that it gives every account its turn.
use mathlib.Core.Option.{some-injective}
use qlb.Base.{
  ℕ, zero, suc, ◌≡◌, refl, sym, ap, subst, ◌∙◌, ◌↔◌, inl, inr, Bool, true, false, not, Option, none,
  some, List, [], ◌∷◌, Memᴰ, ℤ, pos, negsuc, is_pos, Text, All, All-map, Bool-cases, Option-cases,
  arith, filter, sort, length, get_elem?,
}
use qlb.Base.Sorting.{mem_of_mem-filter, filter-nil_iff, mem_of_mem-sort, sort-nil, get_elem?-mem}
use qlb.Types.{AccountSnapshot}
use qlb.Scoring.{score_account, default_ceiling, round_robin}
use qlb.Overrides.{round_robin_config_key}
use qlb.Store.{Store}
use qlb.Store.Config.{set_config, next_round_robin_index}
use qlb.Strategies.Pick.{logged, Quiet, StrategyPick, by_account_id, reported}
use qlb.Strategies.Headroom.{is_fully_exhausted}
use qlb.Strategies.Headroom.Exhausted.{IsPick, mode_ceiling}
use qlb.Strategies.RoundRobin.{at_or_first, rotate, round_robin_among, pick_round_robin}

-- The accounts that rotate, in turn.
abbrev pub rotating : List AccountSnapshot → Text → List AccountSnapshot
rotating ss m = sort by_account_id (filter (λ s. not (is_fully_exhausted s m)) ss)

mem-rotating :
    (ss : List AccountSnapshot) (m : Text) {s : AccountSnapshot}
    → Memᴰ s (rotating ss m)
    → Memᴰ s ss × (is_fully_exhausted s m ≡ false)
mem-rotating ss m mem =
    let (l, h) =
      mem_of_mem-filter (λ s. not (is_fully_exhausted s m)) ss
        (mem_of_mem-sort by_account_id (filter (λ s. not (is_fully_exhausted s m)) ss) mem) in
    (l, ground (arith, h))

at_or_first-mem :
    (first : AccountSnapshot) (rest : List AccountSnapshot) (i : ℤ)
    → Memᴰ (at_or_first first rest i) (first ∷ rest)
unfolding at_or_first
at_or_first-mem first rest (negsuc i) = Memᴰ.head refl
at_or_first-mem first rest (pos i) = elim (Option-cases (get_elem? (first ∷ rest) i)) [
  | inl e ↦ rw e (Memᴰ.head refl)
  | inr (a, e) ↦ rw e (get_elem?-mem (first ∷ rest) i e)
]

reported-scored :
    (s : AccountSnapshot) (m : Text)
    → let p = reported round_robin s m in
      (p.snapshot ≡ s) × (p.ceiling ≡ mode_ceiling p.mode) × (p.score ≡ score_account s m p.ceiling)
unfolding reported
reported-scored s m = elim (Bool-cases (is_pos (score_account s m default_ceiling))) [
  | inl h ↦ rw h (refl, refl, refl)
  | inr h ↦ rw h (refl, refl, refl)
]

among-IsPick :
    (es : List AccountSnapshot) (m : Text) (store : Option Store) (persist : Bool)
    {p : StrategyPick}
    → (round_robin_among es m store persist).1 ≡ some p
    → (s : AccountSnapshot) × Memᴰ s es × (p ≡ reported round_robin s m)
unfolding round_robin_among
among-IsPick [] m store persist e = cc
among-IsPick (f ∷ es) m store persist {p} e =
    let i = (rotate store persist (round_robin_config_key f.provider) (length (f ∷ es))).1 in
    (at_or_first f es i, at_or_first-mem f es i, sym (some-injective _ p e))

-- Round robin picks a usable account of the list and reports its score.
pub pick_round_robin-IsPick :
    (ss : List AccountSnapshot) (m : Text) (store : Option Store) (persist : Bool)
    {p : StrategyPick}
    → (pick_round_robin ss m store persist).1 ≡ some p
    → IsPick m ss p
unfolding pick_round_robin
pick_round_robin-IsPick ss m store persist e =
    let (s, mem, same) = among-IsPick (rotating ss m) m store persist e in
    let (l, h) = mem-rotating ss m mem in
    let (es, ec, esc) = reported-scored s m in
    subst (IsPick m ss) (sym same) (record {
      listed = subst (λ t. Memᴰ t ss) (sym es) l;
      usable = subst (λ t. is_fully_exhausted t m ≡ false) (sym es) h;
      at_ceiling = ec;
      scored = esc ∙ ap (λ t. score_account t m (reported round_robin s m).ceiling) (sym es);
    })

among-none :
    (es : List AccountSnapshot) (m : Text) (store : Option Store) (persist : Bool)
    → ((round_robin_among es m store persist).1 ≡ none) ↔ (es ≡ [])
unfolding round_robin_among
among-none [] m store persist = (λ _. refl, λ _. refl)
among-none (f ∷ es) m store persist = ((λ e. cc), (λ e. cc))

-- It picks nothing exactly when every account is fully exhausted or in error.
pub pick_round_robin-none_iff :
    (ss : List AccountSnapshot) (m : Text) (store : Option Store) (persist : Bool)
    → ((pick_round_robin ss m store persist).1 ≡ none) ↔ All (λ s. is_fully_exhausted s m ≡ true) ss
unfolding pick_round_robin
pick_round_robin-none_iff ss m store persist =
    let usable = λ (s : AccountSnapshot). not (is_fully_exhausted s m) in
    let (to, from) = among-none (rotating ss m) m store persist in
    let (nil, only_nil) = filter-nil_iff usable ss in
    (
      (λ e.
          All-map (λ s. usable s ≡ false) (λ s. is_fully_exhausted s m ≡ true)
            (λ s h. ground (arith, h)) ss (nil (sort-nil by_account_id (filter usable ss) (to e)))),
      (λ f. from (
          ap (sort by_account_id) (
            only_nil (
              All-map (λ s. is_fully_exhausted s m ≡ true) (λ s. usable s ≡ false)
                (λ s h. ground (arith, h)) ss f)))),
    )

-- A dry run only peeks at the counter.
pub pick_round_robin-dry :
    (ss : List AccountSnapshot) (m : Text) (store : Option Store)
    → (pick_round_robin ss m store false).0 ≡ store
unfolding pick_round_robin
pick_round_robin-dry ss m store = go (rotating ss m) store
  where
    go : (es : List AccountSnapshot) (st : Option Store) → (round_robin_among es m st false).0 ≡ st
    go [] st = refl
    go (f ∷ es) none = refl
    go (f ∷ es) (some s) = refl

round_robin-Quiet :
    (es : List AccountSnapshot) (m : Text) (store : Option Store) (persist : Bool)
    → Quiet store (round_robin_among es m store persist)
unfolding round_robin_among
round_robin-Quiet [] m store persist e = refl
round_robin-Quiet (f ∷ es) m store persist e = cc

pub pick_round_robin-Quiet :
    (ss : List AccountSnapshot) (m : Text) (store : Option Store) (persist : Bool)
    → Quiet store (pick_round_robin ss m store persist)
unfolding pick_round_robin
pick_round_robin-Quiet ss m store persist = round_robin-Quiet (rotating ss m) m store persist

rotate-logged :
    (store : Option Store) (persist : Bool) (key : Text) (n : ℕ)
    → logged (rotate store persist key n).0 ≡ logged store
unfolding rotate logged next_round_robin_index set_config
rotate-logged none persist key n = refl
rotate-logged (some store) true key zero = refl
rotate-logged (some store) true key (suc n) = refl
rotate-logged (some store) false key n = refl

pub pick_round_robin-logged :
    (ss : List AccountSnapshot) (m : Text) (store : Option Store) (persist : Bool)
    → logged (pick_round_robin ss m store persist).0 ≡ logged store
unfolding pick_round_robin round_robin_among
pick_round_robin-logged ss m store persist = go (rotating ss m)
  where
    go :
        (es : List AccountSnapshot) → logged (round_robin_among es m store persist).0 ≡ logged store
    go [] = refl
    go (f ∷ es) = rotate-logged store persist (round_robin_config_key f.provider) (length (f ∷ es))
