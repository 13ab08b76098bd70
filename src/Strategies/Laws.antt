-- ===== src/Strategies/Laws.antt =====
-- What `pickAccount` does with any strategy: drain-first accounts come first, no usable account is
-- missed, and a dry run writes nothing.
use qlb.Base.{
  ℕ, ◌≡◌, refl, ap, ◌∙◌, ◌↔◌, ◌⊎◌, inl, inr, true, false, not, Option, none, some, List, [], ◌∷◌,
  Memᴰ, Text, All, All-filter, All-unfilter, All-split, arith, filter, or_else,
}
use qlb.Base.Sorting.{mem_of_mem-filter}
use qlb.Types.{AccountSnapshot}
use qlb.Scoring.{Strategy, headroom, spread, round_robin, failover}
use qlb.Store.{Store}
use qlb.Strategies.Pick.{StrategyPick, StrategyContext, not_errored}
use qlb.Strategies.Headroom.{is_fully_exhausted}
use qlb.Strategies.Headroom.Exhausted.{
  pick_headroom_then_all_in-IsPick, pick_headroom_then_all_in-none_iff,
}
use qlb.Strategies.Spread.{pick_spread}
use qlb.Strategies.Spread.Laws.{pick_spread-IsPick, pick_spread-none_iff}
use qlb.Strategies.RoundRobin.Laws.{
  pick_round_robin-IsPick, pick_round_robin-none_iff, pick_round_robin-dry,
}
use qlb.Strategies.Failover.{has_failover_headroom}
use qlb.Strategies.Failover.Laws.{pick_failover-eligible, pick_failover-none_iff, pick_failover-dry}
use qlb.Strategies.{
  pick_with_strategy, pick_after, drain_then_rest, is_drained, pick_filtered, pick_account,
}

-- What bars an account from a strategy.
abbrev pub Barred : Strategy → Text → AccountSnapshot → Type 0
Barred failover m s = has_failover_headroom s m ≡ false
Barred _ m s = is_fully_exhausted s m ≡ true

module _ (hash : Text → ℕ) where
  with_strategy-none_iff :
      (strategy : Strategy) (ctx : StrategyContext) (store : Option Store)
      → ((pick_with_strategy hash strategy ctx store).1 ≡ none)
        ↔ All (Barred strategy ctx.model) ctx.snapshots
  unfolding pick_with_strategy
  with_strategy-none_iff headroom ctx store =
      pick_headroom_then_all_in-none_iff ctx.snapshots ctx.model
  with_strategy-none_iff spread ctx store =
      pick_spread-none_iff hash ctx.snapshots ctx.model ctx.session
  with_strategy-none_iff round_robin ctx store =
      pick_round_robin-none_iff ctx.snapshots ctx.model store ctx.persist
  with_strategy-none_iff failover ctx store =
      pick_failover-none_iff ctx.snapshots ctx.model store ctx.persist
        (or_else ctx.alias_snapshots ctx.snapshots)

  -- An errored account is barred from every strategy.
  errored-Barred :
      (strategy : Strategy) (m : Text) (s : AccountSnapshot)
      → not_errored s ≡ false
      → Barred strategy m s
  unfolding not_errored is_fully_exhausted has_failover_headroom
  errored-Barred headroom m s h = ground arith
  errored-Barred spread m s h = ground arith
  errored-Barred round_robin m s h = ground arith
  errored-Barred failover m s h = ground arith

  after-none :
      (strategy : Strategy) (rest : StrategyContext) (r : Option Store × Option StrategyPick)
      → ((pick_after hash strategy rest r).1 ≡ none)
        ↔ ((r.1 ≡ none) × ((pick_with_strategy hash strategy rest r.0).1 ≡ none))
  unfolding pick_after
  after-none strategy rest (st, none) = (λ e. (refl, e), λ e. e.1)
  after-none strategy rest (st, some p) = ((λ e. cc), (λ e. cc))

  drain-none :
      (strategy : Strategy) (ctx : StrategyContext) (drain rest : List AccountSnapshot)
      (store : Option Store)
      → ((drain_then_rest hash strategy ctx drain rest store).1 ≡ none)
        ↔ (All (Barred strategy ctx.model) drain × All (Barred strategy ctx.model) rest)
  unfolding drain_then_rest
  drain-none strategy ctx [] rest store =
      let (to, from) = with_strategy-none_iff strategy (record ctx { snapshots = rest }) store in
      ((λ e. (tt, to e)), (λ f. from f.1))
  drain-none strategy ctx (d ∷ drain) rest store =
      let first = pick_with_strategy hash strategy (record ctx { snapshots = d ∷ drain }) store in
      let (to, from) = after-none strategy (record ctx { snapshots = rest }) first in
      let (dto, dfrom) =
        with_strategy-none_iff strategy (record ctx { snapshots = d ∷ drain }) store in
      let (rto, rfrom) =
        with_strategy-none_iff strategy (record ctx { snapshots = rest }) first.0 in
      ((λ e. (dto (to e).0, rto (to e).1)), (λ f. from (dfrom f.0, rfrom f.1)))

  filtered-none :
      (strategy : Strategy) (ctx : StrategyContext) (ids : List Text) (ss : List AccountSnapshot)
      (store : Option Store)
      → ((pick_filtered hash strategy ctx ids ss store).1 ≡ none)
        ↔ All (Barred strategy ctx.model) ss
  unfolding pick_filtered
  filtered-none strategy ctx [] ss store =
      with_strategy-none_iff strategy (record ctx { snapshots = ss }) store
  filtered-none strategy ctx (d ∷ ids) ss store =
      let p = is_drained (d ∷ ids) in
      let (to, from) = drain-none strategy ctx (filter p ss) (filter (λ s. not (p s)) ss) store in
      (
        (λ e. let (a, b) = to e in All-split (Barred strategy ctx.model) p ss a b),
        (λ f. from (
          All-filter (Barred strategy ctx.model) p ss f,
          All-filter (Barred strategy ctx.model) (λ s. not (p s)) ss f,
        )),
      )

  -- No strategy, and no choice of accounts to drain first, misses a usable account: a pick fails
  -- exactly when every candidate is barred, which is to be in error, or fully exhausted, or, for
  -- failover, without failover headroom.
  pub pick_account-none_iff :
      (strategy : Strategy) (input : StrategyContext) (store : Option Store)
      → ((pick_account hash strategy input store).1 ≡ none)
        ↔ All (Barred strategy input.model) input.snapshots
  unfolding pick_account
  pick_account-none_iff strategy input store =
      let ctx = record input {
        alias_snapshots = some (or_else input.alias_snapshots input.snapshots);
      } in
      let (to, from) =
        filtered-none strategy ctx input.drain_first_ids (filter not_errored input.snapshots)
          store in
      (
        (λ e.
            All-unfilter (Barred strategy input.model) not_errored input.snapshots
              (errored-Barred strategy input.model) (to e)),
        (λ f. from (All-filter (Barred strategy input.model) not_errored input.snapshots f)),
      )

  -- Where what is picked comes from, with any strategy.
  with_strategy-listed :
      (strategy : Strategy) (ctx : StrategyContext) (store : Option Store) {p : StrategyPick}
      → (pick_with_strategy hash strategy ctx store).1 ≡ some p
      → Memᴰ p.snapshot ctx.snapshots
  unfolding pick_with_strategy pick_spread
  with_strategy-listed headroom ctx store e =
      (pick_headroom_then_all_in-IsPick ctx.snapshots ctx.model e).0.listed
  with_strategy-listed spread ctx store {p = p} e = spread_listed ctx.session e
    where
      spread_listed :
          (session : Option Text)
          → pick_spread hash ctx.snapshots ctx.model session ≡ some p
          → Memᴰ p.snapshot ctx.snapshots
      spread_listed none k = (pick_headroom_then_all_in-IsPick ctx.snapshots ctx.model k).0.listed
      spread_listed (some []) k =
          (pick_headroom_then_all_in-IsPick ctx.snapshots ctx.model k).0.listed
      spread_listed (some (c ∷ s)) k =
          (pick_spread-IsPick hash ctx.snapshots ctx.model c s k).0.listed
  with_strategy-listed round_robin ctx store e =
      (pick_round_robin-IsPick ctx.snapshots ctx.model store ctx.persist e).listed
  with_strategy-listed failover ctx store e =
      (pick_failover-eligible ctx.snapshots ctx.model store ctx.persist
        (or_else ctx.alias_snapshots ctx.snapshots) e).0

  with_strategy-dry :
      (strategy : Strategy) (ctx : StrategyContext) (store : Option Store)
      → ctx.persist ≡ false
      → (pick_with_strategy hash strategy ctx store).0 ≡ store
  unfolding pick_with_strategy
  with_strategy-dry headroom ctx store h = refl
  with_strategy-dry spread ctx store h = refl
  with_strategy-dry round_robin ctx store h =
      rw h (pick_round_robin-dry ctx.snapshots ctx.model store)
  with_strategy-dry failover ctx store h =
      rw h (
        pick_failover-dry ctx.snapshots ctx.model store (or_else ctx.alias_snapshots ctx.snapshots))

  -- The pick is one of the accounts to drain, or there is no such pick and it is one of the rest.
  drain-cases :
      (strategy : Strategy) (ctx : StrategyContext) (drain rest : List AccountSnapshot)
      (store : Option Store) {p : StrategyPick}
      → (drain_then_rest hash strategy ctx drain rest store).1 ≡ some p
      → Memᴰ p.snapshot drain ⊎ (All (Barred strategy ctx.model) drain × Memᴰ p.snapshot rest)
  unfolding drain_then_rest
  drain-cases strategy ctx [] rest store e =
      inr (tt, with_strategy-listed strategy (record ctx { snapshots = rest }) store e)
  drain-cases strategy ctx (d ∷ drain) rest store {p} e =
      go (pick_with_strategy hash strategy (record ctx { snapshots = d ∷ drain }) store) refl e
    where
      go :
          (r : Option Store × Option StrategyPick)
          → pick_with_strategy hash strategy (record ctx { snapshots = d ∷ drain }) store ≡ r
          → (pick_after hash strategy (record ctx { snapshots = rest }) r).1 ≡ some p
          → Memᴰ p.snapshot (d ∷ drain)
            ⊎ (All (Barred strategy ctx.model) (d ∷ drain) × Memᴰ p.snapshot rest)
      go (st, some q) same k = inl (
          with_strategy-listed strategy (record ctx { snapshots = d ∷ drain }) store
            (ap (λ r. r.1) same ∙ (unfold pick_after in k)))
      go (st, none) same k = inr (
        (with_strategy-none_iff strategy (record ctx { snapshots = d ∷ drain }) store).0
            (ap (λ r. r.1) same),
        with_strategy-listed strategy (record ctx { snapshots = rest }) st (unfold pick_after in k),
      )

  after-dry :
      (strategy : Strategy) (rest : StrategyContext) (r : Option Store × Option StrategyPick)
      (store : Option Store)
      → rest.persist ≡ false
      → r.0 ≡ store
      → (pick_after hash strategy rest r).0 ≡ store
  unfolding pick_after
  after-dry strategy rest (st, some q) store h e = e
  after-dry strategy rest (st, none) store h e = with_strategy-dry strategy rest st h ∙ e

  filtered-listed :
      (strategy : Strategy) (ctx : StrategyContext) (ids : List Text) (ss : List AccountSnapshot)
      (store : Option Store) {p : StrategyPick}
      → (pick_filtered hash strategy ctx ids ss store).1 ≡ some p
      → Memᴰ p.snapshot ss
        × ((is_drained ids p.snapshot ≡ true)
            ⊎ All (Barred strategy ctx.model) (filter (is_drained ids) ss))
  unfolding pick_filtered
  filtered-listed strategy ctx [] ss store e =
      (with_strategy-listed strategy (record ctx { snapshots = ss }) store e, inr (none_drained ss))
    where
      none_drained :
          (xs : List AccountSnapshot) → All (Barred strategy ctx.model) (filter (is_drained []) xs)
      none_drained [] = tt
      none_drained (x ∷ xs) = unfold is_drained in none_drained xs
  filtered-listed strategy ctx (d ∷ ids) ss store {p} e =
      let q = is_drained (d ∷ ids) in
      elim (drain-cases strategy ctx (filter q ss) (filter (λ s. not (q s)) ss) store e) [
        | inl mem ↦ let (l, h) = mem_of_mem-filter q ss mem in (l, inl h)
        | inr (bars, mem) ↦ let (l, h) = mem_of_mem-filter (λ s. not (q s)) ss mem in (l, inr bars)
      ]

  -- A pick is a candidate that is not in error, and an account to drain first unless all of those
  -- are barred.
  pub pick_account-drains_first :
      (strategy : Strategy) (input : StrategyContext) (store : Option Store) {p : StrategyPick}
      → (pick_account hash strategy input store).1 ≡ some p
      → Memᴰ p.snapshot input.snapshots
        × (not_errored p.snapshot ≡ true)
        × ((is_drained input.drain_first_ids p.snapshot ≡ true)
            ⊎ All
                (Barred strategy input.model)
                (filter (is_drained input.drain_first_ids) (filter not_errored input.snapshots)))
  unfolding pick_account
  pick_account-drains_first strategy input store e =
      let ctx = record input {
        alias_snapshots = some (or_else input.alias_snapshots input.snapshots);
      } in
      let (mem, drained) =
        filtered-listed strategy ctx input.drain_first_ids (filter not_errored input.snapshots)
          store e in
      let (l, h) = mem_of_mem-filter not_errored input.snapshots mem in (l, h, drained)

  drain-dry :
      (strategy : Strategy) (ctx : StrategyContext) (drain rest : List AccountSnapshot)
      (store : Option Store)
      → ctx.persist ≡ false
      → (drain_then_rest hash strategy ctx drain rest store).0 ≡ store
  unfolding drain_then_rest
  drain-dry strategy ctx [] rest store h =
      with_strategy-dry strategy (record ctx { snapshots = rest }) store h
  drain-dry strategy ctx (d ∷ drain) rest store h =
      after-dry strategy (record ctx { snapshots = rest })
        (pick_with_strategy hash strategy (record ctx { snapshots = d ∷ drain }) store) store h
        (with_strategy-dry strategy (record ctx { snapshots = d ∷ drain }) store h)

  filtered-dry :
      (strategy : Strategy) (ctx : StrategyContext) (ids : List Text) (ss : List AccountSnapshot)
      (store : Option Store)
      → ctx.persist ≡ false
      → (pick_filtered hash strategy ctx ids ss store).0 ≡ store
  unfolding pick_filtered
  filtered-dry strategy ctx [] ss store h =
      with_strategy-dry strategy (record ctx { snapshots = ss }) store h
  filtered-dry strategy ctx (d ∷ ids) ss store h =
      drain-dry strategy ctx (filter (is_drained (d ∷ ids)) ss)
        (filter (λ s. not (is_drained (d ∷ ids) s)) ss) store h

  -- With `persist` off, no strategy writes to the store.
  pub pick_account-dry :
      (strategy : Strategy) (input : StrategyContext) (store : Option Store)
      → input.persist ≡ false
      → (pick_account hash strategy input store).0 ≡ store
  unfolding pick_account
  pick_account-dry strategy input store h =
      filtered-dry strategy
        (record input { alias_snapshots = some (or_else input.alias_snapshots input.snapshots) })
        input.drain_first_ids (filter not_errored input.snapshots) store h
