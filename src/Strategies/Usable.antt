-- ===== src/Strategies/Usable.antt =====
-- What `pickAccount` picks is not barred from its strategy.
use qlb.Base.{ℕ, ◌≡◌, true, false, not, Option, none, some, List, [], ◌∷◌, Text, filter, or_else}
use qlb.Types.{AccountSnapshot}
use qlb.Scoring.{Strategy, headroom, spread, round_robin, failover}
use qlb.Store.{Store}
use qlb.Strategies.Pick.{StrategyPick, StrategyContext, not_errored}
use qlb.Strategies.Headroom.{is_fully_exhausted}
use qlb.Strategies.Headroom.Exhausted.{pick_headroom_then_all_in-IsPick}
use qlb.Strategies.Spread.{pick_spread}
use qlb.Strategies.Spread.Laws.{pick_spread-IsPick}
use qlb.Strategies.RoundRobin.Laws.{pick_round_robin-IsPick}
use qlb.Strategies.Failover.{has_failover_headroom}
use qlb.Strategies.Failover.Laws.{pick_failover-eligible}
use qlb.Strategies.{
  pick_with_strategy, pick_after, drain_then_rest, is_drained, pick_filtered, pick_account,
}

-- An account that a strategy may serve: with failover headroom, or not fully exhausted.
abbrev pub Unbarred : Strategy → Text → AccountSnapshot → Type 0
Unbarred failover m s = has_failover_headroom s m ≡ true
Unbarred _ m s = is_fully_exhausted s m ≡ false

module _ (hash : Text → ℕ) where
  with_strategy-Unbarred :
      (strategy : Strategy) (ctx : StrategyContext) (store : Option Store) {p : StrategyPick}
      → (pick_with_strategy hash strategy ctx store).1 ≡ some p
      → Unbarred strategy ctx.model p.snapshot
  unfolding pick_with_strategy pick_spread
  with_strategy-Unbarred headroom ctx store e =
      (pick_headroom_then_all_in-IsPick ctx.snapshots ctx.model e).0.usable
  with_strategy-Unbarred spread ctx store {p = p} e = spread_usable ctx.session e
    where
      spread_usable :
          (session : Option Text)
          → pick_spread hash ctx.snapshots ctx.model session ≡ some p
          → is_fully_exhausted p.snapshot ctx.model ≡ false
      spread_usable none k = (pick_headroom_then_all_in-IsPick ctx.snapshots ctx.model k).0.usable
      spread_usable (some []) k =
          (pick_headroom_then_all_in-IsPick ctx.snapshots ctx.model k).0.usable
      spread_usable (some (c ∷ s)) k =
          (pick_spread-IsPick hash ctx.snapshots ctx.model c s k).0.usable
  with_strategy-Unbarred round_robin ctx store e =
      (pick_round_robin-IsPick ctx.snapshots ctx.model store ctx.persist e).usable
  with_strategy-Unbarred failover ctx store e =
      (pick_failover-eligible ctx.snapshots ctx.model store ctx.persist
        (or_else ctx.alias_snapshots ctx.snapshots) e).1

  drain-Unbarred :
      (strategy : Strategy) (ctx : StrategyContext) (drain rest : List AccountSnapshot)
      (store : Option Store) {p : StrategyPick}
      → (drain_then_rest hash strategy ctx drain rest store).1 ≡ some p
      → Unbarred strategy ctx.model p.snapshot
  unfolding drain_then_rest
  drain-Unbarred strategy ctx [] rest store e =
      with_strategy-Unbarred strategy (record ctx { snapshots = rest }) store e
  drain-Unbarred strategy ctx (d ∷ drain) rest store {p} e =
      go (pick_with_strategy hash strategy (record ctx { snapshots = d ∷ drain }) store)
        (λ q. with_strategy-Unbarred strategy (record ctx { snapshots = d ∷ drain }) store q) e
    where
      go :
          (r : Option Store × Option StrategyPick)
          → (r.1 ≡ some p → Unbarred strategy ctx.model p.snapshot)
          → (pick_after hash strategy (record ctx { snapshots = rest }) r).1 ≡ some p
          → Unbarred strategy ctx.model p.snapshot
      go (st, some q) first k = first (unfold pick_after in k)
      go (st, none) first k =
          with_strategy-Unbarred strategy (record ctx { snapshots = rest }) st
            (unfold pick_after in k)

  filtered-Unbarred :
      (strategy : Strategy) (ctx : StrategyContext) (ids : List Text) (ss : List AccountSnapshot)
      (store : Option Store) {p : StrategyPick}
      → (pick_filtered hash strategy ctx ids ss store).1 ≡ some p
      → Unbarred strategy ctx.model p.snapshot
  unfolding pick_filtered
  filtered-Unbarred strategy ctx [] ss store e =
      with_strategy-Unbarred strategy (record ctx { snapshots = ss }) store e
  filtered-Unbarred strategy ctx (d ∷ ids) ss store e =
      let q = is_drained (d ∷ ids) in
      drain-Unbarred strategy ctx (filter q ss) (filter (λ s. not (q s)) ss) store e

  -- No strategy, and no choice of accounts to drain first, picks an account that is barred from it.
  pub pick_account-Unbarred :
      (strategy : Strategy) (input : StrategyContext) (store : Option Store) {p : StrategyPick}
      → (pick_account hash strategy input store).1 ≡ some p
      → Unbarred strategy input.model p.snapshot
  unfolding pick_account
  pick_account-Unbarred strategy input store e =
      filtered-Unbarred strategy
        (record input { alias_snapshots = some (or_else input.alias_snapshots input.snapshots) })
        input.drain_first_ids (filter not_errored input.snapshots) store e
