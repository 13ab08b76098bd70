-- ===== src/Strategies/Quiet.antt =====
-- What a pick writes: nothing where it fails, and never a row of the log of decisions.
use qlb.Base.{ℕ, ◌≡◌, refl, ◌∙◌, not, Option, none, some, List, [], ◌∷◌, Text, filter, or_else}
use qlb.Types.{AccountSnapshot}
use qlb.Scoring.{Strategy, headroom, spread, round_robin, failover}
use qlb.Store.{Store}
use qlb.Strategies.Pick.{StrategyPick, StrategyContext, not_errored, Quiet, logged}
use qlb.Strategies.RoundRobin.Laws.{pick_round_robin-Quiet, pick_round_robin-logged}
use qlb.Strategies.Failover.Laws.{pick_failover-Quiet, pick_failover-logged}
use qlb.Strategies.{
  pick_with_strategy, pick_after, drain_then_rest, is_drained, pick_filtered, pick_account,
}

module _ (hash : Text → ℕ) (strategy : Strategy) where
  with_strategy-Quiet :
      (ctx : StrategyContext) (store : Option Store)
      → Quiet store (pick_with_strategy hash strategy ctx store)
  unfolding pick_with_strategy
  with_strategy-Quiet ctx store = go strategy
    where
      go : (s : Strategy) → Quiet store (pick_with_strategy hash s ctx store)
      go headroom e = refl
      go spread e = refl
      go round_robin e = pick_round_robin-Quiet ctx.snapshots ctx.model store ctx.persist e
      go failover e =
          pick_failover-Quiet ctx.snapshots ctx.model store ctx.persist
            (or_else ctx.alias_snapshots ctx.snapshots) e

  after-Quiet :
      (rest : StrategyContext) (store : Option Store) (r : Option Store × Option StrategyPick)
      → Quiet store r
      → Quiet store (pick_after hash strategy rest r)
  unfolding pick_after
  after-Quiet rest store (st, none) quiet e = with_strategy-Quiet rest st e ∙ quiet refl
  after-Quiet rest store (st, some p) quiet e = cc

  drain-Quiet :
      (ctx : StrategyContext) (drain rest : List AccountSnapshot) (store : Option Store)
      → Quiet store (drain_then_rest hash strategy ctx drain rest store)
  unfolding drain_then_rest
  drain-Quiet ctx [] rest store = with_strategy-Quiet (record ctx { snapshots = rest }) store
  drain-Quiet ctx (d ∷ drain) rest store =
      after-Quiet (record ctx { snapshots = rest }) store
        (pick_with_strategy hash strategy (record ctx { snapshots = d ∷ drain }) store)
        (with_strategy-Quiet (record ctx { snapshots = d ∷ drain }) store)

  filtered-Quiet :
      (ctx : StrategyContext) (ids : List Text) (ss : List AccountSnapshot) (store : Option Store)
      → Quiet store (pick_filtered hash strategy ctx ids ss store)
  unfolding pick_filtered
  filtered-Quiet ctx [] ss store = with_strategy-Quiet (record ctx { snapshots = ss }) store
  filtered-Quiet ctx (d ∷ ids) ss store =
      drain-Quiet ctx (filter (is_drained (d ∷ ids)) ss)
        (filter (λ s. not (is_drained (d ∷ ids) s)) ss) store

  pub pick_account-Quiet :
      (input : StrategyContext) (store : Option Store)
      → Quiet store (pick_account hash strategy input store)
  unfolding pick_account
  pick_account-Quiet input store =
      filtered-Quiet
        (record input { alias_snapshots = some (or_else input.alias_snapshots input.snapshots) })
        input.drain_first_ids (filter not_errored input.snapshots) store

module _ (hash : Text → ℕ) (strategy : Strategy) where
  with_strategy-logged :
      (ctx : StrategyContext) (store : Option Store)
      → logged (pick_with_strategy hash strategy ctx store).0 ≡ logged store
  unfolding pick_with_strategy
  with_strategy-logged ctx store = go strategy
    where
      go : (s : Strategy) → logged (pick_with_strategy hash s ctx store).0 ≡ logged store
      go headroom = refl
      go spread = refl
      go round_robin = pick_round_robin-logged ctx.snapshots ctx.model store ctx.persist
      go failover =
          pick_failover-logged ctx.snapshots ctx.model store ctx.persist
            (or_else ctx.alias_snapshots ctx.snapshots)

  after-logged :
      (rest : StrategyContext) (store : Option Store) (r : Option Store × Option StrategyPick)
      → logged r.0 ≡ logged store
      → logged (pick_after hash strategy rest r).0 ≡ logged store
  unfolding pick_after
  after-logged rest store (st, none) kept = with_strategy-logged rest st ∙ kept
  after-logged rest store (st, some p) kept = kept

  drain-logged :
      (ctx : StrategyContext) (drain rest : List AccountSnapshot) (store : Option Store)
      → logged (drain_then_rest hash strategy ctx drain rest store).0 ≡ logged store
  unfolding drain_then_rest
  drain-logged ctx [] rest store = with_strategy-logged (record ctx { snapshots = rest }) store
  drain-logged ctx (d ∷ drain) rest store =
      after-logged (record ctx { snapshots = rest }) store
        (pick_with_strategy hash strategy (record ctx { snapshots = d ∷ drain }) store)
        (with_strategy-logged (record ctx { snapshots = d ∷ drain }) store)

  filtered-logged :
      (ctx : StrategyContext) (ids : List Text) (ss : List AccountSnapshot) (store : Option Store)
      → logged (pick_filtered hash strategy ctx ids ss store).0 ≡ logged store
  unfolding pick_filtered
  filtered-logged ctx [] ss store = with_strategy-logged (record ctx { snapshots = ss }) store
  filtered-logged ctx (d ∷ ids) ss store =
      drain-logged ctx (filter (is_drained (d ∷ ids)) ss)
        (filter (λ s. not (is_drained (d ∷ ids) s)) ss) store

  pub pick_account-logged :
      (input : StrategyContext) (store : Option Store)
      → logged (pick_account hash strategy input store).0 ≡ logged store
  unfolding pick_account
  pick_account-logged input store =
      filtered-logged
        (record input { alias_snapshots = some (or_else input.alias_snapshots input.snapshots) })
        input.drain_first_ids (filter not_errored input.snapshots) store
