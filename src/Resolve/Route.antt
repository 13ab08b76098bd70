-- ===== src/Resolve/Route.antt =====
-- src/resolve.ts: the walk over the requested model and its fallbacks, and the whole resolution.
pub mod Laws
pub mod Trail
use qlb.Base.{
  ℕ, Bool, true, false, not, ◌&&◌, ◌||◌, ◌⊎◌, inl, inr, Option, none, some, List, [], ◌∷◌, Text,
  codes, text_eq, filter, or_else,
}
use qlb.Types.{AccountSnapshot}
use qlb.Scoring.{Strategy, headroom, spread, round_robin, failover, provider_for_model}
use qlb.Store.{Store, DecisionMode}
use qlb.Strategies.{
  CeilingMode, headroom_mode, all_in, StrategyPick, StrategyContext, contains, pick_account,
}
use qlb.Resolve.{
  ResolveRequest, ServedBy, ResolveOk, ResolveDecision, Resolved, find_earliest_reset, recorded,
  active_ids, is_owned_codex,
}
use qlb.Resolve.Pinned.{resolve_pinned}

-- `req.store == null || s.provider !== 'openai-codex' || ...`.
unfoldable pub may_use : Option Store → AccountSnapshot → Bool
unfolding is_owned_codex
may_use none s = true
may_use (some store) s = not (text_eq s.provider (codes "openai-codex")) || is_owned_codex store s

unfoldable pub is_routable : Option Store → List Text → Text → AccountSnapshot → Bool
unfolding may_use contains
is_routable store reserved provider s =
    text_eq s.provider provider && not (contains reserved s.account_id) && may_use store s

mode_of_strategy : Strategy → CeilingMode → DecisionMode
mode_of_strategy headroom headroom_mode = DecisionMode.headroom
mode_of_strategy headroom all_in = DecisionMode.all_in
mode_of_strategy spread mode = DecisionMode.spread
mode_of_strategy round_robin mode = DecisionMode.round_robin
mode_of_strategy failover mode = DecisionMode.failover

decision_mode : Bool → Strategy → CeilingMode → DecisionMode
unfolding mode_of_strategy
decision_mode true strategy all_in = DecisionMode.fallback_all_in
decision_mode true strategy headroom_mode = DecisionMode.fallback
decision_mode false strategy mode = mode_of_strategy strategy mode

route_ok : ResolveRequest → Text → Text → Bool → StrategyPick → ResolveOk
unfolding decision_mode
route_ok req model provider substituted picked = record {
  provider = provider;
  account_id = picked.snapshot.account_id;
  requested_model = req.model;
  served_model = model;
  mode = decision_mode substituted picked.strategy picked.mode;
  strategy = ServedBy.by_strategy picked.strategy;
  snapshot = picked.snapshot;
  score = picked.score;
  ceiling = picked.ceiling;
}

-- What the walk leaves: the store, and the answer or `lastCandidates`.
abbrev pub Walk : Type 0
Walk = Option Store × (ResolveOk ⊎ List AccountSnapshot)

abbrev pub pick_context : ResolveRequest → List Text → Text → List AccountSnapshot → StrategyContext
pick_context req drain model candidates = record {
  snapshots = candidates;
  model = model;
  session = req.session;
  drain_first_ids = drain;
  persist = req.persist;
  alias_snapshots = none;
}

module _ (hash : Text → ℕ) (req : ResolveRequest) (reserved drain : List Text) where
  -- The end of a turn: the pick, or the later turns.
  serve_or :
      (Option Store → List AccountSnapshot → Walk)
      → Text
      → Text
      → Bool
      → List AccountSnapshot
      → Option Store × Option StrategyPick
      → Walk
  unfolding route_ok
  serve_or later model provider substituted candidates (store, some picked) =
      (store, inl (route_ok req model provider substituted picked))
  serve_or later model provider substituted candidates (store, none) = later store candidates

  -- One turn of the loop over the chain.
  turn :
      (Option Store → List AccountSnapshot → Walk)
      → Text
      → Option Text
      → Bool
      → Option Store
      → List AccountSnapshot
      → Walk
  unfolding serve_or is_routable
  turn later model none substituted store last = later store last
  turn later model (some provider) substituted store last =
      let candidates = filter (is_routable store reserved provider) req.snapshots in
      serve_or later model provider substituted candidates (
        pick_account hash (or_else req.strategy headroom) (pick_context req drain model candidates)
          store)

  walk : List Text → Bool → Option Store → List AccountSnapshot → Walk
  unfolding turn
  walk [] substituted store last = (store, inr last)
  walk (model ∷ rest) substituted store last =
      turn (λ s l. walk rest true s l) model (provider_for_model model) substituted store last

-- `req.snapshots.length ? req.snapshots : lastCandidates`.
reset_scope : List AccountSnapshot → List AccountSnapshot → List AccountSnapshot
reset_scope [] last = last
reset_scope (s ∷ ss) last = s ∷ ss

unfoldable walk_decision : ResolveRequest → ResolveOk ⊎ List AccountSnapshot → ResolveDecision
unfolding reset_scope find_earliest_reset
walk_decision req (inl d) = ResolveDecision.ok d
walk_decision req (inr last) =
    ResolveDecision.exhausted req.model (find_earliest_reset (reset_scope req.snapshots last))
      req.snapshots

finish : ℕ → ResolveRequest → Walk → Resolved
unfolding walk_decision recorded
finish now req (store, result) = recorded now req store (walk_decision req result)

-- The resolution of a session without a pin.
unfoldable pub resolve_unpinned : (Text → ℕ) → ℕ → ResolveRequest → Option Store → Resolved
unfolding walk finish active_ids
resolve_unpinned hash now req store = finish now req (
    walk hash req (active_ids store now (codes "reserve"))
      (active_ids store now (codes "drain-first")) (req.model ∷ req.fallback) false store [])

unfoldable pub or_unpinned : Option Resolved → Resolved → Resolved
or_unpinned (some answer) unpinned = answer
or_unpinned none unpinned = unpinned

-- `resolveFromSnapshots`.
unfoldable pub resolve_from_snapshots : (Text → ℕ) → ℕ → ResolveRequest → Option Store → Resolved
unfolding resolve_pinned resolve_unpinned or_unpinned
resolve_from_snapshots hash now req store =
    or_unpinned (resolve_pinned now req (req.model ∷ req.fallback) store)
      (resolve_unpinned hash now req store)
