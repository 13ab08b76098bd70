-- ===== src/Resolve.antt =====
-- src/resolve.ts: from fetched snapshots to a decision. A pin of the session comes before any
-- strategy; otherwise the requested model and then each fallback model is tried in turn. The texts
-- `reason` and `snapshot_json` of the log are left out, but for the three reasons of an unavailable pin;
-- routing does not read them back (src/retire.ts does, to tell how a request ended). `now` is `Date.now()`, and `hash` the hash of sessions.
pub mod Pinned
pub mod Route
pub mod Resets
pub mod Tests
use qlb.Base.{
  ℕ, ◌+◌, Bool, true, false, not, ◌&&◌, ◌||◌, Option, none, some, List, [], ◌∷◌, map, ℤ, is_pos,
  Text, codes, text_eq, truthy, if◌then◌else◌, filter, find, or_else, ltb, is_some,
}
use qlb.Types.{BucketReading, AccountSnapshot}
use qlb.Scoring.{
  Strategy, headroom, spread, round_robin, failover, all_in_ceiling, score_account,
  provider_for_model,
}
use qlb.Store.{
  Store, OverrideRow, AccountRow, DecisionRow, DecisionMode, get_account, record_decision,
}
use qlb.Store.Overrides.{get_pin_override, list_active_overrides}
use qlb.Strategies.{
  CeilingMode, headroom_mode, all_in, StrategyPick, StrategyContext, find_unique_codex_alias,
  contains, pick_account,
}
use qlb.Strategies.Headroom.{is_fully_exhausted}

pub record ResolveRequest : Type 0 where
  pub model : Text
  pub fallback : List Text
  pub session : Option Text
  pub harness : Option Text
  pub effort : Option Text
  pub snapshots : List AccountSnapshot
  pub strategy : Option Strategy
  pub persist : Bool

pub record EarliestReset : Type 0 where
  pub account_id : Text
  pub at : ℕ
  pub limit_type : Text

-- The strategy of an answer: one of the four, or the pin.
pub data ServedBy : Type 0 where
  by_strategy : Strategy → ServedBy
  by_pin : ServedBy

pub record ResolveOk : Type 0 where
  pub provider : Text
  pub account_id : Text
  pub requested_model : Text
  pub served_model : Text
  pub mode : DecisionMode
  pub strategy : ServedBy
  pub snapshot : AccountSnapshot
  pub score : ℤ
  pub ceiling : ℕ

-- Why a pinned account is unavailable.
pub data PinFailure : Type 0 where
  not_in_candidates in_error_state no_headroom : PinFailure

pub data ResolveDecision : Type 0 where
  ok : ResolveOk → ResolveDecision
  exhausted : Text → Option EarliestReset → List AccountSnapshot → ResolveDecision
  pinned_unavailable : Text → Text → PinFailure → ResolveDecision

-- What `resolveFromSnapshots` leaves and returns; the number is `decisionId`.
abbrev pub Resolved : Type 0
Resolved = Option Store × ResolveDecision × Option ℕ

-- `best === null || reading.resetAt < best.at`, for a reading that has a reset.
earlier_reset : Text → Text → Option EarliestReset → Option ℕ → Option EarliestReset
earlier_reset id limit best none = best
earlier_reset id limit none (some at) =
    some (record { account_id = id; at = at; limit_type = limit })
earlier_reset id limit (some best) (some at) =
    if ltb at best.at
    then some (record { account_id = id; at = at; limit_type = limit })
    else some best

-- The inner loop of `findEarliestReset`.
earlier_of_buckets :
    Text → Option EarliestReset → List (Text × BucketReading) → Option EarliestReset
unfolding earlier_reset
earlier_of_buckets id best [] = best
earlier_of_buckets id best ((limit, reading) ∷ rest) =
    earlier_of_buckets id (earlier_reset id limit best reading.reset_at) rest

earliest_loop : Option EarliestReset → List AccountSnapshot → Option EarliestReset
unfolding earlier_of_buckets
earliest_loop best [] = best
earliest_loop best (snap ∷ rest) =
    earliest_loop (earlier_of_buckets snap.account_id best snap.buckets) rest

unfoldable pub find_earliest_reset : List AccountSnapshot → Option EarliestReset
unfolding earliest_loop
find_earliest_reset snapshots = earliest_loop none snapshots

served_by_text : ServedBy → Text
served_by_text (by_strategy headroom) = codes "headroom"
served_by_text (by_strategy spread) = codes "spread"
served_by_text (by_strategy round_robin) = codes "round-robin"
served_by_text (by_strategy failover) = codes "failover"
served_by_text by_pin = codes "pin"

provider_of : Option AccountSnapshot → Option Text → Option Text
provider_of (some snap) p = some snap.provider
provider_of none p = p

-- The row that `record` writes, without its texts `reason` and `snapshot_json`; `recordDecision` fills
-- in `id` and `ts`.
unfoldable pub decision_row : ResolveRequest → ResolveDecision → DecisionRow
unfolding served_by_text provider_of provider_for_model
decision_row req (ok d) = record {
  id = 0;
  ts = 0;
  session = req.session;
  harness = req.harness;
  requested_model = req.model;
  effort = req.effort;
  served_model = some d.served_model;
  account_id = some d.account_id;
  mode = d.mode;
  strategy = served_by_text d.strategy;
  provider = some d.provider;
}
decision_row req (pinned_unavailable model account reason) = record {
  id = 0;
  ts = 0;
  session = req.session;
  harness = req.harness;
  requested_model = req.model;
  effort = req.effort;
  served_model = none;
  account_id = some account;
  mode = DecisionMode.pin_unavailable;
  strategy = codes "pin";
  provider =
      provider_of (find (λ s. text_eq s.account_id account) req.snapshots)
        (provider_for_model req.model);
}
decision_row req (exhausted model reset candidates) = record {
  id = 0;
  ts = 0;
  session = req.session;
  harness = req.harness;
  requested_model = req.model;
  effort = req.effort;
  served_model = none;
  account_id = none;
  mode = DecisionMode.exhausted;
  strategy = served_by_text (by_strategy (or_else req.strategy headroom));
  provider = provider_for_model req.model;
}

unfoldable pub record_in : Bool → Store → ℕ → DecisionRow → Option Store × Option ℕ
record_in false store now row = (some store, none)
record_in true store now row =
    let (store', id) = record_decision store now row in (some store', some id)

-- `record`, and the decision with its id.
unfoldable pub recorded : ℕ → ResolveRequest → Option Store → ResolveDecision → Resolved
unfolding record_in record_decision
recorded now req none decision = (none, decision, none)
recorded now req (some store) decision =
    let (store', id) = record_in req.persist store now (decision_row req decision) in
    (store', decision, id)

-- The account ids of the active overrides of a kind.
ids_of_kind : Text → List OverrideRow → List Text
ids_of_kind kind [] = []
ids_of_kind kind (row ∷ rest) =
    let more = ids_of_kind kind rest in
    if text_eq row.kind kind then row.account_id ∷ more else more

-- One of the two sets of `activeOverrideSets`.
unfoldable pub active_ids : Option Store → ℕ → Text → List Text
unfolding ids_of_kind
active_ids none now kind = []
active_ids (some store) now kind = ids_of_kind kind (list_active_overrides store now)

-- `store.getAccount(id)?.provider === 'openai-codex'`.
unfoldable pub is_owned_codex : Store → AccountSnapshot → Bool
is_owned_codex store s = elim (get_account store s.account_id) [
  | none ↦ false
  | some row ↦ text_eq row.provider (codes "openai-codex")
]

first_of_two {ℓ} : {A : Type ℓ} → Option A → Option A → Option A
first_of_two (some a) b = some a
first_of_two none b = b

-- The snapshot of a pinned account, by its id or as the alias of an owned Codex slot.
unfoldable pub pinned_snapshot : Store → List AccountSnapshot → Text → Option AccountSnapshot
unfolding first_of_two
pinned_snapshot store snapshots id =
    first_of_two (find (λ s. text_eq s.account_id id) snapshots)
      (find_unique_codex_alias id (filter (is_owned_codex store) snapshots))
