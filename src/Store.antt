-- ===== src/Store.antt =====
-- src/store.ts: the tables of the SQLite store that routing, polling and refreshing use, a list of
-- rows each, in the order of their rowids. A statement of the source is a function on the record;
-- a transaction (`BEGIN IMMEDIATE` to `COMMIT`) is one such function, so it is atomic. `Date.now()`
-- is an argument.
pub mod Config
pub mod Overrides
pub mod Leases
pub mod Deletes
pub mod Polls
pub mod Usage
pub mod Tests
use qlb.Base.{ℕ, ◌+◌, Bool, true, false, Option, none, some, List, [], ◌∷◌, Text, find, text_eq}
use qlb.Types.{BucketReading, AccountSnapshot}

pub record AccountRow : Type 0 where
  pub id : Text
  pub provider : Text
  pub label : Text
  pub status : Text
  pub grant_generation : ℕ

pub record OverrideRow : Type 0 where
  pub kind : Text
  pub account_id : Text
  pub session : Option Text
  pub until : Option ℕ

-- `leases`, keyed by `refresh:<account>`.
pub record LeaseRow : Type 0 where
  pub name : Text
  pub holder_pid : ℕ
  pub holder_id : Text
  pub until : ℕ
  pub generation : ℕ

pub record PollClaimRow : Type 0 where
  pub account_id : Text
  pub holder_id : Text
  pub claimed_at : ℕ
  pub until : ℕ

pub data DecisionMode : Type 0 where
  headroom all_in fallback fallback_all_in pin spread round_robin failover : DecisionMode
  pin_unavailable exhausted : DecisionMode

-- A row of `decisions`, without its texts `reason` and `snapshot_json`. Of `snapshot_json`, its key
-- `provider` is kept. The classification of outcomes (src/retire.ts) reads both texts; the rows of
-- Retire carry what it reads there.
pub record DecisionRow : Type 0 where
  pub id : ℕ
  pub ts : ℕ
  pub session : Option Text
  pub harness : Option Text
  pub requested_model : Text
  pub effort : Option Text
  pub served_model : Option Text
  pub account_id : Option Text
  pub mode : DecisionMode
  pub strategy : Text
  pub provider : Option Text

pub record Store : Type 0 where
  pub accounts : List AccountRow
  pub snapshots : List (Text × List (Text × BucketReading))
  pub config : List (Text × Text)
  pub overrides : List OverrideRow
  pub leases : List LeaseRow
  pub poll_claims : List PollClaimRow
  pub decisions : List DecisionRow
  pub next_decision_id : ℕ

-- `getAccount`.
unfoldable pub get_account : Store → Text → Option AccountRow
get_account store id = find (λ row. text_eq row.id id) store.accounts

-- `recordDecision`, which fills in `id` and `ts`.
unfoldable pub record_decision : Store → ℕ → DecisionRow → Store × ℕ
record_decision store now row = (
  record store {
    decisions = record row { id = store.next_decision_id; ts = now } ∷ store.decisions;
    next_decision_id = store.next_decision_id + 1;
  },
  store.next_decision_id,
)
