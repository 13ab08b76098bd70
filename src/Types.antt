-- ===== src/Types.antt =====
-- src/types.ts: the readings of a provider's gauges, and one account's set of them.
-- A percentage is a number of units of 10⁻¹⁰ %, the grain to which `scoreAccount` rounds.
use qlb.Base.{ℕ, Bool, Option, List, Text}

pub data Confidence : Type 0 where
  authoritative advisory stale unknown : Confidence

pub data Source : Type 0 where
  poll headers error : Source

pub record BucketReading : Type 0 where
  pub used_pct : Option ℕ
  pub used : Option ℕ
  pub limit : Option ℕ
  pub remaining : Option ℕ
  pub reset_at : Option ℕ  -- epoch ms
  pub window_min : Option ℕ
  pub source : Source
  pub confidence : Confidence
  pub fetched_at : ℕ  -- epoch ms
  pub detail : Option Text

-- The keys of `buckets`, in the order of `Object.entries`.
pub record AccountSnapshot : Type 0 where
  pub account_id : Text
  pub provider : Text
  pub label : Text
  pub buckets : List (Text × BucketReading)
  pub error : Option Text
  pub failed : Bool
