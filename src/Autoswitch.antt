-- ===== src/Autoswitch.antt =====
-- src/autoswitch.ts: the decision of one auto-switch tick; its input, its settings and its answers.
-- A percentage is a number of units of 10⁻¹⁰ %, a time is in ms and not negative, and a number of
-- the input is finite (what is not finite is treated as missing). A setting is a natural number: the
-- code also raises a negative one to its least value and cuts the fraction off the count of ticks.
pub mod Lines
pub mod Census
pub mod NoReturn
pub mod Rank
pub mod Decide
pub mod Binding
pub mod Tests
use qlb.Base.{ℕ, ◌*◌, min, max, Bool, true, false, Option, none, some, List, Text, ℤ, or_else}

abbrev pub one_percent : ℕ
one_percent = 10000000000

abbrev pub hundred : ℕ
hundred = 1000000000000

-- `99.9`.
abbrev pub top_line : ℕ
top_line = 999000000000

-- `AutoswitchBucket`.
pub record Window : Type 0 where
  pub used_pct : Option ℕ
  pub reset_at : Option ℕ

-- `weeklyThreshold` is absent, null, or a number.
pub record AutoswitchAccount : Type 0 where
  pub account_id : Text
  pub buckets : List (Text × Window)
  pub dead : Bool
  pub threshold : Option ℕ
  pub weekly_threshold : Option (Option ℕ)
  pub slot_num : Option ℕ
  pub added_at_ms : Option ℕ

pub data Strategy : Type 0 where
  best consume_first : Strategy

pub record AutoswitchSettings : Type 0 where
  pub threshold : ℕ
  pub weekly_threshold : Option ℕ
  pub hysteresis_pct : ℕ
  pub cooldown_seconds : ℕ
  pub unhealthy_ticks : ℕ
  pub strategy : Strategy

-- `Partial<AutoswitchSettings>`; a missing set is one of missing fields.
pub record PartialSettings : Type 0 where
  pub threshold : Option ℕ
  pub weekly_threshold : Option ℕ
  pub hysteresis_pct : Option ℕ
  pub cooldown_seconds : Option ℕ
  pub unhealthy_ticks : Option ℕ
  pub strategy : Option Strategy

-- `Trigger | 'parked'`.
pub data Trigger : Type 0 where
  proactive at_limit failover consume_earlier parked_switch : Trigger

-- `trigger` and `outcome` of a row are what its texts say: a failover or an at-limit switch, ok.
pub record AutoswitchBreakerRow : Type 0 where
  pub ts : ℕ
  pub trigger : Option Trigger
  pub is_ok : Bool
  pub automatic : Option Bool
  pub injected : Option Bool

-- `leftHeadroom` and `leftRecoveryAtMs` may be absent, null, or a number.
pub record AutoswitchInput : Type 0 where
  pub accounts : List AutoswitchAccount
  pub active_account_id : Option Text
  pub now_ms : ℕ
  pub settings : PartialSettings
  pub provider_reported_limit : Bool
  pub active_credential_expired : Bool
  pub active_usage_unknown : Bool
  pub idle_hold_since_ms : Option ℕ
  pub last_switch_at_ms : Option ℕ
  pub unhealthy_ticks : Option ℕ
  pub parked_until_ms : Option ℕ
  pub last_switch_from : Option Text
  pub last_switch_to : Option Text
  pub left_headroom : Option (Option ℤ)
  pub left_recovery_at_ms : Option (Option ℕ)
  pub left_trigger : Option Trigger
  pub suspended_until_ms : Option ℕ
  pub last_suspension_end_ms : Option ℕ
  pub last_resume_at_ms : Option ℕ
  pub breaker_rows : List AutoswitchBreakerRow
  pub is_codex : Bool
  pub codex_l13_verified_at_ms : Option ℕ
  pub requests_consume_first : Bool

pub data StayReason : Type 0 where
  below_threshold cooldown unknown_usage active_idle no_active_account no_candidates : StayReason
  no_comparison no_qualifying_candidate reset_unknown breaker codex_l13_unverified : StayReason

pub record SwitchDecision : Type 0 where
  pub target_id : Text
  pub reason : Trigger
  pub unhealthy_ticks : ℕ
  pub parked_until_ms : Option ℕ
  pub left_headroom : Option ℤ
  pub left_recovery_at_ms : Option ℕ

-- `stay` has the reason, the ticks, `idleHoldSinceMs` and `suspendedUntilMs`; `parked` the account,
-- its reset and the ticks.
pub data AutoswitchDecision : Type 0 where
  stay : StayReason → ℕ → Option ℕ → Option ℕ → AutoswitchDecision
  switch_to : SwitchDecision → AutoswitchDecision
  parked : Text → ℕ → ℕ → AutoswitchDecision

abbrev pub idle_hold_max_ms : ℕ
idle_hold_max_ms = 1800000

abbrev pub recovery_hysteresis_ms : ℕ
recovery_hysteresis_ms = 300000

abbrev pub recovery_horizon_ms : ℕ
recovery_horizon_ms = 14400000

abbrev pub horizon_headroom_ratio : ℕ
horizon_headroom_ratio = 2

abbrev pub spent_headroom_pct : ℕ
spent_headroom_pct = 3 * one_percent

unfoldable pub clamp : Option ℕ → ℕ → ℕ → ℕ → ℕ
clamp none fallback lo hi = fallback
clamp (some value) fallback lo hi = min (max value lo) hi

clamp_weekly : Option ℕ → ℕ → ℕ → ℕ → Option ℕ
clamp_weekly none fallback lo hi = none
clamp_weekly (some value) fallback lo hi = some (clamp (some value) fallback lo hi)

unfoldable pub settings_for : AutoswitchInput → AutoswitchSettings
unfolding clamp_weekly
settings_for input =
    let requested = input.settings in
    record {
      threshold = clamp requested.threshold (90 * one_percent) (50 * one_percent) top_line;
      weekly_threshold =
          clamp_weekly requested.weekly_threshold (90 * one_percent) (50 * one_percent) top_line;
      hysteresis_pct = clamp requested.hysteresis_pct (10 * one_percent) 0 (50 * one_percent);
      cooldown_seconds = clamp requested.cooldown_seconds 300 0 86400;
      unhealthy_ticks = clamp requested.unhealthy_ticks 3 1 100;
      strategy = or_else requested.strategy Strategy.best;
    }

-- The effective lines of an account: its own, or the settings'.
unfoldable pub account_threshold : AutoswitchAccount → AutoswitchSettings → ℕ
account_threshold account settings =
    clamp account.threshold settings.threshold (50 * one_percent) top_line

unfoldable pub account_weekly : AutoswitchAccount → AutoswitchSettings → Option ℕ
unfolding clamp_weekly
account_weekly account settings =
    let threshold = account_threshold account settings in
    clamp_weekly (or_else account.weekly_threshold settings.weekly_threshold) threshold
      (50 * one_percent) top_line
