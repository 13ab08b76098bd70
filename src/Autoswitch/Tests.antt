-- ===== src/Autoswitch/Tests.antt =====
-- Auto-switch ticks at concrete fleets.
use qlb.Base.{
  ℕ, ◌≡◌, refl, true, false, none, some, List, [], ◌∷◌, Text, codes, ◌*◌, leb, Bool, Option, pos,
}
use qlb.Autoswitch.{
  one_percent, Window, AutoswitchAccount, AutoswitchInput, PartialSettings, Trigger, StayReason,
  SwitchDecision, AutoswitchDecision, settings_for, top_line,
}
use qlb.Autoswitch.Lines.{binding_window}
use qlb.Autoswitch.NoReturn.{is_over}
use qlb.Autoswitch.Binding.{
  Between, AllBetween, any_over, settings_for-Between, binding_window-over,
}
use qlb.Autoswitch.Decide.{decide_autoswitch}
use qlb.Autoswitch.Decide.Switches.{Target, Allowed, decide_autoswitch-switch}

abbrev account_at : Text → ℕ → AutoswitchAccount
account_at id pct = record {
  account_id = id;
  buckets =
      (codes "5h", record { used_pct = some (pct * one_percent); reset_at = some 50000 }) ∷ [];
  dead = false;
  threshold = none;
  weekly_threshold = none;
  slot_num = none;
  added_at_ms = none;
}

abbrev tick : List AutoswitchAccount → AutoswitchInput
tick accounts = record {
  accounts = accounts;
  active_account_id = some (codes "a");
  now_ms = 10000;
  settings = record {
    threshold = none;
    weekly_threshold = none;
    hysteresis_pct = none;
    cooldown_seconds = none;
    unhealthy_ticks = none;
    strategy = none;
  };
  provider_reported_limit = false;
  active_credential_expired = false;
  active_usage_unknown = false;
  idle_hold_since_ms = none;
  last_switch_at_ms = none;
  unhealthy_ticks = none;
  parked_until_ms = none;
  last_switch_from = none;
  last_switch_to = none;
  left_headroom = none;
  left_recovery_at_ms = none;
  left_trigger = none;
  suspended_until_ms = none;
  last_suspension_end_ms = none;
  last_resume_at_ms = none;
  breaker_rows = [];
  is_codex = false;
  codex_l13_verified_at_ms = none;
  requests_consume_first = false;
}

-- `a` is over its line, `b` has most of its window left.
abbrev busy_fleet : AutoswitchInput
busy_fleet =
    tick (account_at (codes "a") 95 ∷ account_at (codes "c") 60 ∷ account_at (codes "b") 20 ∷ [])

abbrev to_b : SwitchDecision
to_b = record {
  target_id = codes "b";
  reason = Trigger.proactive;
  unhealthy_ticks = 0;
  parked_until_ms = none;
  left_headroom = some (pos (5 * one_percent));
  left_recovery_at_ms = some 50000;
}

busy_fleet-switches : decide_autoswitch busy_fleet ≡ AutoswitchDecision.switch_to to_b
unfolding decide_autoswitch qlb.Base.text_eq qlb.Autoswitch.Census.binding_pct settings_for is_over
    qlb.Autoswitch.Census.binding_for binding_window qlb.Autoswitch.Lines.window_of
    qlb.Autoswitch.account_weekly qlb.Autoswitch.account_threshold qlb.Autoswitch.clamp
    qlb.Autoswitch.NoReturn.is_voluntary qlb.Autoswitch.Decide.decide_with_census
    qlb.Autoswitch.NoReturn.no_return_account qlb.Autoswitch.Rank.rank_candidates
    qlb.Autoswitch.Rank.place_all qlb.Autoswitch.Rank.measured_of qlb.Autoswitch.Rank.candidates_of
    qlb.Autoswitch.Census.account_before qlb.Autoswitch.Census.ahead
    qlb.Autoswitch.Census.binding_recovery qlb.Autoswitch.Census.census
    qlb.Autoswitch.Census.census_row qlb.Autoswitch.Census.census_rows
    qlb.Autoswitch.Census.headroom_of qlb.Autoswitch.Decide.breaker_decision
    qlb.Autoswitch.Decide.in_cooldown qlb.Autoswitch.Decide.is_forced
    qlb.Autoswitch.Decide.switch_decision qlb.Autoswitch.Lines.binding_from
    qlb.Autoswitch.Lines.frac_add qlb.Autoswitch.Lines.frac_lt qlb.Autoswitch.Lines.holds_more
    qlb.Autoswitch.Lines.line_headroom qlb.Autoswitch.Lines.pick_binding qlb.Autoswitch.Lines.times
    qlb.Autoswitch.Lines.whole qlb.Autoswitch.Lines.window_line qlb.Autoswitch.Rank.place
    qlb.Autoswitch.Rank.ranked_before qlb.Autoswitch.Rank.ranking_of qlb.Autoswitch.clamp_weekly
    qlb.Store.Config.lookup
busy_fleet-switches = refl

low_fleet-stays :
    decide_autoswitch (tick (account_at (codes "a") 50 ∷ []))
    ≡ AutoswitchDecision.stay StayReason.below_threshold 0 none none
unfolding decide_autoswitch qlb.Base.text_eq qlb.Autoswitch.Census.binding_pct settings_for is_over
    qlb.Autoswitch.Census.binding_for binding_window qlb.Autoswitch.Lines.window_of
    qlb.Autoswitch.account_weekly qlb.Autoswitch.account_threshold qlb.Autoswitch.clamp
low_fleet-stays = refl

spent_fleet-parks :
    decide_autoswitch (tick (account_at (codes "a") 100 ∷ []))
    ≡ AutoswitchDecision.parked (codes "a") 50000 0
unfolding decide_autoswitch qlb.Base.text_eq qlb.Autoswitch.Census.binding_pct
    qlb.Autoswitch.NoReturn.is_voluntary qlb.Autoswitch.Decide.decide_with_census
    qlb.Autoswitch.NoReturn.no_return_account qlb.Autoswitch.Rank.rank_candidates
    qlb.Autoswitch.Rank.place_all qlb.Autoswitch.Rank.measured_of qlb.Autoswitch.Rank.candidates_of
    qlb.Autoswitch.Census.census qlb.Autoswitch.Census.census_row
    qlb.Autoswitch.Decide.parked_decision qlb.Autoswitch.Census.exhausted_recovery
    qlb.Autoswitch.Census.ahead qlb.Autoswitch.Census.used_up
spent_fleet-parks = refl

decide_autoswitch-switch_example :
    (active : Text) × (busy_fleet.active_account_id ≡ some active)
    × Target busy_fleet active to_b
    × Allowed busy_fleet Trigger.proactive
decide_autoswitch-switch_example = decide_autoswitch-switch busy_fleet to_b busy_fleet-switches

settings_for-Between_example :
    let s = settings_for busy_fleet in
    Between (50 * one_percent) top_line s.threshold
    × AllBetween (50 * one_percent) top_line s.weekly_threshold
    × Between 0 (50 * one_percent) s.hysteresis_pct
    × Between 0 86400 s.cooldown_seconds
    × Between 1 100 s.unhealthy_ticks
settings_for-Between_example = settings_for-Between busy_fleet

abbrev two_windows : List (Text × ℕ × Option ℕ)
two_windows = (codes "5h", 95, none) ∷ (codes "7d", 40, none) ∷ []

binding_window-over_example :
    is_over (binding_window two_windows 90 (some 80) 90) ≡ any_over 90 (some 80) two_windows
binding_window-over_example = binding_window-over two_windows 90 (some 80) 90
