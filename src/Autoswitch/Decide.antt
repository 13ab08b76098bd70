-- ===== src/Autoswitch/Decide.antt =====
-- src/autoswitch.ts: the decision.
pub mod Switches
use qlb.Base.{
  ℕ, zero, suc, ◌+◌, ◌*◌, ◌==◌, Bool, true, false, not, ◌&&◌, ◌||◌, Option, none, some, List, [],
  ◌∷◌, length, find, filter, sort, Text, text_eq, if◌then◌else◌, ltb, leb, or_else, is_some,
}
use qlb.Autoswitch.{
  hundred, AutoswitchAccount, AutoswitchSettings, AutoswitchInput, AutoswitchBreakerRow, Strategy,
  Trigger, StayReason, SwitchDecision, AutoswitchDecision, idle_hold_max_ms, settings_for,
}
use qlb.Autoswitch.Census.{
  CensusAccount, binding_pct, binding_for, exhausted_recovery, census, account_before,
}
use qlb.Autoswitch.NoReturn.{is_over, is_failover, is_voluntary, no_return_account}
use qlb.Autoswitch.Rank.{rank_candidates, candidates_of}

unfoldable pub switch_decision :
    CensusAccount → Trigger → CensusAccount → ℕ → Option ℕ → AutoswitchDecision
switch_decision target trigger active ticks parked_until = AutoswitchDecision.switch_to (record {
  target_id = target.account.account_id;
  reason = trigger;
  unhealthy_ticks = ticks;
  parked_until_ms = parked_until;
  left_headroom = active.raw_headroom;
  left_recovery_at_ms = active.recovery_at_ms;
})

stay_for : StayReason → ℕ → AutoswitchDecision
stay_for reason ticks = AutoswitchDecision.stay reason ticks none none

keep_reset : CensusAccount → Option ℕ → List (CensusAccount × ℕ) → List (CensusAccount × ℕ)
keep_reset item none rest = rest
keep_reset item (some reset) rest = (item, reset) ∷ rest

with_reset : ℕ → List CensusAccount → List (CensusAccount × ℕ)
unfolding keep_reset
with_reset now [] = []
with_reset now (item ∷ rest) =
    keep_reset item (exhausted_recovery item.account now) (with_reset now rest)

sooner : CensusAccount × ℕ → CensusAccount × ℕ → Bool
sooner (a, s) (b, t) = if s == t then account_before a b else ltb s t

is_same_reset : Option ℕ → ℕ → Bool
is_same_reset none reset = false
is_same_reset (some until) reset = until == reset

park_at : CensusAccount → AutoswitchInput → ℕ → List (CensusAccount × ℕ) → AutoswitchDecision
unfolding stay_for is_same_reset
park_at active input ticks [] = stay_for StayReason.reset_unknown ticks
park_at active input ticks ((target, reset) ∷ rest) =
    if text_eq target.account.account_id active.account.account_id
      || is_same_reset input.parked_until_ms reset
    then AutoswitchDecision.parked target.account.account_id reset ticks
    else switch_decision target Trigger.parked_switch active ticks (some reset)

unfoldable pub parked_decision :
    List CensusAccount → CensusAccount → AutoswitchInput → ℕ → AutoswitchDecision
unfolding with_reset sooner park_at
parked_decision all active input ticks =
    park_at active input ticks (sort sooner (with_reset input.now_ms all))

unfoldable pub is_forced : Trigger → Bool
is_forced Trigger.failover = true
is_forced Trigger.at_limit = true
is_forced Trigger.proactive = false
is_forced Trigger.consume_earlier = false
is_forced Trigger.parked_switch = false

after_time : ℕ → Option ℕ → Bool
after_time ts none = true
after_time ts (some since) = ltb since ts

forced_row : Option Trigger → Bool
unfolding is_forced
forced_row none = false
forced_row (some trigger) = is_forced trigger

-- The rows that the breaker counts.
unfoldable pub counts_for : AutoswitchInput → AutoswitchBreakerRow → Bool
unfolding after_time forced_row
counts_for input row =
    ltb input.now_ms (row.ts + 3600000)
    && (after_time row.ts input.last_suspension_end_ms
        && (after_time row.ts input.last_resume_at_ms
            && (row.is_ok
                && (forced_row row.trigger
                    && (or_else row.automatic true && not (or_else row.injected false))))))

unfoldable pub recent_switches : AutoswitchInput → ℕ
recent_switches input = length (filter (counts_for input) input.breaker_rows)

-- A suspension that is not over.
unfoldable pub suspended : AutoswitchInput → Option ℕ
suspended input = elim input.suspended_until_ms [
  | none ↦ none
  | some until ↦ (if ltb input.now_ms until then some until else none)
]

unless_suspended : AutoswitchInput → ℕ → Option ℕ → Option AutoswitchDecision
unless_suspended input ticks (some until) =
    some (AutoswitchDecision.stay StayReason.breaker ticks none (some until))
unless_suspended input ticks none =
    if leb 3 (recent_switches input)
    then some
        (AutoswitchDecision.stay StayReason.breaker ticks none (some (input.now_ms + 3600000)))
    else none

unfoldable pub breaker_decision : AutoswitchInput → Trigger → ℕ → Option AutoswitchDecision
unfolding is_forced unless_suspended
breaker_decision input trigger ticks =
    if is_forced trigger then unless_suspended input ticks (suspended input) else none

all_exhausted : List CensusAccount → Bool
all_exhausted [] = true
all_exhausted (item ∷ rest) = item.exhausted && all_exhausted rest

fleet_exhausted : List CensusAccount → Bool
unfolding all_exhausted
fleet_exhausted [] = false
fleet_exhausted (item ∷ rest) = all_exhausted (item ∷ rest)

-- `peers.length === 0`, and whether any of them is measured.
no_peers : ℕ → Bool → List CensusAccount → AutoswitchDecision
unfolding stay_for
no_peers ticks any_known [] = stay_for StayReason.no_candidates ticks
no_peers ticks any_known (peer ∷ rest) =
    stay_for (if any_known then StayReason.no_qualifying_candidate else StayReason.no_comparison)
      ticks

-- No candidate qualifies.
no_target : AutoswitchInput → ℕ → List CensusAccount → CensusAccount → Bool → AutoswitchDecision
unfolding fleet_exhausted no_peers
no_target input ticks all active any_known =
    if fleet_exhausted all
    then parked_decision all active input ticks
    else no_peers ticks any_known (candidates_of all active)

act_on :
    AutoswitchInput
    → Trigger
    → ℕ
    → List CensusAccount
    → CensusAccount
    → List CensusAccount × Bool
    → AutoswitchDecision
unfolding no_target
act_on input trigger ticks all active ([], any_known) = no_target input ticks all active any_known
act_on input trigger ticks all active (target ∷ rest, any_known) =
    or_else (breaker_decision input trigger ticks)
      (switch_decision target trigger active ticks none)

-- A barred account that has recovered is ranked again where nothing else is there.
second_ranking :
    Option Text × Bool
    → List CensusAccount × Bool
    → List CensusAccount × Bool
    → List CensusAccount × Bool
second_ranking (some barred, true) ([], any_known) again = again
second_ranking (some barred, true) (target ∷ rest, any_known) again = (target ∷ rest, any_known)
second_ranking (some barred, false) ranked again = ranked
second_ranking (none, recovered) ranked again = ranked

unfoldable pub decide_with_census :
    AutoswitchInput
    → AutoswitchSettings
    → Trigger
    → ℕ
    → List CensusAccount
    → CensusAccount
    → AutoswitchDecision
unfolding act_on second_ranking stay_for
decide_with_census input settings trigger ticks all active =
    let no_return = no_return_account input trigger all active input.now_ms in
    if input.is_codex && not (is_some input.codex_l13_verified_at_ms)
    then stay_for StayReason.codex_l13_unverified ticks
    else act_on input trigger ticks all active (
        second_ranking no_return
          (rank_candidates all active trigger no_return.0 settings input.now_ms)
          (rank_candidates all active trigger none settings input.now_ms))

-- A dead active account is not in the census; its usage counts as unknown, and
-- its index (-1 in the source) is compared with none.
unknown_account : AutoswitchAccount → CensusAccount
unknown_account account = record {
  account = account;
  index = 0;
  raw_headroom = none;
  binding = none;
  recovery_at_ms = none;
  exhausted = false;
  has_room = false;
}

unfoldable pub in_cooldown : AutoswitchInput → AutoswitchSettings → Bool
in_cooldown input settings = elim input.last_switch_at_ms [
  | none ↦ false
  | some at ↦ ltb input.now_ms (at + settings.cooldown_seconds * 1000)
]

-- What a tick has come to once the trigger is known.
with_trigger :
    AutoswitchInput
    → AutoswitchSettings
    → AutoswitchAccount
    → Bool
    → Bool
    → Trigger
    → ℕ
    → AutoswitchDecision
unfolding in_cooldown unknown_account stay_for
with_trigger input settings account limited usage_unknown trigger ticks =
    let all =
      census input.accounts settings input.now_ms account.account_id limited usage_unknown in
    if is_voluntary trigger && in_cooldown input settings
    then stay_for StayReason.cooldown ticks
    else decide_with_census input settings trigger ticks all (
        or_else (find (λ item. text_eq item.account.account_id account.account_id) all)
          (unknown_account account))

is_consume_first : Strategy → Bool
is_consume_first Strategy.best = false
is_consume_first Strategy.consume_first = true

-- The trigger of a known percentage; none is below the threshold.
known_trigger : AutoswitchInput → AutoswitchSettings → AutoswitchAccount → ℕ → Option Trigger
unfolding is_consume_first
known_trigger input settings account raw =
    let over = is_over (binding_for account settings) in
    if input.provider_reported_limit || leb hundred raw
    then some Trigger.at_limit
    else if (is_consume_first settings.strategy || input.requests_consume_first) && not over
    then some Trigger.consume_earlier
    else if over
    then some Trigger.proactive
    else none

on_known :
    AutoswitchInput
    → AutoswitchSettings
    → AutoswitchAccount
    → Bool
    → Option Trigger
    → AutoswitchDecision
unfolding stay_for with_trigger
on_known input settings account usage_unknown none = stay_for StayReason.below_threshold 0
on_known input settings account usage_unknown (some trigger) =
    with_trigger input settings account input.provider_reported_limit usage_unknown trigger 0

on_raw :
    AutoswitchInput → AutoswitchSettings → AutoswitchAccount → Bool → Option ℕ → AutoswitchDecision
unfolding stay_for with_trigger on_known known_trigger
on_raw input settings account usage_unknown none =
    let ticks = or_else input.unhealthy_ticks 0 + 1 in
    if ltb ticks settings.unhealthy_ticks
    then stay_for StayReason.unknown_usage ticks
    else with_trigger input settings account false usage_unknown Trigger.failover ticks
on_raw input settings account usage_unknown (some raw) =
    on_known input settings account usage_unknown (known_trigger input settings account raw)

-- `expiredPastIdleHold`.
past_idle_hold : AutoswitchInput → Bool
past_idle_hold input = elim input.idle_hold_since_ms [
  | none ↦ false
  | some since ↦ input.active_credential_expired && leb (since + idle_hold_max_ms) input.now_ms
]

-- `input.nowMs - since < IDLE_HOLD_MAX_MS`.
in_idle_hold : AutoswitchInput → ℕ → Bool
in_idle_hold input since =
    input.active_credential_expired && ltb input.now_ms (since + idle_hold_max_ms)

on_active : AutoswitchInput → AutoswitchSettings → AutoswitchAccount → AutoswitchDecision
unfolding past_idle_hold in_idle_hold on_raw
on_active input settings account =
    let expired = past_idle_hold input in
    let since = or_else input.idle_hold_since_ms input.now_ms in
    let unknown = expired || input.active_usage_unknown in
    if in_idle_hold input since
    then AutoswitchDecision.stay StayReason.active_idle 0 (some since) none
    else on_raw input settings account unknown
        (if account.dead || unknown then none else binding_pct account)

find_active : AutoswitchInput → Option AutoswitchAccount
find_active input = elim input.active_account_id [
  | none ↦ none
  | some id ↦ find (λ account. text_eq account.account_id id) input.accounts
]

on_found : AutoswitchInput → Option AutoswitchAccount → AutoswitchDecision
unfolding on_active stay_for
on_found input none = stay_for StayReason.no_active_account 0
on_found input (some account) = on_active input (settings_for input) account

-- `decideAutoswitch`.
unfoldable pub decide_autoswitch : AutoswitchInput → AutoswitchDecision
unfolding find_active on_found
decide_autoswitch input = on_found input (find_active input)
