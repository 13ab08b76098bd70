-- ===== src/Autoswitch/NoReturn.antt =====
-- src/autoswitch.ts: whether a switch back to the account that was left is barred.
use qlb.Base.{
  ℕ, ◌+◌, Bool, true, false, not, ◌&&◌, ◌||◌, Option, none, some, List, find, Text, text_eq,
  if◌then◌else◌, ltb, leb, is_some, ℤ, pos, ltb_ℤ, min_ℤ, pos_part, neg_part, sub_ℕ,
}
use qlb.Autoswitch.{
  hundred, AutoswitchInput, Trigger, recovery_hysteresis_ms, recovery_horizon_ms,
  horizon_headroom_ratio, spent_headroom_pct,
}
use qlb.Autoswitch.Lines.{BindingWindow, times}
use qlb.Autoswitch.Census.{CensusAccount}

-- `a + k`.
unfoldable pub plus : ℤ → ℕ → ℤ
plus a k = sub_ℕ (pos_part a + k) (neg_part a)

-- `a < b - RECOVERY_HYSTERESIS_MS`, where none is infinity.
unfoldable pub recovers_before : Option ℕ → Option ℕ → Bool
recovers_before none b = false
recovers_before (some a) none = true
recovers_before (some a) (some b) = ltb (a + recovery_hysteresis_ms) b

-- `recovery !== undefined && recovery - now <= RECOVERY_HORIZON_MS`.
unfoldable pub within_horizon : Option ℕ → ℕ → Bool
within_horizon none now = false
within_horizon (some recovery) now = leb recovery (now + recovery_horizon_ms)

unfoldable pub is_over : Option BindingWindow → Bool
is_over none = false
is_over (some binding) = binding.over

-- `binding && !binding.over`.
under_line : Option BindingWindow → Bool
under_line none = false
under_line (some binding) = not binding.over

unfoldable pub is_failover : Trigger → Bool
is_failover Trigger.failover = true
is_failover Trigger.proactive = false
is_failover Trigger.at_limit = false
is_failover Trigger.consume_earlier = false
is_failover Trigger.parked_switch = false

is_null {ℓ} : {A : Type ℓ} → Option (Option A) → Bool
is_null none = false
is_null (some none) = true
is_null (some (some a)) = false

failover_snapshot : AutoswitchInput → Bool
unfolding is_null
failover_snapshot input = elim input.left_trigger [
  | some trigger ↦ is_failover trigger
  | none ↦ is_null input.left_headroom && is_null input.left_recovery_at_ms
]

failover_recovered : CensusAccount → CensusAccount → ℕ → Bool
unfolding under_line
failover_recovered left active now =
    under_line left.binding
    || ((is_some active.recovery_at_ms || within_horizon left.recovery_at_ms now)
        && recovers_before left.recovery_at_ms active.recovery_at_ms)

-- `h > activeH * 2 + 3`.
much_more_room : Option ℤ → Option ℤ → Bool
unfolding times plus
much_more_room none active = false
much_more_room (some h) none = false
much_more_room (some h) (some active) =
    ltb_ℤ (plus (times active horizon_headroom_ratio) spent_headroom_pct) h

-- `h >= Math.min(leftHeadroom + 3, 100)`.
more_than_left : Option ℤ → Option (Option ℤ) → Bool
unfolding plus
more_than_left (some h) (some (some left)) =
    not (ltb_ℤ h (min_ℤ (plus left spent_headroom_pct) (pos hundred)))
more_than_left (some h) (some none) = false
more_than_left (some h) none = false
more_than_left none left = false

flat {ℓ} : {A : Type ℓ} → Option (Option A) → Option A
flat none = none
flat (some a) = a

-- `noReturnRecovered`, with an account to look at.
left_recovered : AutoswitchInput → CensusAccount → CensusAccount → ℕ → Bool
unfolding failover_snapshot failover_recovered much_more_room more_than_left flat
left_recovered input left active now =
    if failover_snapshot input
    then failover_recovered left active now
    else much_more_room left.raw_headroom active.raw_headroom
      || (more_than_left left.raw_headroom input.left_headroom
          || recovers_before left.recovery_at_ms (flat input.left_recovery_at_ms))

recovered_of : AutoswitchInput → Option CensusAccount → CensusAccount → ℕ → Bool
unfolding left_recovered
recovered_of input none active now = false
recovered_of input (some left) active now = left_recovered input left active now

unfoldable pub no_return_recovered :
    AutoswitchInput → Option CensusAccount → CensusAccount → ℕ → Bool
unfolding recovered_of
no_return_recovered input left active now =
    if is_some input.last_switch_from && is_some input.left_headroom
    then recovered_of input left active now
    else true

unfoldable pub is_voluntary : Trigger → Bool
is_voluntary Trigger.proactive = true
is_voluntary Trigger.consume_earlier = true
is_voluntary Trigger.failover = false
is_voluntary Trigger.at_limit = false
is_voluntary Trigger.parked_switch = false

-- A recovered account may be returned to where it has at least twice the room of the active one.
may_return : Option CensusAccount → CensusAccount → Bool
unfolding times under_line
may_return none active = false
may_return (some left) active = elim left.raw_headroom [
  | none ↦ false
  | some h ↦ elim active.raw_headroom [
    | some active_h ↦ not (ltb_ℤ h (times active_h horizon_headroom_ratio))
    | none ↦ under_line left.binding
  ]
]

-- Was the last switch one to another account than the active one?
moved_on : Option Text → Text → Bool
moved_on none active_id = false
moved_on (some to) active_id = not (text_eq to active_id)

no_return_from :
    AutoswitchInput → List CensusAccount → CensusAccount → ℕ → Text → Option Text × Bool
unfolding may_return
no_return_from input all active now from =
    let left = find (λ item. text_eq item.account.account_id from) all in
    let recovered = no_return_recovered input left active now in
    if recovered && may_return left active then (none, recovered) else (some from, recovered)

-- `noReturnAccount`: the barred account, and whether it has recovered.
unfoldable pub no_return_account :
    AutoswitchInput → Trigger → List CensusAccount → CensusAccount → ℕ → Option Text × Bool
unfolding no_return_from moved_on
no_return_account input trigger all active now = elim input.last_switch_from [
  | none ↦ (none, true)
  | some from ↦
      (if is_voluntary trigger && not (moved_on input.last_switch_to active.account.account_id)
        then no_return_from input all active now from
        else (none, true))
]
