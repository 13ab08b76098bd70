-- ===== src/Autoswitch/Rank.antt =====
-- src/autoswitch.ts: the candidates for a switch, in order.
pub mod Targets
use qlb.Base.{
  ℕ, ◌+◌, Bool, true, false, not, ◌&&◌, ◌||◌, Option, none, some, List, [], ◌∷◌, ◌++◌, map, filter,
  sort, Text, codes, text_eq, if◌then◌else◌, ltb, leb, or_else, is_some, ℤ, pos, ltb_ℤ, max_ℤ,
  pos_part, neg_part, sub_ℕ, is_pos,
}
use qlb.Store.Config.{lookup}
use qlb.Autoswitch.{
  Window, AutoswitchAccount, AutoswitchSettings, Strategy, Trigger, horizon_headroom_ratio,
  spent_headroom_pct,
}
use qlb.Autoswitch.Lines.{Frac, BindingWindow, whole, times, frac_lt, frac_add}
use qlb.Autoswitch.Census.{CensusAccount, ahead, account_before}
use qlb.Autoswitch.NoReturn.{recovers_before, within_horizon, is_over, is_voluntary}

-- A number of a sort key; none is infinity.
abbrev pub Key : Type 0
Key = List (Option Frac)

element_before : Option Frac → Option Frac → Option Bool
element_before none none = none
element_before none (some b) = some false
element_before (some a) none = some true
element_before (some a) (some b) =
    if frac_lt a b then some true else if frac_lt b a then some false else none

decided : Option Bool → Option Bool → Option Bool
decided none later = later
decided (some first) later = some first

-- The first pair of elements that differ; a missing element is 0.
key_order : Key → Key → Option Bool
unfolding element_before decided
key_order [] [] = none
key_order [] (b ∷ bs) = decided (element_before (some (whole (pos 0))) b) (key_order [] bs)
key_order (a ∷ more) [] = decided (element_before a (some (whole (pos 0)))) (key_order more [])
key_order (a ∷ more) (b ∷ bs) = decided (element_before a b) (key_order more bs)

unfoldable pub ranked_before : CensusAccount × Key → CensusAccount × Key → Bool
unfolding key_order
ranked_before (a, k) (b, l) = or_else (key_order k l) (account_before a b)

negated : Frac → Frac
negated a = record a { num = sub_ℕ (neg_part a.num) (pos_part a.num) }

at_time : Option ℕ → Option Frac
at_time none = none
at_time (some t) = some (whole (pos t))

window_reset : Option Window → Option ℕ
window_reset none = none
window_reset (some w) = w.reset_at

first_of : Option ℕ → Option ℕ → Option ℕ
first_of none b = b
first_of (some a) b = some a

unfoldable pub weekly_reset : AutoswitchAccount → ℕ → Option ℕ
unfolding window_reset first_of
weekly_reset account now =
    ahead
      (first_of (window_reset (lookup (codes "7d") account.buckets)) (
        first_of (window_reset (lookup (codes "weekly") account.buckets))
          (window_reset (lookup (codes "secondary") account.buckets))))
      now

unfoldable pub recovery_is_useful : Option ℕ → Option ℕ → ℤ → ℤ → ℕ → Bool
recovery_is_useful candidate active active_headroom best_headroom now =
    (not (ltb_ℤ (pos spent_headroom_pct) active_headroom)
      && not (ltb_ℤ (pos spent_headroom_pct) best_headroom))
    || (within_horizon candidate now || within_horizon active now)

-- What all candidates are ranked by.
pub record Ranking : Type 0 where
  pub active : CensusAccount
  pub trigger : Trigger
  pub barred : Option Text
  pub settings : AutoswitchSettings
  pub now : ℕ
  pub all_above : Bool
  pub best_headroom : ℤ

pub data Placement : Type 0 where
  skipped : Placement
  qualified : Key → Placement
  held_back : Key → Placement

headroom_key : CensusAccount → ℤ → Frac
headroom_key item h = elim item.binding [ none ↦ whole h | some binding ↦ binding.line_headroom ]

is_consume_first : Strategy → Bool
is_consume_first Strategy.best = false
is_consume_first Strategy.consume_first = true

-- Where the active account and every candidate are over their lines.
place_above : Ranking → CensusAccount → ℤ → Placement
unfolding negated at_time
place_above r item h =
    let active_h = or_else r.active.raw_headroom (pos 0) in
    let earlier = recovers_before item.recovery_at_ms r.active.recovery_at_ms in
    let minus_h = some (negated (whole h)) in
    if recovery_is_useful item.recovery_at_ms r.active.recovery_at_ms active_h r.best_headroom r.now
    then (if earlier
        then Placement.qualified (some (whole (pos 0)) ∷ at_time item.recovery_at_ms ∷ minus_h ∷ [])
        else Placement.skipped)
    else if not (ltb_ℤ h (times active_h horizon_headroom_ratio))
    then Placement.qualified (some (whole (pos 1)) ∷ minus_h ∷ at_time item.recovery_at_ms ∷ [])
    else if not (ltb_ℤ (pos spent_headroom_pct) active_h) && (not (ltb_ℤ h active_h) && earlier)
    then Placement.held_back (some (whole (pos 0)) ∷ at_time item.recovery_at_ms ∷ minus_h ∷ [])
    else Placement.skipped

consume_key : Ranking → CensusAccount → ℤ → Key
unfolding at_time negated headroom_key
consume_key r item h =
    at_time (weekly_reset item.account r.now) ∷ some (negated (headroom_key item h)) ∷ []

-- `reset === undefined || activeWeeklyReset === undefined || reset >= activeWeeklyReset`.
not_earlier : Option ℕ → Option ℕ → Bool
not_earlier none active = true
not_earlier (some reset) none = true
not_earlier (some reset) (some active) = leb active reset

is_consume_trigger : Trigger → Bool
is_consume_trigger Trigger.consume_earlier = true
is_consume_trigger Trigger.proactive = false
is_consume_trigger Trigger.at_limit = false
is_consume_trigger Trigger.failover = false
is_consume_trigger Trigger.parked_switch = false

place_consume : Ranking → CensusAccount → ℤ → Placement
unfolding consume_key not_earlier is_consume_trigger
place_consume r item h =
    if is_consume_trigger r.trigger
      && not_earlier (weekly_reset item.account r.now) (weekly_reset r.active.account r.now)
    then Placement.skipped
    else Placement.qualified (consume_key r item h)

-- `active.binding && item.binding && item.lineHeadroom - active.lineHeadroom < hysteresisPct`.
too_close : Option BindingWindow → Option BindingWindow → ℕ → Bool
too_close none item hysteresis = false
too_close (some active) none hysteresis = false
too_close (some active) (some item) hysteresis =
    frac_lt item.line_headroom (frac_add active.line_headroom hysteresis)

place_voluntary : Ranking → CensusAccount → ℤ → Placement
unfolding place_above is_consume_first place_consume too_close negated headroom_key
    is_consume_trigger
place_voluntary r item h =
    if not r.all_above && is_over item.binding
    then Placement.skipped
    else if r.all_above
    then place_above r item h
    else if is_consume_first r.settings.strategy
    then place_consume r item h
    else if not (is_consume_trigger r.trigger)
        && too_close r.active.binding item.binding r.settings.hysteresis_pct
    then Placement.skipped
    else Placement.qualified (some (negated (headroom_key item h)) ∷ [])

-- After a failure or at the limit.
place_forced : Ranking → CensusAccount → ℤ → Placement
unfolding is_consume_first consume_key negated at_time headroom_key
place_forced r item h =
    if is_consume_first r.settings.strategy
    then Placement.qualified (consume_key r item h)
    else if r.all_above
    then Placement.qualified
        (some (whole (pos 1)) ∷ some (negated (whole h)) ∷ at_time item.recovery_at_ms ∷ [])
    else Placement.qualified (some (negated (headroom_key item h)) ∷ [])

is_barred : Option Text → Text → Bool
is_barred none id = false
is_barred (some barred) id = text_eq id barred

-- One turn of the loop over the measured candidates.
unfoldable pub place : Ranking → CensusAccount → ℤ → Placement
unfolding place_voluntary place_forced is_barred
place r item h =
    if not (is_pos h) || is_barred r.barred item.account.account_id
    then Placement.skipped
    else if is_voluntary r.trigger
    then place_voluntary r item h
    else place_forced r item h

-- The two lists of the loop, `qualified` and `fallback`.
add_placed :
    CensusAccount
    → Placement
    → List (CensusAccount × Key) × List (CensusAccount × Key)
    → List (CensusAccount × Key) × List (CensusAccount × Key)
add_placed item Placement.skipped (main, fallback) = (main, fallback)
add_placed item (Placement.qualified key) (main, fallback) = ((item, key) ∷ main, fallback)
add_placed item (Placement.held_back key) (main, fallback) = (main, (item, key) ∷ fallback)

place_measured : Ranking → CensusAccount → Option ℤ → Placement
place_measured r item none = Placement.skipped
place_measured r item (some h) = place r item h

unfoldable pub place_all :
    Ranking → List CensusAccount → List (CensusAccount × Key) × List (CensusAccount × Key)
unfolding add_placed place_measured
place_all r [] = ([], [])
place_all r (item ∷ rest) =
    add_placed item (place_measured r item item.raw_headroom) (place_all r rest)

every : (CensusAccount → Bool) → List CensusAccount → Bool
every p [] = true
every p (item ∷ rest) = p item && every p rest

nonempty_list {ℓ} : {A : Type ℓ} → List A → Bool
nonempty_list [] = false
nonempty_list (a ∷ rest) = true

highest_room : List CensusAccount → ℤ
highest_room [] = pos 0
highest_room (item ∷ rest) = max_ℤ (or_else item.raw_headroom (pos 0)) (highest_room rest)

unfoldable pub candidates_of : List CensusAccount → CensusAccount → List CensusAccount
candidates_of all active =
    filter (λ item. not (text_eq item.account.account_id active.account.account_id)) all

unfoldable pub measured_of : List CensusAccount → CensusAccount → List CensusAccount
measured_of all active = filter (λ item. is_some item.raw_headroom) (candidates_of all active)

-- `qualified.length > 0 ? qualified : fallback`, in order.
order_placed : List (CensusAccount × Key) × List (CensusAccount × Key) → List CensusAccount
order_placed ([], fallback) = map (λ entry. entry.0) (sort ranked_before fallback)
order_placed (entry ∷ rest, fallback) = map (λ entry. entry.0) (sort ranked_before (entry ∷ rest))

unfoldable pub ranking_of :
    List CensusAccount → CensusAccount → Trigger → Option Text → AutoswitchSettings → ℕ → Ranking
unfolding every nonempty_list highest_room
ranking_of all active trigger barred settings now =
    let measured = measured_of all active in
    record {
      active = active;
      trigger = trigger;
      barred = barred;
      settings = settings;
      now = now;
      all_above =
          is_over active.binding
          && (nonempty_list measured && every (λ item. is_over item.binding) measured);
      best_headroom = highest_room measured;
    }

-- `rankCandidates`: the order, and whether any candidate is measured.
unfoldable pub rank_candidates :
    List CensusAccount
    → CensusAccount
    → Trigger
    → Option Text
    → AutoswitchSettings
    → ℕ
    → List CensusAccount × Bool
unfolding order_placed nonempty_list
rank_candidates all active trigger barred settings now =
    let measured = measured_of all active in
    (
      order_placed (place_all (ranking_of all active trigger barred settings now) measured),
      nonempty_list measured,
    )
