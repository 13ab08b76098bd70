-- ===== src/Autoswitch/Decide/Switches.antt =====
-- src/autoswitch.ts: what a switch that is decided goes to, and what allows it.
use mathlib.Core.Option.{some-injective}
use qlb.Base.{
  ℕ, ◌+◌, ◌≡◌, ◌⊎◌, refl, sym, subst, ap, inl, inr, Bool, true, false, not, ◌&&◌, ◌||◌, Option,
  none, some, List, [], ◌∷◌, Memᴰ, All, find, sort, Text, text_eq, text_eq_iff, leb, ltb, ◌∙◌,
  is_some, or_else, if◌then◌else◌, Bool-cases, Option-cases, sub_ℕ, is_pos,
}
use qlb.Base.Sorting.{All-sort, find-some}
use qlb.Autoswitch.{
  hundred, AutoswitchAccount, AutoswitchInput, Trigger, StayReason, SwitchDecision,
  AutoswitchDecision, settings_for,
}
use qlb.Autoswitch.Census.{CensusAccount, binding_pct, exhausted_recovery, census}
use qlb.Autoswitch.NoReturn.{is_voluntary, no_return_account}
use qlb.Autoswitch.Rank.{rank_candidates, candidates_of}
use qlb.Autoswitch.Rank.Targets.{Known, Eligible, census-Known, rank_candidates-Eligible}
use qlb.Autoswitch.Decide.{
  switch_decision, stay_for, keep_reset, with_reset, sooner, is_same_reset, park_at,
  parked_decision, is_forced, recent_switches, suspended, unless_suspended, breaker_decision,
  fleet_exhausted, no_peers, no_target, act_on, second_ranking, decide_with_census, unknown_account,
  in_cooldown, with_trigger, known_trigger, on_known, on_raw, past_idle_hold, in_idle_hold,
  on_active, find_active, on_found, decide_autoswitch,
}

-- An account of the input that may be switched to: not dead, not the active one, and with room left
-- unless it is parked on.
pub record Target (input : AutoswitchInput) (active : Text) (d : SwitchDecision) : Type 0 where
  pub account : AutoswitchAccount
  pub listed : Memᴰ account input.accounts
  pub named : account.account_id ≡ d.target_id
  pub alive : account.dead ≡ false
  pub other : text_eq d.target_id active ≡ false
  pub room :
      (d.reason ≡ Trigger.parked_switch)
      ⊎ ((p : ℕ) × (binding_pct account ≡ some p) × (is_pos (sub_ℕ hundred p) ≡ true))

-- What allows a switch: a verified provider, no cooldown and no open breaker.
pub record Allowed (input : AutoswitchInput) (reason : Trigger) : Type 0 where
  pub verified : input.is_codex && not (is_some input.codex_l13_verified_at_ms) ≡ false
  pub cooled : is_voluntary reason && in_cooldown input (settings_for input) ≡ false
  pub not_suspended : is_forced reason && is_some (suspended input) ≡ false
  pub few : is_forced reason && leb 3 (recent_switches input) ≡ false

-- A decision that, where it is a switch, is an allowed one to a target.
unfoldable pub Justified : AutoswitchInput → Text → AutoswitchDecision → Type 0
Justified input active (AutoswitchDecision.stay reason ticks idle until) = Unit
Justified input active (AutoswitchDecision.parked account reset ticks) = Unit
Justified input active (AutoswitchDecision.switch_to d) =
    Target input active d × Allowed input d.reason

unfoldable Verified : AutoswitchInput → Type 0
Verified input = input.is_codex && not (is_some input.codex_l13_verified_at_ms) ≡ false

park_at-Justified :
    (active : CensusAccount) (input : AutoswitchInput) (ticks : ℕ)
    (entries : List (CensusAccount × ℕ))
    → Verified input
    → All (λ entry. Known input.accounts entry.0) entries
    → Justified input active.account.account_id (park_at active input ticks entries)
unfolding park_at Justified stay_for Known switch_decision Verified is_voluntary is_forced
park_at-Justified active input ticks [] v ks = tt
park_at-Justified active input ticks ((target, reset) ∷ rest) v ((listed, alive, room), ks) =
    elim (Bool-cases (text_eq target.account.account_id active.account.account_id)) [
      | inl same ↦ simp same tt
      | inr other ↦ elim (Bool-cases (is_same_reset input.parked_until_ms reset)) [
        | inl again ↦ simp (other, again) tt
        | inr new ↦
            simp (other, new)
              (
                record {
                  account = target.account;
                  listed = listed;
                  named = refl;
                  alive = alive;
                  other = other;
                  room = inl refl;
                },
                record { verified = v; cooled = refl; not_suspended = refl; few = refl },
              )
      ]
    ]

with_reset-Known :
    (accounts : List AutoswitchAccount) (now : ℕ) (all : List CensusAccount)
    → All (Known accounts) all
    → All (λ entry. Known accounts entry.0) (with_reset now all)
unfolding with_reset keep_reset
with_reset-Known accounts now [] ks = tt
with_reset-Known accounts now (item ∷ rest) (k, ks) =
    elim (Option-cases (exhausted_recovery item.account now)) [
      | inl no_reset ↦ simp no_reset (with_reset-Known accounts now rest ks)
      | inr (reset, e) ↦ simp e (k, with_reset-Known accounts now rest ks)
    ]

no_target-Justified :
    (input : AutoswitchInput) (ticks : ℕ) (all : List CensusAccount) (active : CensusAccount)
    (any_known : Bool)
    → Verified input
    → All (Known input.accounts) all
    → Justified input active.account.account_id (no_target input ticks all active any_known)
unfolding no_target parked_decision Justified no_peers stay_for
no_target-Justified input ticks all active any_known v ks =
    elim (Bool-cases (fleet_exhausted all)) [
      | inl spent ↦ rw spent (
          park_at-Justified active input ticks (sort sooner (with_reset input.now_ms all)) v (
            All-sort sooner (λ entry. Known input.accounts entry.0) (with_reset input.now_ms all)
              (with_reset-Known input.accounts input.now_ms all ks)))
      | inr room ↦ rw room (no_peers-stays any_known (candidates_of all active))
    ]
  where
    no_peers-stays :
        (any_known : Bool) (peers : List CensusAccount)
        → Justified input active.account.account_id (no_peers ticks any_known peers)
    no_peers-stays any_known [] = tt
    no_peers-stays any_known (peer ∷ rest) = tt

unless-none :
    (input : AutoswitchInput) (ticks : ℕ) (o : Option ℕ)
    → unless_suspended input ticks o ≡ none
    → (is_some o ≡ false) × (leb 3 (recent_switches input) ≡ false)
unfolding unless_suspended
unless-none input ticks (some until) e = cc
unless-none input ticks none e = elim (Bool-cases (leb 3 (recent_switches input))) [
  | inl many ↦ cc (rw many at e)
  | inr few ↦ (refl, few)
]

unless-stays :
    (input : AutoswitchInput) (ticks : ℕ) (active : Text) (o : Option ℕ) (d : AutoswitchDecision)
    → unless_suspended input ticks o ≡ some d
    → Justified input active d
unfolding unless_suspended Justified
unless-stays input ticks active (some until) d e =
    subst (Justified input active)
      (some-injective (AutoswitchDecision.stay StayReason.breaker ticks none (some until)) d e) tt
unless-stays input ticks active none d e = elim (Bool-cases (leb 3 (recent_switches input))) [
  | inr few ↦ cc (rw few at e)
  | inl many ↦
      subst (Justified input active)
        (some-injective
          (AutoswitchDecision.stay StayReason.breaker ticks none (some (input.now_ms + 3600000))) d
          (rw many at e))
        tt
]

breaker-none :
    (input : AutoswitchInput) (trigger : Trigger) (ticks : ℕ)
    → breaker_decision input trigger ticks ≡ none
    → (is_forced trigger && is_some (suspended input) ≡ false)
      × (is_forced trigger && leb 3 (recent_switches input) ≡ false)
unfolding breaker_decision
breaker-none input trigger ticks e = elim (Bool-cases (is_forced trigger)) [
  | inr free ↦ rw free (refl, refl)
  | inl forced ↦ rw forced (unless-none input ticks (suspended input) (rw forced at e))
]

breaker-stays :
    (input : AutoswitchInput) (trigger : Trigger) (ticks : ℕ) (active : Text)
    (d : AutoswitchDecision)
    → breaker_decision input trigger ticks ≡ some d
    → Justified input active d
unfolding breaker_decision
breaker-stays input trigger ticks active d e = elim (Bool-cases (is_forced trigger)) [
  | inr free ↦ cc (rw free at e)
  | inl forced ↦ unless-stays input ticks active (suspended input) d (rw forced at e)
]

act_on-Justified :
    (input : AutoswitchInput) (trigger : Trigger) (ticks : ℕ) (all : List CensusAccount)
    (active : CensusAccount) (ranked : List CensusAccount × Bool)
    → Verified input
    → is_voluntary trigger && in_cooldown input (settings_for input) ≡ false
    → All (Known input.accounts) all
    → All (Eligible input.accounts active.account.account_id) ranked.0
    → Justified input active.account.account_id (act_on input trigger ticks all active ranked)
unfolding act_on Eligible Verified Known switch_decision Justified
act_on-Justified input trigger ticks all active ([], any_known) v cool ks es =
    no_target-Justified input ticks all active any_known v ks
act_on-Justified input trigger ticks all active (target ∷ rest, any_known) v cool ks
      (((listed, alive, known), other, (h, is, room)), es) =
    elim (Option-cases (breaker_decision input trigger ticks)) [
      | inr (d, e) ↦ rw e (breaker-stays input trigger ticks active.account.account_id d e)
      | inl no_breaker ↦
          let (p, pct, left) = known h is in
          rw no_breaker (
            record {
              account = target.account;
              listed = listed;
              named = refl;
              alive = alive;
              other = other;
              room = inr (p, pct, (rw left at room));
            },
            record {
              verified = v;
              cooled = cool;
              not_suspended = (breaker-none input trigger ticks no_breaker).0;
              few = (breaker-none input trigger ticks no_breaker).1;
            },
          )
    ]

second_ranking-All :
    (P : CensusAccount → Type 0) (barred : Option Text × Bool)
    (ranked again : List CensusAccount × Bool)
    → All P ranked.0
    → All P again.0
    → All P (second_ranking barred ranked again).0
unfolding second_ranking
second_ranking-All P (some id, true) ([], any_known) again ps qs = qs
second_ranking-All P (some id, true) (target ∷ rest, any_known) again ps qs = ps
second_ranking-All P (some id, false) ranked again ps qs = ps
second_ranking-All P (none, recovered) ranked again ps qs = ps

decide_with_census-Justified :
    (input : AutoswitchInput) (trigger : Trigger) (ticks : ℕ) (all : List CensusAccount)
    (active : CensusAccount)
    → is_voluntary trigger && in_cooldown input (settings_for input) ≡ false
    → All (Known input.accounts) all
    → Justified input active.account.account_id
        (decide_with_census input (settings_for input) trigger ticks all active)
unfolding decide_with_census Justified stay_for Verified
decide_with_census-Justified input trigger ticks all active cool ks =
    elim (Bool-cases (input.is_codex && not (is_some input.codex_l13_verified_at_ms))) [
      | inl unverified ↦ rw unverified tt
      | inr verified ↦
          let settings = settings_for input in
          let barred = no_return_account input trigger all active input.now_ms in
          let first = rank_candidates all active trigger barred.0 settings input.now_ms in
          let again = rank_candidates all active trigger none settings input.now_ms in
          let id = active.account.account_id in
          rw verified (
            act_on-Justified input trigger ticks all active (second_ranking barred first again)
              verified cool ks
              (second_ranking-All (Eligible input.accounts id) barred first again
                (rank_candidates-Eligible input.accounts all active trigger barred.0 settings
                  input.now_ms ks)
                (rank_candidates-Eligible input.accounts all active trigger none settings
                  input.now_ms ks)))
    ]

-- The entry of the active account, or the unknown one, has its id.
active_entry-id :
    (account : AutoswitchAccount) (all : List CensusAccount)
    → (or_else
        (find (λ item. text_eq item.account.account_id account.account_id) all)
        (unknown_account account)).account.account_id
      ≡ account.account_id
unfolding unknown_account
active_entry-id account all =
    elim (Option-cases (find (λ item. text_eq item.account.account_id account.account_id) all)) [
      | inl missing ↦ rw missing refl
      | inr (item, e) ↦ rw e (
          (text_eq_iff item.account.account_id account.account_id).0
            (find-some (λ item. text_eq item.account.account_id account.account_id) all e).1)
    ]

with_trigger-Justified :
    (input : AutoswitchInput) (account : AutoswitchAccount) (limited unknown : Bool)
    (trigger : Trigger) (ticks : ℕ)
    → Justified input account.account_id
        (with_trigger input (settings_for input) account limited unknown trigger ticks)
unfolding with_trigger Justified stay_for
with_trigger-Justified input account limited unknown trigger ticks =
    elim (Bool-cases (is_voluntary trigger && in_cooldown input (settings_for input))) [
      | inl cooling ↦ rw cooling tt
      | inr cool ↦
          let settings = settings_for input in
          let all =
            census input.accounts settings input.now_ms account.account_id limited unknown in
          let active =
            or_else (find (λ item. text_eq item.account.account_id account.account_id) all)
              (unknown_account account) in
          rw cool (
            subst
              (λ id.
                Justified input id (decide_with_census input settings trigger ticks all active))
              (active_entry-id account all)
              (decide_with_census-Justified input trigger ticks all active cool (
                census-Known input.accounts settings input.now_ms account.account_id limited
                  unknown)))
    ]

on_known-Justified :
    (input : AutoswitchInput) (account : AutoswitchAccount) (unknown : Bool) (o : Option Trigger)
    → Justified input account.account_id (on_known input (settings_for input) account unknown o)
unfolding on_known Justified stay_for
on_known-Justified input account unknown none = tt
on_known-Justified input account unknown (some trigger) =
    with_trigger-Justified input account input.provider_reported_limit unknown trigger 0

on_raw-Justified :
    (input : AutoswitchInput) (account : AutoswitchAccount) (unknown : Bool) (o : Option ℕ)
    → Justified input account.account_id (on_raw input (settings_for input) account unknown o)
unfolding on_raw Justified stay_for
on_raw-Justified input account unknown none =
    let ticks = or_else input.unhealthy_ticks 0 + 1 in
    elim (Bool-cases (ltb ticks (settings_for input).unhealthy_ticks)) [
      | inl early ↦ rw early tt
      | inr late ↦
          rw late (with_trigger-Justified input account false unknown Trigger.failover ticks)
    ]
on_raw-Justified input account unknown (some raw) =
    on_known-Justified input account unknown (known_trigger input (settings_for input) account raw)

on_active-Justified :
    (input : AutoswitchInput) (account : AutoswitchAccount)
    → Justified input account.account_id (on_active input (settings_for input) account)
unfolding on_active Justified
on_active-Justified input account =
    let since = or_else input.idle_hold_since_ms input.now_ms in
    let unknown = past_idle_hold input || input.active_usage_unknown in
    elim (Bool-cases (in_idle_hold input since)) [
      | inl held ↦ rw held tt
      | inr over ↦ rw over (
          on_raw-Justified input account unknown
            (if account.dead || unknown then none else binding_pct account))
    ]

-- The active account, as it is found, has the active id.
find_active-id :
    (input : AutoswitchInput) (account : AutoswitchAccount)
    → find_active input ≡ some account
    → input.active_account_id ≡ some account.account_id
unfolding find_active
find_active-id input account e = elim (Option-cases input.active_account_id) [
  | inl missing ↦ cc (rw missing at e)
  | inr (id, known) ↦
      known
      ∙ ap some (
          sym (
            (text_eq_iff account.account_id id).0
              (find-some (λ a. text_eq a.account_id id) input.accounts (rw known at e)).1))
]

-- A switch that is decided goes to an account of the input that is not dead and is not the active
-- one; its highest percentage is below 100, unless the switch is a parked one. The provider is
-- verified, a voluntary switch is out of its cooldown, and a forced one is not suspended and has fewer
-- than three before it that the breaker counts.
pub decide_autoswitch-switch :
    (input : AutoswitchInput) (d : SwitchDecision)
    → decide_autoswitch input ≡ AutoswitchDecision.switch_to d
    → (active : Text) × (input.active_account_id ≡ some active)
      × Target input active d
      × Allowed input d.reason
unfolding decide_autoswitch on_found Justified stay_for
decide_autoswitch-switch input d e = elim (Option-cases (find_active input)) [
  | inl missing ↦ cc (rw missing at e)
  | inr (account, found) ↦
      let (target, allowed) =
        subst (Justified input account.account_id) (rw found at e)
          (on_active-Justified input account) in
      (account.account_id, find_active-id input account found, target, allowed)
]
