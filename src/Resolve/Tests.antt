-- ===== src/Resolve/Tests.antt =====
-- Requests on two Claude accounts, and the theorems on the resolution at them.
use qlb.Base.{
  ℕ, ◌≡◌, ◌≢◌, ◌↔◌, refl, true, false, none, some, List, [], ◌∷◌, codes, All, length, pos, ◌*◌,
  text_eq,
}
use qlb.Types.{AccountSnapshot, authoritative, BucketReading}
use qlb.Scoring.{
  headroom, score_account, relevant_buckets, bucket_class, bucket_at, bucket_term, reading_term,
  percent, default_ceiling, provider_for_model,
}
use qlb.Scoring.Tests.{gauge, claude}
use qlb.Store.{DecisionMode}
use qlb.Store.Overrides.{get_pin_override, is_active, is_pin_of}
use qlb.Store.Tests.{pinned_store, pin_of}
use qlb.Strategies.{pick_account, pick_with_strategy}
use qlb.Strategies.Headroom.{pick_headroom_then_all_in, is_fully_exhausted}
use qlb.Strategies.Tests.{sonnet, one, two}
use qlb.Resolve.{ResolveRequest, ServedBy, ResolveOk, find_earliest_reset, pinned_snapshot}
use qlb.Resolve.Resets.{IsReset, IsEarliest, find_earliest_reset-IsEarliest}
use qlb.Resolve.Pinned.{resolve_pinned}
use qlb.Resolve.Pinned.Laws.{
  decision, answered, ok_of, PinServed, CannotServe, chain_of, resolve-keeps_pin, resolve-pin_ok,
  resolve-pin_no_headroom_iff,
}
use qlb.Resolve.Route.{resolve_from_snapshots}
use qlb.Resolve.Route.Laws.{RouteServed, Dry, reserved_ids, resolve-served, resolve-exhausted_iff}
use qlb.Resolve.Route.Trail.{Logs, resolve-dry, resolve-Logs}

-- A session pinned to the account that scores less, and the same request without a session.
abbrev from_s1 : ResolveRequest
from_s1 = record {
  model = codes "unheard-of";
  fallback = sonnet ∷ [];
  session = some (codes "s1");
  harness = none;
  effort = none;
  snapshots = two ∷ one ∷ [];
  strategy = none;
  persist = true;
}

abbrev anonymous : ResolveRequest
anonymous = record from_s1 { session = none }

abbrev dry_run : ResolveRequest
dry_run = record from_s1 { persist = false }

s1_ne : codes "s1" ≢ []
s1_ne e = cc

s1_pinned : get_pin_override pinned_store (codes "s1") 5 ≡ some (pin_of (codes "s1") (codes "a"))
unfolding get_pin_override is_active text_eq is_pin_of
s1_pinned = refl

resolve-keeps_pin_example :
    answered (decision (resolve_from_snapshots length 5 from_s1 (some pinned_store)))
    ≡ some (codes "a")
unfolding pinned_snapshot text_eq
resolve-keeps_pin_example =
    resolve-keeps_pin length 5 from_s1 pinned_store (codes "s1") (pin_of (codes "s1") (codes "a"))
      refl s1_ne s1_pinned

one_found : pinned_snapshot pinned_store from_s1.snapshots (codes "a") ≡ some one
unfolding pinned_snapshot text_eq
one_found = refl

resolve-pin_no_headroom_iff_example :
    (ok_of (decision (resolve_from_snapshots length 5 from_s1 (some pinned_store))) ≡ none)
    ↔ All (CannotServe one) (codes "unheard-of" ∷ sonnet ∷ [])
resolve-pin_no_headroom_iff_example =
    resolve-pin_no_headroom_iff length 5 from_s1 pinned_store (codes "s1")
      (pin_of (codes "s1") (codes "a")) one refl s1_ne s1_pinned one_found refl

abbrev by_fallback : ResolveOk
by_fallback = record {
  provider = codes "anthropic";
  account_id = codes "b";
  requested_model = codes "unheard-of";
  served_model = sonnet;
  mode = DecisionMode.fallback;
  strategy = ServedBy.by_strategy headroom;
  snapshot = two;
  score = pos (60 * percent);
  ceiling = default_ceiling;
}

abbrev with_pin : ResolveOk
with_pin = record {
  provider = codes "anthropic";
  account_id = codes "a";
  requested_model = codes "unheard-of";
  served_model = sonnet;
  mode = DecisionMode.pin;
  strategy = ServedBy.by_pin;
  snapshot = one;
  score = pos (50 * percent);
  ceiling = 100 * percent;
}

a_served :
    ok_of (decision (resolve_from_snapshots length 5 from_s1 (some pinned_store))) ≡ some with_pin
unfolding resolve_from_snapshots is_pin_of text_eq is_active provider_for_model is_fully_exhausted
    score_account relevant_buckets bucket_term bucket_at reading_term bucket_class
a_served = refl

resolve-pin_ok_test :
    PinServed from_s1 (pinned_snapshot pinned_store from_s1.snapshots (codes "a")) with_pin
resolve-pin_ok_test =
    resolve-pin_ok length 5 from_s1 pinned_store (codes "s1") (pin_of (codes "s1") (codes "a")) refl
      s1_ne s1_pinned a_served

b_served : ok_of (decision (resolve_from_snapshots length 5 anonymous none)) ≡ some by_fallback
unfolding resolve_from_snapshots provider_for_model pick_account pick_with_strategy
    pick_headroom_then_all_in text_eq score_account relevant_buckets bucket_term bucket_at
    reading_term bucket_class
b_served = refl

no_session : resolve_pinned 5 anonymous (chain_of anonymous) none ≡ none
unfolding resolve_pinned
no_session = refl

resolve-served_example :
    RouteServed anonymous none (reserved_ids none 5) (codes "unheard-of" ∷ sonnet ∷ []) by_fallback
resolve-served_example = resolve-served length 5 anonymous none no_session b_served

resolve-exhausted_iff_example :
    (ok_of (decision (resolve_from_snapshots length 5 anonymous none)) ≡ none)
    ↔ All (Dry anonymous none (reserved_ids none 5)) (codes "unheard-of" ∷ sonnet ∷ [])
resolve-exhausted_iff_example = resolve-exhausted_iff length 5 anonymous none no_session

resolve-dry_example :
    (resolve_from_snapshots length 5 dry_run (some pinned_store)).0 ≡ some pinned_store
resolve-dry_example = resolve-dry length 5 dry_run (some pinned_store) refl

resolve-Logs_example :
    Logs 5 from_s1 [] 1 (resolve_from_snapshots length 5 from_s1 (some pinned_store))
resolve-Logs_example = resolve-Logs length 5 from_s1 pinned_store refl

abbrev resetting : ℕ → BucketReading
resetting at = record (gauge authoritative 90) { reset_at = some at }

abbrev waiting : List AccountSnapshot
waiting =
    claude (codes "x") ((codes "5h", resetting 70) ∷ (codes "7d", resetting 90) ∷ [])
    ∷ claude (codes "y") ((codes "5h", resetting 40) ∷ [])
    ∷ []

y_resets_first :
    find_earliest_reset waiting
    ≡ some (record { account_id = codes "y"; at = 40; limit_type = codes "5h" })
unfolding find_earliest_reset
y_resets_first = refl

find_earliest_reset-IsEarliest_example : IsEarliest (IsReset waiting) (find_earliest_reset waiting)
find_earliest_reset-IsEarliest_example = find_earliest_reset-IsEarliest waiting
