-- ===== src/Store/Tests.antt =====
-- Stores to run the code on, and the theorems on the store at them.
use mathlib.Core.Bool.{false≢true}
use qlb.Base.{
  ◌+◌, ◌%◌, suc, ◌≡◌, ◌≢◌, refl, false, none, some, [], ◌∷◌, Text, codes, filter, pos, text_eq,
  text_eq_iff,
}
use qlb.Base.Decimal.{print_int}
use qlb.Store.{Store, OverrideRow}
use qlb.Store.Config.{set_config, get-set_config, next_round_robin_index, round_robin_step}
use qlb.Store.Overrides.{
  get_pin_override, upsert_override, clear_overrides, ClearOverrides, is_pin_of, is_active,
}
use qlb.Store.Overrides.Laws.{
  get_pin_override-upsert, get_pin_override-upsert_other, upsert_override_one_pin,
  get_pin_override-clear,
}

abbrev pub empty_store : Store
empty_store = record {
  accounts = [];
  snapshots = [];
  config = [];
  overrides = [];
  leases = [];
  poll_claims = [];
  decisions = [];
  next_decision_id = 1;
}

abbrev pub pin_of : Text → Text → OverrideRow
pin_of session account = record {
  kind = codes "pin";
  account_id = account;
  session = some session;
  until = none;
}

abbrev s1 : Text
s1 = codes "s1"

abbrev pub pinned_store : Store
pinned_store = record empty_store { overrides = pin_of (codes "s1") (codes "a") ∷ [] }

abbrev counted : Store
counted = set_config empty_store (codes "rr") (print_int (pos 6))

s2_ne_s1 : codes "s2" ≢ codes "s1"
unfolding text_eq
s2_ne_s1 e = false≢true ((text_eq_iff (codes "s2") (codes "s1")).1 e)

get_pin_override-upsert_example :
    get_pin_override (upsert_override pinned_store (pin_of (codes "s1") (codes "b"))) (codes "s1") 5
    ≡ some (pin_of (codes "s1") (codes "b"))
unfolding is_active
get_pin_override-upsert_example =
    get_pin_override-upsert pinned_store (pin_of (codes "s1") (codes "b")) (codes "s1") 5
      (refl, refl) refl

get_pin_override-upsert_other_test :
    get_pin_override (upsert_override pinned_store (pin_of (codes "s2") (codes "b"))) (codes "s1") 5
    ≡ get_pin_override pinned_store (codes "s1") 5
get_pin_override-upsert_other_test =
    get_pin_override-upsert_other pinned_store (pin_of (codes "s2") (codes "b")) (codes "s2")
      (codes "s1") 5 (refl, refl) s2_ne_s1

upsert_override_one_pin_example :
    filter
      (is_pin_of (codes "s1"))
      (upsert_override pinned_store (pin_of (codes "s1") (codes "b"))).overrides
    ≡ pin_of (codes "s1") (codes "b") ∷ []
upsert_override_one_pin_example =
    upsert_override_one_pin pinned_store (pin_of (codes "s1") (codes "b")) (codes "s1") (refl, refl)

abbrev clear_s1 : ClearOverrides
clear_s1 = record { session = some s1; account_id = none; all = false }

s1_ne : s1 ≢ []
s1_ne e = cc

get_pin_override-clear_test : get_pin_override (clear_overrides pinned_store clear_s1).0 s1 5 ≡ none
get_pin_override-clear_test = get_pin_override-clear pinned_store clear_s1 s1 5 refl refl s1_ne

round_robin_step_example :
    (next_round_robin_index counted (codes "rr") (suc 2)).1 ≡ pos ((6 + 1) % suc 2)
round_robin_step_example =
    round_robin_step counted (codes "rr") 2 6
      (get-set_config empty_store (codes "rr") (print_int (pos 6)))
