-- ===== src/Store/Usage/Laws.antt =====
-- src/store.ts: what the statements on `usage_polls` do.
use mathlib.Core.Option.{some-injective}
use native.Mathlib.Omega.{pow_step}
use qlb.Base.{
  ℕ, zero, suc, ◌+◌, ◌-◌, ◌*◌, ◌^◌, ==_iff, ◌≤◌, ◌≡◌, ◌≢◌, ◌⊎◌, ◌↔◌, refl, ap, inl, inr, Bool, true,
  false, not, ◌&&◌, Option, none, some, List, [], ◌∷◌, All, Text, text_eq_refl, if◌then◌else◌, ltb,
  is_some, min, max, Bool-cases, Option-cases, arith,
}
use qlb.Store.Usage.{
  UsagePollRow, UsagePollPlan, usage_failure_backoff_s, computed_backoff, asked_backoff, is_row,
  get_usage_poll, blank_row, upsert_usage, is_same, is_past, is_token_dead, repairable,
  update_where, set_plan, write_plan, write_usage_poll_plans, set_held, set_usage_poll_held_until,
  insert_if_free, compare_and_set_held_until,
}

power_pos : (n : ℕ) → 1 ≤ 2 ^ n
power_pos zero = omega arith
power_pos (suc n) = rw (pow_step 2 n) (doubled (2 ^ n) (power_pos n))
  where
    doubled : (m : ℕ) → 1 ≤ m → 1 ≤ 2 * m
    doubled m le = omega arith

computed_backoff-le :
    (failures : ℕ) → (30 ≤ computed_backoff failures) × (computed_backoff failures ≤ 600)
unfolding computed_backoff
computed_backoff-le failures =
    bounded (2 ^ min (failures - 1) 32) (power_pos (min (failures - 1) 32))
  where
    bounded : (p : ℕ) → 1 ≤ p → (30 ≤ min (30 * p) 600) × (min (30 * p) 600 ≤ 600)
    bounded p le = omega arith

larger :
    (b asked top : ℕ)
    → 30 ≤ b
    → b ≤ top
    → (30 ≤ max b (min asked top)) × (max b (min asked top) ≤ top)
larger b asked top lo hi = omega arith

-- A failed poll is not repeated for 30 s at least, nor put off for more than 4500 s, and for more than
-- 3600 s only where the provider limits the rate.
pub usage_failure_backoff_s-le :
    (failures : ℕ) (retry_after : Option ℕ) (rate_limited : Bool)
    → (30 ≤ usage_failure_backoff_s failures retry_after rate_limited)
      × (usage_failure_backoff_s failures retry_after rate_limited
          ≤ (if rate_limited then 4500 else 3600))
unfolding usage_failure_backoff_s asked_backoff
usage_failure_backoff_s-le failures none true =
    let (lo, hi) = computed_backoff-le failures in (lo, omega arith)
usage_failure_backoff_s-le failures none false =
    let (lo, hi) = computed_backoff-le failures in (lo, omega arith)
usage_failure_backoff_s-le failures (some zero) true = within (computed_backoff failures)
  where
    within : (b : ℕ) → (30 ≤ min (max b 300) 600) × (min (max b 300) 600 ≤ 4500)
    within b = omega arith
usage_failure_backoff_s-le failures (some zero) false =
    let (lo, hi) = computed_backoff-le failures in (lo, omega arith)
usage_failure_backoff_s-le failures (some (suc asked)) true =
    let (lo, hi) = computed_backoff-le failures in
    larger (computed_backoff failures)
      (if ltb 600 (suc asked) && true then suc asked + 900 else suc asked) 4500 lo (omega arith)
usage_failure_backoff_s-le failures (some (suc asked)) false =
    let (lo, hi) = computed_backoff-le failures in
    larger (computed_backoff failures)
      (if ltb 600 (suc asked) && false then suc asked + 900 else suc asked) 3600 lo (omega arith)

-- The lease of a row, none where there is no row.
unfoldable pub held_of : Option UsagePollRow → Option ℕ
held_of none = none
held_of (some row) = row.held_until

unfoldable pub held_in : Text → Text → List UsagePollRow → Option ℕ
unfolding held_of
held_in provider account rows = held_of (get_usage_poll rows provider account)

is_row-blank :
    (provider account : Text) (until : Option ℕ)
    → is_row provider account (set_held until (blank_row provider account)) ≡ true
unfolding is_row set_held blank_row
is_row-blank provider account until = rw (text_eq_refl provider, text_eq_refl account) refl

is_row-held :
    (provider account : Text) (until : Option ℕ) (row : UsagePollRow)
    → is_row provider account (set_held until row) ≡ is_row provider account row
unfolding is_row set_held
is_row-held provider account until row = refl

is_same_iff : (a b : Option ℕ) → (is_same a b ≡ true) ↔ (a ≡ b)
unfolding is_same
is_same_iff none none = ((λ e. refl), (λ e. refl))
is_same_iff none (some b) = ((λ e. cc), (λ e. cc))
is_same_iff (some a) none = ((λ e. cc), (λ e. cc))
is_same_iff (some a) (some b) =
    ((λ e. ap some ((==_iff a b).0 e)), (λ e. (==_iff a b).1 (some-injective a b e)))

upsert-held :
    (provider account : Text) (until : Option ℕ) (rows : List UsagePollRow)
    → held_in provider account (upsert_usage provider account (set_held until) rows) ≡ until
unfolding held_in held_of get_usage_poll upsert_usage set_held
upsert-held provider account until [] = rw (is_row-blank provider account until) refl
upsert-held provider account until (row ∷ rest) = elim (Bool-cases (is_row provider account row)) [
  | inl mine ↦ rw mine (rw (is_row-held provider account until row) (rw mine refl))
  | inr other ↦ rw other (rw other (upsert-held provider account until rest))
]

update-held :
    (provider account : Text) (expected : ℕ) (until : Option ℕ) (rows : List UsagePollRow)
    → let (rows', n) =
        update_where provider account
          (λ row. is_same row.held_until (some expected))
          (set_held until)
          rows in
      ((ltb 0 n ≡ true)
        × (held_in provider account rows ≡ some expected)
        × (held_in provider account rows' ≡ until))
      ⊎ ((ltb 0 n ≡ false) × (held_in provider account rows ≢ some expected) × (rows' ≡ rows))
unfolding held_in held_of get_usage_poll update_where set_held
update-held provider account expected until [] = inr (refl, (λ e. cc), refl)
update-held provider account expected until (row ∷ rest) =
    elim (Bool-cases (is_row provider account row)) [
      | inr other ↦ elim (update-held provider account expected until rest) [
        | inl (hit, is, now) ↦ inl (rw other hit, rw other is, rw other (rw other now))
        | inr (miss, differs, same) ↦
            inr (rw other miss, (λ e. differs (rw other at e)), rw other (ap (λ rs. row ∷ rs) same))
      ]
      | inl mine ↦ elim (Bool-cases (is_same row.held_until (some expected))) [
        | inl is ↦ inl (
          rw (mine, is) refl,
          rw mine ((is_same_iff row.held_until (some expected)).0 is),
          rw (mine, is) (rw (is_row-held provider account until row) (rw mine refl)),
        )
        | inr differs ↦ inr (
          rw (mine, differs) refl,
          (λ e. cc (differs, (is_same_iff row.held_until (some expected)).1 (rw mine at e))),
          rw (mine, differs) refl,
        )
      ]
    ]

-- Taking or giving back the lease of a renewer succeeds exactly where the lease is the one expected (a
-- missing row has none); then the new one stands, and otherwise nothing changes.
pub compare_and_set-cases :
    (provider account : Text) (expected until : Option ℕ) (rows : List UsagePollRow)
    → let (rows', swapped) = compare_and_set_held_until provider account expected until rows in
      ((swapped ≡ true)
        × (held_in provider account rows ≡ expected)
        × (held_in provider account rows' ≡ until))
      ⊎ ((swapped ≡ false) × (held_in provider account rows ≢ expected) × (rows' ≡ rows))
unfolding compare_and_set_held_until insert_if_free set_usage_poll_held_until held_in held_of
compare_and_set-cases provider account none until rows =
    elim (Option-cases (get_usage_poll rows provider account)) [
      | inl missing ↦
          inl
            (rw missing refl, rw missing refl, rw missing (upsert-held provider account until rows))
      | inr (row, found) ↦ elim (Option-cases row.held_until) [
        | inl free ↦ inl (
          rw found (rw free refl),
          rw found free,
          rw found (rw free (upsert-held provider account until rows)),
        )
        | inr (at, held) ↦
            inr
              (rw found (rw held refl), (λ e. cc (held, (rw found at e))), rw found (rw held refl))
      ]
    ]
compare_and_set-cases provider account (some expected) until rows =
    update-held provider account expected until rows

-- No backoff, no holder and no dead token at the time.
unfoldable pub open_row : ℕ → UsagePollRow → Bool
unfolding is_past is_token_dead
open_row now row =
    is_past row.backoff_until now
    && (is_past row.held_until now && not (is_token_dead row.last_status))

shut-not_repairable :
    (expected : Option ℕ × Option ℕ) (now : ℕ) (row : UsagePollRow)
    → open_row now row ≡ false
    → repairable expected now row ≡ false
unfolding open_row repairable
shut-not_repairable (due, interval) now row shut =
    and_false (is_same row.next_due_at due) (and_false (is_same row.poll_interval_s interval) shut)
  where
    and_false : (a : Bool) {b : Bool} → b ≡ false → a && b ≡ false
    and_false true e = e
    and_false false e = refl

plan_row :
    (provider account : Text) (plan : UsagePollPlan) (row : UsagePollRow)
    → is_row provider account (set_plan plan row) ≡ is_row provider account row
unfolding is_row set_plan
plan_row provider account plan row = refl

update-shut :
    (provider a account : Text) (expected : Option ℕ × Option ℕ) (plan : UsagePollPlan) (now : ℕ)
    (rows : List UsagePollRow) (shut_row : UsagePollRow)
    → get_usage_poll rows provider account ≡ some shut_row
    → open_row now shut_row ≡ false
    → get_usage_poll
        (update_where provider a (repairable expected now) (set_plan plan) rows).0
        provider
        account
      ≡ some shut_row
unfolding get_usage_poll update_where
update-shut provider a account expected plan now [] shut_row e shut = cc
update-shut provider a account expected plan now (row ∷ rest) shut_row e shut =
    elim (Bool-cases (is_row provider account row)) [
      | inl mine ↦
          let is : row ≡ shut_row = some-injective row shut_row (rw mine at e) in
          let refused = shut-not_repairable expected now row (rw (← is) at shut) in
          elim (Bool-cases (is_row provider a row)) [
            | inl hit ↦ rw (hit, refused) (rw mine (ap some is))
            | inr miss ↦ rw miss (rw mine (ap some is))
          ]
      | inr other ↦ elim (Bool-cases (is_row provider a row)) [
        | inr miss ↦ rw miss (
            rw other
              (update-shut provider a account expected plan now rest shut_row (rw other at e) shut))
        | inl hit ↦ elim (Bool-cases (repairable expected now row)) [
          | inr refused ↦ rw (hit, refused) e
          | inl allowed ↦
              rw (hit, allowed) (rw (plan_row provider account plan row) (rw other (rw other at e)))
        ]
      ]
    ]

-- Every plan is a repair.
unfoldable pub AllRepairs : List (Text × UsagePollPlan) → Type 0
AllRepairs plans = All (λ entry. is_some entry.1.expected ≡ true) plans

write_plan-shut :
    (provider a account : Text) (plan : UsagePollPlan) (now : ℕ)
    (expected : Option (Option ℕ × Option ℕ)) (rows : List UsagePollRow) (shut_row : UsagePollRow)
    → is_some expected ≡ true
    → get_usage_poll rows provider account ≡ some shut_row
    → open_row now shut_row ≡ false
    → get_usage_poll (write_plan provider a plan (some now) expected rows).0 provider account
      ≡ some shut_row
unfolding write_plan
write_plan-shut provider a account plan now none rows shut_row r e shut = cc
write_plan-shut provider a account plan now (some expected) rows shut_row r e shut =
    update-shut provider a account expected plan now rows shut_row e shut

-- A repair never writes to an account that is backing off, held by a renewer or quarantined for a dead
-- token when it runs, whatever the policy had read before.
pub write_usage_poll_plans-shut :
    (provider account : Text) (plans : List (Text × UsagePollPlan)) (now : ℕ)
    (rows : List UsagePollRow) (shut_row : UsagePollRow)
    → AllRepairs plans
    → get_usage_poll rows provider account ≡ some shut_row
    → open_row now shut_row ≡ false
    → get_usage_poll (write_usage_poll_plans provider plans (some now) rows).0 provider account
      ≡ some shut_row
unfolding write_usage_poll_plans AllRepairs
write_usage_poll_plans-shut provider account [] now rows shut_row rs e shut = e
write_usage_poll_plans-shut provider account ((a, plan) ∷ rest) now rows shut_row (r, rs) e shut =
    write_usage_poll_plans-shut provider account rest now
      (write_plan provider a plan (some now) plan.expected rows).0 shut_row rs
      (write_plan-shut provider a account plan now plan.expected rows shut_row r e shut) shut
