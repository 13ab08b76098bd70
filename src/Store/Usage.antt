-- ===== src/Store/Usage.antt =====
-- src/store.ts: the `usage_polls` table, one row for a provider and an account, in seconds. The
-- columns of Codex diagnostics are left out; `redact` is redactSecrets on a status.
pub mod Laws
use qlb.Base.{
  ℕ, zero, suc, ◌+◌, ◌-◌, ◌*◌, ◌^◌, ◌==◌, min, max, Bool, true, false, not, ◌&&◌, ◌||◌, Option,
  none, some, List, [], ◌∷◌, filter, find, Text, codes, text_eq, if◌then◌else◌, ltb, leb, is_some,
  or_else,
}
use qlb.Types.{BucketReading}
use qlb.Store.{Store}
use qlb.Store.Polls.{upsert_all}

pub record UsagePollRow : Type 0 where
  pub provider : Text
  pub account_id : Text
  pub last_fetch_at : Option ℕ
  pub last_attempt_at : Option ℕ
  pub next_due_at : Option ℕ
  pub poll_interval_s : Option ℕ
  pub last_status : Option Text
  pub consecutive_failures : ℕ
  pub backoff_until : Option ℕ
  pub last_429_at : Option ℕ
  pub held_until : Option ℕ
  pub unpersisted_at : Option ℕ

-- The result of a poll: the readings, or a failure.
pub record UsagePollResult : Type 0 where
  pub status : Text
  pub attempted_at : ℕ
  pub readings : Option (List (Text × BucketReading))
  pub http_429 : Bool
  pub retry_after_s : Option ℕ

computed_backoff : ℕ → ℕ
computed_backoff failures = min (30 * 2 ^ min (failures - 1) 32) 600

-- What the provider asked for, above 0.
asked_backoff : ℕ → Bool → ℕ
asked_backoff asked rate_limited =
    let longer = if ltb 600 asked && rate_limited then asked + 900 else asked in
    min longer (if rate_limited then 4500 else 3600)

unfoldable pub usage_failure_backoff_s : ℕ → Option ℕ → Bool → ℕ
unfolding computed_backoff asked_backoff
usage_failure_backoff_s failures none rate_limited = computed_backoff failures
usage_failure_backoff_s failures (some zero) rate_limited =
    if rate_limited
    then min (max (computed_backoff failures) 300) 600
    else computed_backoff failures
usage_failure_backoff_s failures (some (suc asked)) rate_limited =
    max (computed_backoff failures) (asked_backoff (suc asked) rate_limited)

unfoldable pub is_row : Text → Text → UsagePollRow → Bool
is_row provider account row = text_eq row.provider provider && text_eq row.account_id account

unfoldable pub get_usage_poll : List UsagePollRow → Text → Text → Option UsagePollRow
unfolding is_row
get_usage_poll rows provider account = find (is_row provider account) rows

-- `listUsagePolls`: the rows of the provider, in their order.
unfoldable pub list_usage_polls : List UsagePollRow → Text → List UsagePollRow
list_usage_polls rows provider = filter (λ row. text_eq row.provider provider) rows

-- A row whose other columns have their defaults.
unfoldable pub blank_row : Text → Text → UsagePollRow
blank_row provider account = record {
  provider = provider;
  account_id = account;
  last_fetch_at = none;
  last_attempt_at = none;
  next_due_at = none;
  poll_interval_s = none;
  last_status = none;
  consecutive_failures = 0;
  backoff_until = none;
  last_429_at = none;
  held_until = none;
  unpersisted_at = none;
}

-- `INSERT … ON CONFLICT(provider, account_id) DO UPDATE SET`: the columns that are set.
unfoldable pub upsert_usage :
    Text → Text → (UsagePollRow → UsagePollRow) → List UsagePollRow → List UsagePollRow
unfolding is_row blank_row
upsert_usage provider account set [] = set (blank_row provider account) ∷ []
upsert_usage provider account set (row ∷ rest) =
    if is_row provider account row
    then set row ∷ rest
    else row ∷ upsert_usage provider account set rest

set_won : UsagePollResult → Text → UsagePollRow → UsagePollRow
set_won result status row = record row {
  last_attempt_at = some result.attempted_at;
  last_status = some status;
}

set_fetched : UsagePollResult → Text → UsagePollRow → UsagePollRow
set_fetched result status row = record row {
  last_fetch_at = some result.attempted_at;
  last_attempt_at = some result.attempted_at;
  last_status = some status;
  consecutive_failures = 0;
  backoff_until = none;
}

-- `prior?.consecutive_failures ?? 0`.
failures_of : Option UsagePollRow → ℕ
failures_of none = 0
failures_of (some row) = row.consecutive_failures

unpersisted_of : Text → UsagePollResult → Text → Option ℕ
unpersisted_of provider result status =
    if text_eq provider (codes "anthropic")
      && text_eq status (codes "consume-consume-gate-unpersisted")
    then some (result.attempted_at * 1000)
    else none

first_given : Option ℕ → Option ℕ → Option ℕ
first_given none old = old
first_given (some new) old = some new

set_failed : UsagePollResult → Text → ℕ → Option ℕ → UsagePollRow → UsagePollRow
unfolding first_given
set_failed result status failures unpersisted row = record row {
  last_attempt_at = some result.attempted_at;
  last_status = some status;
  consecutive_failures = failures;
  backoff_until =
      some (
        result.attempted_at
        + usage_failure_backoff_s failures result.retry_after_s result.http_429);
  last_429_at =
      first_given (if result.http_429 then some result.attempted_at else none) row.last_429_at;
  unpersisted_at = first_given unpersisted row.unpersisted_at;
}

record_failure : Text → Text → UsagePollResult → Text → List UsagePollRow → List UsagePollRow
unfolding failures_of unpersisted_of set_failed
record_failure provider account result status rows =
    let failures = failures_of (get_usage_poll rows provider account) + 1 in
    upsert_usage provider account
      (set_failed result status failures (unpersisted_of provider result status)) rows

record_outcome :
    Text
    → Text
    → UsagePollResult
    → Text
    → Option (List (Text × BucketReading))
    → Store
    → List UsagePollRow
    → Store × List UsagePollRow
unfolding set_fetched record_failure
record_outcome provider account result status (some readings) store rows = (
  upsert_all store account readings,
  upsert_usage provider account (set_fetched result status) rows,
)
record_outcome provider account result status none store rows =
    (store, record_failure provider account result status rows)

-- `recordUsagePollResult`: one transaction on the readings and the polls.
unfoldable pub record_usage_poll_result :
    (Text → Text)
    → Text
    → Text
    → UsagePollResult
    → Store
    → List UsagePollRow
    → Store × List UsagePollRow
unfolding set_won record_outcome
record_usage_poll_result redact provider account result store rows =
    let status = redact result.status in
    if text_eq result.status (codes "codex-won")
    then (store, upsert_usage provider account (set_won result status) rows)
    else record_outcome provider account result status result.readings store rows

-- A plan, with the values that a repair expects; `expected` is absent where the plan is not a repair.
pub record UsagePollPlan : Type 0 where
  pub next_due_at : ℕ
  pub poll_interval_s : ℕ
  pub expected : Option (Option ℕ × Option ℕ)

set_plan : UsagePollPlan → UsagePollRow → UsagePollRow
set_plan plan row = record row {
  next_due_at = some plan.next_due_at;
  poll_interval_s = some plan.poll_interval_s;
}

-- SQLite's `IS`.
unfoldable pub is_same : Option ℕ → Option ℕ → Bool
is_same none none = true
is_same none (some b) = false
is_same (some a) none = false
is_same (some a) (some b) = a == b

is_past : Option ℕ → ℕ → Bool
is_past none now = true
is_past (some until) now = leb until now

is_token_dead : Option Text → Bool
is_token_dead none = false
is_token_dead (some status) = text_eq status (codes "token_dead")

-- The `WHERE` of the repair, but for the key.
unfoldable pub repairable : Option ℕ × Option ℕ → ℕ → UsagePollRow → Bool
unfolding is_past is_token_dead
repairable (due, interval) now row =
    is_same row.next_due_at due
    && (is_same row.poll_interval_s interval
        && (is_past row.backoff_until now
            && (is_past row.held_until now && not (is_token_dead row.last_status))))

-- `UPDATE … WHERE provider = ? AND account_id = ? AND …`, and the number of changes.
unfoldable pub update_where :
    Text
    → Text
    → (UsagePollRow → Bool)
    → (UsagePollRow → UsagePollRow)
    → List UsagePollRow
    → List UsagePollRow × ℕ
unfolding is_row
update_where provider account p set [] = ([], 0)
update_where provider account p set (row ∷ rest) =
    let (rest', n) = update_where provider account p set rest in
    if is_row provider account row
    then (if p row then (set row ∷ rest, 1) else (row ∷ rest, 0))
    else (row ∷ rest', n)

write_plan :
    Text
    → Text
    → UsagePollPlan
    → Option ℕ
    → Option (Option ℕ × Option ℕ)
    → List UsagePollRow
    → List UsagePollRow × ℕ
unfolding set_plan
write_plan provider account plan (some now) (some expected) rows =
    update_where provider account (repairable expected now) (set_plan plan) rows
write_plan provider account plan (some now) none rows =
    (upsert_usage provider account (set_plan plan) rows, 1)
write_plan provider account plan none expected rows =
    (upsert_usage provider account (set_plan plan) rows, 1)

-- `writeUsagePollPlans`: one transaction; the number of rows written.
unfoldable pub write_usage_poll_plans :
    Text → List (Text × UsagePollPlan) → Option ℕ → List UsagePollRow → List UsagePollRow × ℕ
unfolding write_plan
write_usage_poll_plans provider [] now rows = (rows, 0)
write_usage_poll_plans provider ((account, plan) ∷ rest) now rows =
    let (rows', n) = write_plan provider account plan now plan.expected rows in
    let (rows'', m) = write_usage_poll_plans provider rest now rows' in (rows'', n + m)

set_held : Option ℕ → UsagePollRow → UsagePollRow
set_held until row = record row { held_until = until }

unfoldable pub set_usage_poll_held_until :
    Text → Text → Option ℕ → List UsagePollRow → List UsagePollRow
unfolding set_held
set_usage_poll_held_until provider account until rows =
    upsert_usage provider account (set_held until) rows

-- The upsert with `WHERE held_until IS NULL`.
insert_if_free :
    Text → Text → Option ℕ → Option UsagePollRow → List UsagePollRow → List UsagePollRow × Bool
insert_if_free provider account until none rows =
    (set_usage_poll_held_until provider account until rows, true)
insert_if_free provider account until (some row) rows =
    if is_some row.held_until
    then (rows, false)
    else (set_usage_poll_held_until provider account until rows, true)

-- `compareAndSetUsagePollHeldUntil`: one transaction.
unfoldable pub compare_and_set_held_until :
    Text → Text → Option ℕ → Option ℕ → List UsagePollRow → List UsagePollRow × Bool
unfolding insert_if_free set_held
compare_and_set_held_until provider account none until rows =
    insert_if_free provider account until (get_usage_poll rows provider account) rows
compare_and_set_held_until provider account (some expected) until rows =
    let (rows', n) =
      update_where provider account (λ row. is_same row.held_until (some expected)) (set_held until)
        rows in
    (rows', ltb 0 n)
