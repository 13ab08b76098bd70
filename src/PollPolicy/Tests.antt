-- ===== src/PollPolicy/Tests.antt =====
-- Polls that are due, backed off and held, at concrete tables.
use qlb.Base.{
  text_eq, ℕ, ◌≤◌, ◌≡◌, ◌≢◌, ◌⊎◌, refl, true, false, none, some, List, [], ◌∷◌, Memᴰ, All, Text,
  codes, if◌then◌else◌,
}
use qlb.Store.Config.{lookup}
use qlb.Store.Usage.{
  UsagePollRow, usage_failure_backoff_s, get_usage_poll, blank_row, compare_and_set_held_until,
}
use qlb.Store.Usage.Laws.{open_row, usage_failure_backoff_s-le, held_in, compare_and_set-cases}
use qlb.PollPolicy.{DueCandidateSlot, is_due, due_candidate, repair_overdue_plans}
use qlb.PollPolicy.Due.{Due, Yields, due_candidate-Due}
use qlb.PollPolicy.Laws.{repair_overdue_plans-shut}

backoff_doubles : usage_failure_backoff_s 3 none false ≡ 120
unfolding usage_failure_backoff_s
backoff_doubles = refl

abbrev slot_due : ℕ → DueCandidateSlot
slot_due at = record {
  last_fetch_at = some 5;
  last_attempt_at = none;
  next_due_at = some at;
  poll_interval_s = some 300;
  backoff_until = none;
  held_until = none;
  last_status = none;
  dead_token = false;
}

abbrev entries : List (Text × DueCandidateSlot)
entries = (codes "a", slot_due 900) ∷ (codes "b", slot_due 100) ∷ []

abbrev both : List Text
both = codes "a" ∷ codes "b" ∷ []

b_is_due : due_candidate both entries 800 ≡ some (codes "b")
unfolding due_candidate qlb.PollPolicy.due_slots is_due lookup text_eq
    qlb.PollPolicy.excluded_from_poll qlb.PollPolicy.plan_oversleeps_interval
b_is_due = refl

-- `a` is held by a renewer until 1000.
abbrev held_row : UsagePollRow
held_row = record (blank_row (codes "anthropic") (codes "a")) { held_until = some 1000 }

usage_failure_backoff_s-le_test :
    (30 ≤ usage_failure_backoff_s 3 (some 700) true)
    × (usage_failure_backoff_s 3 (some 700) true ≤ (if true then 4500 else 3600))
usage_failure_backoff_s-le_test = usage_failure_backoff_s-le 3 (some 700) true

compare_and_set-cases_example :
    let (rows', swapped) =
      compare_and_set_held_until (codes "anthropic") (codes "a") (some 1000) none (held_row ∷ []) in
    ((swapped ≡ true)
      × (held_in (codes "anthropic") (codes "a") (held_row ∷ []) ≡ some 1000)
      × (held_in (codes "anthropic") (codes "a") rows' ≡ none))
    ⊎ ((swapped ≡ false)
        × (held_in (codes "anthropic") (codes "a") (held_row ∷ []) ≢ some 1000)
        × (rows' ≡ held_row ∷ []))
compare_and_set-cases_example =
    compare_and_set-cases (codes "anthropic") (codes "a") (some 1000) none (held_row ∷ [])

due_candidate-Due_example :
    Memᴰ (codes "b") both
    × Due 800 (lookup (codes "b") entries)
    × All (Yields entries 800 (codes "b")) both
due_candidate-Due_example = due_candidate-Due both entries 800 (codes "b") b_is_due

repair_overdue_plans-shut_example :
    get_usage_poll
      (repair_overdue_plans
        (λ slot interval. interval)
        (codes "anthropic")
        both
        entries
        900
        (held_row ∷ [])).0
      (codes "anthropic")
      (codes "a")
    ≡ some held_row
unfolding get_usage_poll text_eq blank_row open_row
repair_overdue_plans-shut_example =
    repair_overdue_plans-shut (λ slot interval. interval) (codes "anthropic") (codes "a") both
      entries 900 (held_row ∷ []) held_row refl refl
