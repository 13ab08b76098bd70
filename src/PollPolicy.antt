-- ===== src/PollPolicy.antt =====
-- src/poll-policy.ts: which account is polled next, and the repair of overdue plans, in seconds.
-- What jitter makes of an interval is an argument; plans after a fetch are left out.
pub mod Laws
pub mod Due
pub mod Tests
use qlb.Base.{
  ℕ, ◌+◌, ◌*◌, ◌==◌, max, Bool, true, false, not, ◌&&◌, ◌||◌, Option, none, some, List, [], ◌∷◌,
  sort, Text, codes, text_eq, text_lt, if◌then◌else◌, ltb, or_else,
}
use qlb.Store.Config.{lookup}
use qlb.Store.Usage.{UsagePollRow, UsagePollPlan, write_usage_poll_plans}

abbrev pub exhausted_interval_s : ℕ
exhausted_interval_s = 600

abbrev pub reset_slack_s : ℕ
reset_slack_s = 60

pub record DueCandidateSlot : Type 0 where
  pub last_fetch_at : Option ℕ
  pub last_attempt_at : Option ℕ
  pub next_due_at : Option ℕ
  pub poll_interval_s : Option ℕ
  pub backoff_until : Option ℕ
  pub held_until : Option ℕ
  pub last_status : Option Text
  pub dead_token : Bool

-- `interval || EXHAUSTED_INTERVAL_S`.
interval_or_default : Option ℕ → ℕ
interval_or_default none = exhausted_interval_s
interval_or_default (some interval) = if interval == 0 then exhausted_interval_s else interval

-- Ten times both sides of `nextPollAt > now + interval * 1.1 + RESET_SLACK_S`.
unfoldable pub plan_oversleeps_interval : Option ℕ → Option ℕ → ℕ → Bool
unfolding interval_or_default
plan_oversleeps_interval none poll_interval now = false
plan_oversleeps_interval (some next_poll) poll_interval now =
    let interval = max (interval_or_default poll_interval) exhausted_interval_s in
    ltb (10 * now + 11 * interval + 10 * reset_slack_s) (10 * next_poll)

is_before : ℕ → Option ℕ → Bool
is_before now none = false
is_before now (some until) = ltb now until

says_dead : Option Text → Bool
says_dead none = false
says_dead (some status) = text_eq status (codes "token_dead")

unfoldable pub excluded_from_poll : DueCandidateSlot → ℕ → Bool
unfolding is_before says_dead
excluded_from_poll entry now =
    (says_dead entry.last_status || entry.dead_token)
    || (is_before now entry.backoff_until || is_before now entry.held_until)

-- A slot without an entry is due; else its time has come, or its plan oversleeps.
unfoldable pub is_due : Option DueCandidateSlot → ℕ → Bool
unfolding is_before
is_due none now = true
is_due (some entry) now =
    not (excluded_from_poll entry now)
    && (not (is_before now entry.next_due_at)
        || plan_oversleeps_interval entry.next_due_at entry.poll_interval_s now)

unfoldable pub touched_at : Option DueCandidateSlot → ℕ
touched_at none = 0
touched_at (some entry) = max (or_else entry.last_fetch_at 0) (or_else entry.last_attempt_at 0)

unfoldable pub touched_before : ℕ × Text → ℕ × Text → Bool
touched_before (s, a) (t, b) = if s == t then text_lt a b else ltb s t

unfoldable pub due_slots : List Text → List (Text × DueCandidateSlot) → ℕ → List (ℕ × Text)
due_slots [] entries now = []
due_slots (slot ∷ rest) entries now =
    let entry = lookup slot entries in
    let later = due_slots rest entries now in
    if is_due entry now then (touched_at entry, slot) ∷ later else later

first_slot : List (ℕ × Text) → Option Text
first_slot [] = none
first_slot ((touched, slot) ∷ rest) = some slot

unfoldable pub due_candidate : List Text → List (Text × DueCandidateSlot) → ℕ → Option Text
unfolding first_slot
due_candidate candidates entries now =
    first_slot (sort touched_before (due_slots candidates entries now))

is_slot : Option Text → Text → Bool
is_slot none slot = false
is_slot (some selected) slot = text_eq selected slot

has : List Text → Text → Bool
has [] slot = false
has (s ∷ seen) slot = text_eq s slot || has seen slot

-- The plan of a slot that is more than one of its intervals overdue.
repair_of :
    (Text → ℕ → ℕ) → Text → DueCandidateSlot → ℕ → Option ℕ → Option ℕ → Option UsagePollPlan
unfolding interval_or_default
repair_of jitter slot entry now none interval = none
repair_of jitter slot entry now (some due) none = none
repair_of jitter slot entry now (some due) (some given) =
    let interval = interval_or_default (some given) in
    if ltb (due + interval) now
    then some (record {
      next_due_at = now + jitter slot interval;
      poll_interval_s = interval;
      expected = some (some due, some given);
    })
    else none

repair_entry : (Text → ℕ → ℕ) → Text → ℕ → Option DueCandidateSlot → Option UsagePollPlan
unfolding repair_of
repair_entry jitter slot now none = none
repair_entry jitter slot now (some entry) =
    if excluded_from_poll entry now
    then none
    else repair_of jitter slot entry now entry.next_due_at entry.poll_interval_s

add_repair : Text → Option UsagePollPlan → List (Text × UsagePollPlan) → List (Text × UsagePollPlan)
add_repair slot none repairs = repairs
add_repair slot (some plan) repairs = (slot, plan) ∷ repairs

-- The loop over the candidates, with those seen.
repairs_of :
    (Text → ℕ → ℕ)
    → Option Text
    → List Text
    → List Text
    → List (Text × DueCandidateSlot)
    → ℕ
    → List (Text × UsagePollPlan)
unfolding is_slot has repair_entry add_repair
repairs_of jitter selected seen [] entries now = []
repairs_of jitter selected seen (slot ∷ rest) entries now =
    let later = repairs_of jitter selected (slot ∷ seen) rest entries now in
    let same = repairs_of jitter selected seen rest entries now in
    if has seen slot || is_slot selected slot
    then same
    else add_repair slot (repair_entry jitter slot now (lookup slot entries)) later

-- `repairOverduePlans`, with the store as its writer.
unfoldable pub repair_overdue_plans :
    (Text → ℕ → ℕ)
    → Text
    → List Text
    → List (Text × DueCandidateSlot)
    → ℕ
    → List UsagePollRow
    → List UsagePollRow × Option Text
unfolding repairs_of
repair_overdue_plans jitter provider candidates entries now rows =
    let selected = due_candidate candidates entries now in
    (
      (write_usage_poll_plans provider (repairs_of jitter selected [] candidates entries now)
          (some now) rows).0,
      selected,
    )
