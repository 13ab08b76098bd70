-- ===== src/PollPolicy/Laws.antt =====
-- src/poll-policy.ts: what is polled, and what a repair leaves alone.
use mathlib.Core.List.{nil≢cons}
use mathlib.Core.Option.{some-injective}
use qlb.Base.{
  ℕ, ◌+◌, ◌≡◌, refl, sym, subst, inl, inr, true, false, ◌||◌, Option, none, some, List, [], ◌∷◌,
  All, sort, Text, Bool-cases, is_some, ltb,
}
use qlb.Base.Sorting.{sort-nil}
use qlb.Store.Config.{lookup}
use qlb.Store.Usage.{UsagePollRow, UsagePollPlan, get_usage_poll}
use qlb.Store.Usage.Laws.{open_row, AllRepairs, write_usage_poll_plans-shut}
use qlb.PollPolicy.{
  DueCandidateSlot, is_due, touched_before, due_slots, first_slot, due_candidate,
  excluded_from_poll, interval_or_default, repair_of, repair_entry, add_repair, repairs_of,
  repair_overdue_plans, has, is_slot,
}

first_slot-none : (slots : List (ℕ × Text)) → first_slot slots ≡ none → slots ≡ []
unfolding first_slot
first_slot-none [] e = refl
first_slot-none ((touched, s) ∷ rest) e = cc

due_slots-nil :
    (candidates : List Text) (entries : List (Text × DueCandidateSlot)) (now : ℕ)
    → due_slots candidates entries now ≡ []
    → All (λ slot. is_due (lookup slot entries) now ≡ false) candidates
unfolding due_slots
due_slots-nil [] entries now e = tt
due_slots-nil (slot ∷ rest) entries now e = elim (Bool-cases (is_due (lookup slot entries) now)) [
  | inl due ↦ absurd (nil≢cons (sym (rw due at e)))
  | inr not_due ↦ (not_due, due_slots-nil rest entries now (rw not_due at e))
]

-- Where no account is polled, none of the candidates is due.
pub due_candidate-none :
    (candidates : List Text) (entries : List (Text × DueCandidateSlot)) (now : ℕ)
    → due_candidate candidates entries now ≡ none
    → All (λ slot. is_due (lookup slot entries) now ≡ false) candidates
unfolding due_candidate
due_candidate-none candidates entries now e =
    let slots = due_slots candidates entries now in
    due_slots-nil candidates entries now
      (sort-nil touched_before slots (first_slot-none (sort touched_before slots) e))

repair_of-expects :
    (jitter : Text → ℕ → ℕ) (slot : Text) (entry : DueCandidateSlot) (now : ℕ)
    (due interval : Option ℕ) (plan : UsagePollPlan)
    → repair_of jitter slot entry now due interval ≡ some plan
    → is_some plan.expected ≡ true
unfolding repair_of
repair_of-expects jitter slot entry now none interval plan e = cc
repair_of-expects jitter slot entry now (some due) none plan e = cc
repair_of-expects jitter slot entry now (some due) (some given) plan e =
    elim (Bool-cases (ltb (due + interval_or_default (some given)) now)) [
      | inr soon ↦ cc (rw soon at e)
      | inl overdue ↦
          let made : UsagePollPlan = record {
            next_due_at = now + jitter slot (interval_or_default (some given));
            poll_interval_s = interval_or_default (some given);
            expected = some (some due, some given);
          } in
          subst (λ p. is_some p.expected ≡ true) (some-injective made plan (rw overdue at e)) refl
    ]

repair_entry-expects :
    (jitter : Text → ℕ → ℕ) (slot : Text) (now : ℕ) (o : Option DueCandidateSlot)
    (plan : UsagePollPlan)
    → repair_entry jitter slot now o ≡ some plan
    → is_some plan.expected ≡ true
unfolding repair_entry
repair_entry-expects jitter slot now none plan e = cc
repair_entry-expects jitter slot now (some entry) plan e =
    elim (Bool-cases (excluded_from_poll entry now)) [
      | inl out ↦ cc (rw out at e)
      | inr kept ↦
          repair_of-expects jitter slot entry now entry.next_due_at entry.poll_interval_s plan
            (rw kept at e)
    ]

add_repair-AllRepairs :
    (slot : Text) (o : Option UsagePollPlan) (plans : List (Text × UsagePollPlan))
    → ((plan : UsagePollPlan) → o ≡ some plan → is_some plan.expected ≡ true)
    → AllRepairs plans
    → AllRepairs (add_repair slot o plans)
unfolding add_repair AllRepairs
add_repair-AllRepairs slot none plans one all = all
add_repair-AllRepairs slot (some plan) plans one all = (one plan refl, all)

repairs_of-AllRepairs :
    (jitter : Text → ℕ → ℕ) (selected : Option Text) (seen candidates : List Text)
    (entries : List (Text × DueCandidateSlot)) (now : ℕ)
    → AllRepairs (repairs_of jitter selected seen candidates entries now)
unfolding repairs_of AllRepairs
repairs_of-AllRepairs jitter selected seen [] entries now = tt
repairs_of-AllRepairs jitter selected seen (slot ∷ rest) entries now =
    elim (Bool-cases (has seen slot || is_slot selected slot)) [
      | inl skip ↦ rw skip (repairs_of-AllRepairs jitter selected seen rest entries now)
      | inr turn ↦ rw turn (
          add_repair-AllRepairs slot (repair_entry jitter slot now (lookup slot entries))
            (repairs_of jitter selected (slot ∷ seen) rest entries now)
            (λ plan e. repair_entry-expects jitter slot now (lookup slot entries) plan e)
            (repairs_of-AllRepairs jitter selected (slot ∷ seen) rest entries now))
    ]

-- The repair of overdue plans leaves an account alone that is backing off, held by a renewer or
-- quarantined when the plans are written, even where the entries it was decided on say otherwise.
pub repair_overdue_plans-shut :
    (jitter : Text → ℕ → ℕ) (provider account : Text) (candidates : List Text)
    (entries : List (Text × DueCandidateSlot)) (now : ℕ) (rows : List UsagePollRow)
    (row : UsagePollRow)
    → get_usage_poll rows provider account ≡ some row
    → open_row now row ≡ false
    → get_usage_poll
        (repair_overdue_plans jitter provider candidates entries now rows).0
        provider
        account
      ≡ some row
unfolding repair_overdue_plans
repair_overdue_plans-shut jitter provider account candidates entries now rows row e shut =
    let selected = due_candidate candidates entries now in
    let plans = repairs_of jitter selected [] candidates entries now in
    write_usage_poll_plans-shut provider account plans now rows row
      (repairs_of-AllRepairs jitter selected [] candidates entries now) e shut
