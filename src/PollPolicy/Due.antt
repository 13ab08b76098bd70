-- ===== src/PollPolicy/Due.antt =====
-- src/poll-policy.ts: which account `dueCandidate` answers: one whose gates are all open, and of those
-- the one that was left alone for longest.
use mathlib.Core.Option.{some-injective}
use qlb.Base.{
  ℕ, ◌+◌, ◌*◌, ◌≤◌, ◌<◌, max, ◌≡◌, ◌≢◌, ◌↔◌, ◌⊎◌, refl, ap, ◌∙◌, inl, inr, true, false, Option,
  none, some, List, [], ◌∷◌, Memᴰ, All, sort, Text, codes, text_eq, text_eq_iff, Bool-cases,
  or_else, arith, text_lt, text_lt-asym, text_lt_trans,
}
use qlb.Base.Sorting.{mem_of_mem-sort, sort-least}
use qlb.Store.Config.{lookup}
use qlb.PollPolicy.{
  DueCandidateSlot, is_before, says_dead, interval_or_default, plan_oversleeps_interval, is_due,
  touched_at, touched_before, due_slots, first_slot, due_candidate, excluded_from_poll,
}

-- A time that is not set, or has come.
abbrev pub Past : ℕ → Option ℕ → Type 0
Past now none = Unit
Past now (some t) = t ≤ now

-- A plan that lies more than 1.1 intervals and a minute ahead, where an interval is ten minutes or more.
abbrev pub Oversleeps : ℕ → Option ℕ → ℕ → Type 0
Oversleeps now none interval = ⊥
Oversleeps now (some next) interval = 10 * now + 11 * max interval 600 + 600 < 10 * next

-- An account that nothing is known of, or whose gates are all open: it is not quarantined, its backoff
-- and its hold are over, and its time has come or its plan oversleeps.
abbrev pub Due : ℕ → Option DueCandidateSlot → Type 0
Due now none = Unit
Due now (some e) =
    (e.last_status ≢ some (codes "token_dead"))
    × (e.dead_token ≡ false)
    × Past now e.backoff_until
    × Past now e.held_until
    × (Past now e.next_due_at ⊎ Oversleeps now e.next_due_at (or_else e.poll_interval_s 0))

-- When an account was last fetched or attempted.
abbrev pub touched : Option DueCandidateSlot → ℕ
touched none = 0
touched (some e) = max (or_else e.last_fetch_at 0) (or_else e.last_attempt_at 0)

is_before-Past : (now : ℕ) (o : Option ℕ) → (is_before now o ≡ false) ↔ Past now o
unfolding is_before
is_before-Past now none = ((λ _. tt), (λ _. refl))
is_before-Past now (some t) = ((λ e. ground arith), (λ e. ground arith))

says_dead_iff : (o : Option Text) → (says_dead o ≡ false) ↔ (o ≢ some (codes "token_dead"))
unfolding says_dead
says_dead_iff none = ((λ e k. cc), (λ _. refl))
says_dead_iff (some s) = (
  (λ e k.
      let same = (text_eq_iff s (codes "token_dead")).1 (some-injective s (codes "token_dead") k) in
      cc (rw same at e)),
  (λ ne. elim (Bool-cases (text_eq s (codes "token_dead"))) [
    | inl same ↦ absurd (ne (ap some ((text_eq_iff s (codes "token_dead")).0 same)))
    | inr other ↦ other
  ]),
)

plan_oversleeps_interval-Oversleeps :
    (now : ℕ) (o p : Option ℕ)
    → (plan_oversleeps_interval o p now ≡ true) ↔ Oversleeps now o (or_else p 0)
unfolding plan_oversleeps_interval interval_or_default
plan_oversleeps_interval-Oversleeps now none p = ((λ e. cc), (λ b. elim b [ ]))
plan_oversleeps_interval-Oversleeps now (some next) none =
    ((λ e. ground arith), (λ e. ground arith))
plan_oversleeps_interval-Oversleeps now (some next) (some i) =
    ((λ e. ground arith), (λ e. ground arith))

is_due-Due : (now : ℕ) (o : Option DueCandidateSlot) → (is_due o now ≡ true) ↔ Due now o
unfolding is_due excluded_from_poll
is_due-Due now none = ((λ _. tt), (λ _. refl))
is_due-Due now (some e) =
    let (dead, dead') = says_dead_iff e.last_status in
    let (back, back') = is_before-Past now e.backoff_until in
    let (held, held') = is_before-Past now e.held_until in
    let (next, next') = is_before-Past now e.next_due_at in
    let (over, over') = plan_oversleeps_interval-Oversleeps now e.next_due_at e.poll_interval_s in
    (
      (λ h. (
        dead (ground (arith, h)),
        ground (arith, h),
        back (ground (arith, h)),
        held (ground (arith, h)),
        elim (Bool-cases (is_before now e.next_due_at)) [
          | inr past ↦ inl (next past)
          | inl early ↦ inr (over (ground (arith, h, early)))
        ],
      )),
      (λ (d, t, b, l, n).
          let d' = dead' d in
          let b' = back' b in
          let l' = held' l in
          elim n [
            | inl past ↦ let n' = next' past in ground (arith, d', t, b', l', n')
            | inr late ↦ let n' = over' late in ground (arith, d', t, b', l', n')
          ]),
    )

touched_before-asym : (a b : ℕ × Text) → touched_before a b ≡ true → touched_before b a ≡ false
unfolding touched_before
touched_before-asym (s, a) (t, b) e = ground (arith, text_lt-asym a b, e)

touched_before_trans :
    (a b c : ℕ × Text)
    → touched_before a b ≡ false
    → touched_before b c ≡ false
    → touched_before a c ≡ false
unfolding touched_before
touched_before_trans (s, a) (t, b) (u, c) e f = ground (arith, text_lt_trans a b c, e, f)

-- An entry of the list of due accounts.
Entry : List Text → List (Text × DueCandidateSlot) → ℕ → ℕ × Text → Type 0
Entry candidates entries now (t, slot) =
    Memᴰ slot candidates
    × (is_due (lookup slot entries) now ≡ true)
    × (t ≡ touched_at (lookup slot entries))

due_slots-Entry :
    (candidates : List Text) (entries : List (Text × DueCandidateSlot)) (now : ℕ) {p : ℕ × Text}
    → Memᴰ p (due_slots candidates entries now)
    → Entry candidates entries now p
unfolding due_slots Entry
due_slots-Entry [] entries now m = elim m [ ]
due_slots-Entry (slot ∷ rest) entries now {p} m =
    elim (Bool-cases (is_due (lookup slot entries) now)) [
      | inl due ↦ kept (λ n. due_slots-Entry rest entries now n) due (rw due at m)
      | inr not_due ↦ later (due_slots-Entry rest entries now (rw not_due at m))
    ]
  where
    later : Entry rest entries now p → Entry (slot ∷ rest) entries now p
    later (n, d, t) = (Memᴰ.tail n, d, t)

    kept :
        (Memᴰ p (due_slots rest entries now) → Entry rest entries now p)
        → is_due (lookup slot entries) now ≡ true
        → Memᴰ p ((touched_at (lookup slot entries), slot) ∷ due_slots rest entries now)
        → Entry (slot ∷ rest) entries now p
    kept ih due (Memᴰ.head e) = rw e (Memᴰ.head refl, due, refl)
    kept ih due (Memᴰ.tail n) = later (ih n)

due_slots-all :
    (candidates : List Text) (entries : List (Text × DueCandidateSlot)) (now : ℕ) {slot : Text}
    → Memᴰ slot candidates
    → is_due (lookup slot entries) now ≡ true
    → Memᴰ (touched_at (lookup slot entries), slot) (due_slots candidates entries now)
unfolding due_slots
due_slots-all [] entries now m due = elim m [ ]
due_slots-all (c ∷ rest) entries now (Memᴰ.head e) due = rw (← e) (rw due (Memᴰ.head refl))
due_slots-all (c ∷ rest) entries now (Memᴰ.tail m) due =
    elim (Bool-cases (is_due (lookup c entries) now)) [
      | inl hit ↦ rw hit (Memᴰ.tail (due_slots-all rest entries now m due))
      | inr miss ↦ rw miss (due_slots-all rest entries now m due)
    ]

-- An account that is not polled before another: its gates are not all open, or it was left alone for
-- less long, or as long and its name is not the earlier one.
abbrev pub Yields : List (Text × DueCandidateSlot) → ℕ → Text → Text → Type 0
Yields entries now slot other =
    (Due now (lookup other entries) → ⊥)
    ⊎ (touched (lookup slot entries) < touched (lookup other entries))
    ⊎ ((touched (lookup slot entries) ≡ touched (lookup other entries))
        × (text_lt other slot ≡ false))

All-of_mem {ℓ} :
    {A : Type ℓ} (P : A → Type 0) (xs : List A) → ((a : A) → Memᴰ a xs → P a) → All P xs
All-of_mem P [] f = tt
All-of_mem P (x ∷ xs) f = (f x (Memᴰ.head refl), All-of_mem P xs (λ a m. f a (Memᴰ.tail m)))

touched-same : (o : Option DueCandidateSlot) → touched_at o ≡ touched o
unfolding touched_at
touched-same none = refl
touched-same (some e) = refl

not_before :
    (s t : ℕ) (a b : Text)
    → touched_before (s, a) (t, b) ≡ false
    → (t < s) ⊎ ((t ≡ s) × (text_lt a b ≡ false))
unfolding touched_before
not_before s t a b e = ground (arith, e)

-- The account that is polled next is a candidate whose gates are all open: nothing is known of it, or
-- it is not quarantined, its backoff and its hold are over, and its time has come or its plan
-- oversleeps. Every other candidate has a gate that is shut, or was fetched or attempted later, or at
-- the same time and its name is not the earlier one.
pub due_candidate-Due :
    (candidates : List Text) (entries : List (Text × DueCandidateSlot)) (now : ℕ) (slot : Text)
    → due_candidate candidates entries now ≡ some slot
    → Memᴰ slot candidates
      × Due now (lookup slot entries)
      × All (Yields entries now slot) candidates
unfolding due_candidate Entry
due_candidate-Due candidates entries now slot e =
    go (sort touched_before (due_slots candidates entries now)) refl e
  where
    go :
        (sorted : List (ℕ × Text))
        → sort touched_before (due_slots candidates entries now) ≡ sorted
        → first_slot sorted ≡ some slot
        → Memᴰ slot candidates
          × Due now (lookup slot entries)
          × All (Yields entries now slot) candidates
    go [] is h = unfold first_slot in cc
    go ((t, s) ∷ rest) is h =
        let same : s ≡ slot = some-injective s slot (unfold first_slot in h) in
        let slots = due_slots candidates entries now in
        let (listed, due, at) =
          due_slots-Entry candidates entries now {p = (t, s)}
            (mem_of_mem-sort touched_before slots (rw is (Memᴰ.head refl))) in
        let since = at ∙ touched-same (lookup s entries) in
        rw (← same) (
          listed,
          (is_due-Due now (lookup s entries)).0 due,
          All-of_mem (Yields entries now s) candidates (λ other m.
              elim (Bool-cases (is_due (lookup other entries) now)) [
                | inr shut ↦ inl (λ d. cc ((is_due-Due now (lookup other entries)).1 d))
                | inl open_too ↦ inr (
                    rw (← since, ← touched-same (lookup other entries))
                      (not_before (touched_at (lookup other entries)) t other s (
                        sort-least touched_before touched_before-asym touched_before_trans slots is
                          (due_slots-all candidates entries now m open_too))))
              ]),
        )
