-- ===== src/Store/Overrides/Laws.antt =====
-- What a pin, a new override and a clearing of overrides do to the table.
use qlb.Base.{
  ℕ, ◌≡◌, ◌≢◌, refl, sym, ◌∙◌, inl, inr, Bool, true, false, not, ◌&&◌, Option, none, some, List, [],
  ◌∷◌, ◌++◌, Text, codes, text_eq, text_eq_iff, text_eq_refl, filter, Bool-cases, Option-cases,
  arith,
}
use mathlib.Core.Bool.{false≢true}
use mathlib.Core.List.{nil≢cons}
use qlb.Store.{Store, OverrideRow}
use qlb.Store.Overrides.{
  sql_eq, is_active, find_last, later_or, is_pin_of, get_pin_override, replaced_by, upsert_override,
  ClearOverrides, cleared_by, is_given, clear_overrides,
}

module _ {ℓ} {A : Type ℓ} (p : A → Bool) where
  find_last-snoc : (xs : List A) (a : A) → p a ≡ true → find_last p (xs ++ a ∷ []) ≡ some a
  unfolding find_last
  find_last-snoc [] a h = rw h
  find_last-snoc (x ∷ xs) a h = rw (find_last-snoc xs a h)

  find_last-snoc_miss :
      (xs : List A) (a : A) → p a ≡ false → find_last p (xs ++ a ∷ []) ≡ find_last p xs
  unfolding find_last
  find_last-snoc_miss [] a h = rw h
  find_last-snoc_miss (x ∷ xs) a h = rw (find_last-snoc_miss xs a h)

  -- A filter that keeps what is looked for does not change the search.
  find_last-filter :
      (q : A → Bool) (keeps : (x : A) → p x ≡ true → q x ≡ true) (xs : List A)
      → find_last p (filter q xs) ≡ find_last p xs
  unfolding find_last
  find_last-filter q keeps [] = refl
  find_last-filter q keeps (x ∷ xs) = elim (Bool-cases (q x)) [
    | inl kept ↦ rw kept (rw (find_last-filter q keeps xs))
    | inr dropped ↦ rw dropped (
        find_last-filter q keeps xs
        ∙ later_or_false (find_last p xs) x (elim (Bool-cases (p x)) [
          | inl hit ↦ absurd (false≢true (sym dropped ∙ keeps x hit))
          | inr miss ↦ miss
        ]))
  ]
    where
      later_or_false : (o : Option A) (y : A) → p y ≡ false → o ≡ later_or o (p y) y
      later_or_false none y miss = rw miss
      later_or_false (some z) y miss = refl

  -- What is found passes the test.
  find_last-holds : (xs : List A) {a : A} → find_last p xs ≡ some a → p a ≡ true
  unfolding find_last
  find_last-holds [] h = cc
  find_last-holds (x ∷ xs) {a} h = elim (Option-cases (find_last p xs)) [
    | inl e ↦ in_head (rw (e, find_last) at h)
    | inr (y, e) ↦ find_last-holds xs (e ∙ (rw (e, find_last) at h))
  ]
    where
      in_head : later_or none (p x) x ≡ some a → p a ≡ true
      in_head g = elim (Bool-cases (p x)) [ inl hit ↦ ground arith | inr miss ↦ ground arith ]

  filter-append : (xs ys : List A) → filter p (xs ++ ys) ≡ filter p xs ++ filter p ys
  filter-append [] ys = refl
  filter-append (x ∷ xs) ys = ground (arith, filter-append xs ys)

  filter-filter-not :
      (q : A → Bool) (clash : (x : A) → p x ≡ true → q x ≡ true) (xs : List A)
      → filter p (filter (λ x. not (q x)) xs) ≡ []
  filter-filter-not q clash [] = refl
  filter-filter-not q clash (x ∷ xs) = ground (arith, clash x, filter-filter-not q clash xs)

-- A row that pins a session.
abbrev pub IsPin : OverrideRow → Text → Type 0
IsPin row session = (row.kind ≡ codes "pin") × (row.session ≡ some session)

pin_row : (row : OverrideRow) (s : Text) → IsPin row s → is_pin_of s row ≡ true
unfolding is_pin_of sql_eq text_eq
pin_row row s (k, e) = rw (k, e, text_eq_refl s) refl

pin_replaces :
    (row : OverrideRow) (s : Text) (pin : IsPin row s) (x : OverrideRow)
    → is_pin_of s x ≡ true
    → replaced_by row x ≡ true
unfolding is_pin_of replaced_by text_eq
pin_replaces row s (k, e) x h = rw (k, e) h

-- A pin that has not run out is the one that its session gets, whatever was pinned before.
pub get_pin_override-upsert :
    (store : Store) (row : OverrideRow) (session : Text) (now : ℕ)
    → IsPin row session
    → is_active now row ≡ true
    → get_pin_override (upsert_override store row) session now ≡ some row
unfolding get_pin_override upsert_override
get_pin_override-upsert store row session now pin live =
    find_last-snoc _ (filter (λ x. not (replaced_by row x)) store.overrides) row
      (rw (pin_row row session pin, live))

is_pin_of_other :
    (row : OverrideRow) (s s' : Text) → IsPin row s → s ≢ s' → is_pin_of s' row ≡ false
unfolding is_pin_of sql_eq text_eq
is_pin_of_other row s s' (k, e) differ = elim (Bool-cases (text_eq s s')) [
  | inl same ↦ absurd (differ ((text_eq_iff s s').0 same))
  | inr no_match ↦ rw (k, e) no_match
]

sql_clash :
    (o : Option Text) (s s' : Text) → s ≢ s' → sql_eq o (some s') ≡ true → sql_eq o (some s) ≡ false
unfolding sql_eq
sql_clash none s s' differ h = refl
sql_clash (some u) s s' differ h = elim (Bool-cases (text_eq u s)) [
  | inl same ↦ absurd (differ (sym ((text_eq_iff u s).0 same) ∙ (text_eq_iff u s').0 h))
  | inr no_match ↦ no_match
]

other_pin_kept :
    (row : OverrideRow) (s s' : Text) (pin : IsPin row s) (differ : s ≢ s') (x : OverrideRow)
    → is_pin_of s' x ≡ true
    → not (replaced_by row x) ≡ true
unfolding replaced_by is_pin_of text_eq
other_pin_kept row s s' (k, e) differ x h =
    rw (k, e) (ground (arith, h, sql_clash x.session s s' differ))

-- A pin leaves every other session with the pin that it had.
pub get_pin_override-upsert_other :
    (store : Store) (row : OverrideRow) (session session' : Text) (now : ℕ)
    → IsPin row session
    → session ≢ session'
    → get_pin_override (upsert_override store row) session' now
      ≡ get_pin_override store session' now
unfolding get_pin_override upsert_override
get_pin_override-upsert_other store row s s' now pin differ =
    let p = λ (x : OverrideRow). is_pin_of s' x && is_active now x in
    find_last-snoc_miss p (filter (λ x. not (replaced_by row x)) store.overrides) row
      (rw (is_pin_of_other row s s' pin differ))
    ∙ find_last-filter p (λ x. not (replaced_by row x))
        (λ x h. other_pin_kept row s s' pin differ x (ground (arith, h))) store.overrides

-- After a pin its session has that one pin, active or not.
pub upsert_override_one_pin :
    (store : Store) (row : OverrideRow) (session : Text)
    → IsPin row session
    → filter (is_pin_of session) (upsert_override store row).overrides ≡ row ∷ []
unfolding upsert_override
upsert_override_one_pin store row session pin =
    filter-append (is_pin_of session) (filter (λ x. not (replaced_by row x)) store.overrides)
      (row ∷ [])
    ∙ rw (
      filter-filter-not (is_pin_of session) (replaced_by row) (pin_replaces row session pin)
          store.overrides,
      pin_row row session pin,
    )

-- The pin that a session gets is its own and has not run out.
pub get_pin_override-active :
    (store : Store) (session : Text) (now : ℕ) (row : OverrideRow)
    → get_pin_override store session now ≡ some row
    → (is_pin_of session row ≡ true) × (is_active now row ≡ true)
unfolding get_pin_override
get_pin_override-active store session now row h =
    let both = find_last-holds (λ x. is_pin_of session x && is_active now x) store.overrides h in
    (ground (arith, both), ground (arith, both))

given_of_ne : (s : Text) → s ≢ [] → is_given (some s) ≡ true
unfolding cleared_by
given_of_ne [] ne = absurd (ne refl)
given_of_ne (c ∷ s) ne = refl

clears_pin :
    (opts : ClearOverrides) (s : Text) (x : OverrideRow)
    → opts.all ≡ false
    → opts.session ≡ some s
    → s ≢ []
    → is_pin_of s x ≡ true
    → cleared_by opts x ≡ true
unfolding is_pin_of cleared_by
clears_pin opts s x a e ne h = rw (a, e, given_of_ne s ne) (ground (arith, h))

find_last-none {ℓ} :
    {A : Type ℓ} (p : A → Bool) (xs : List A) → filter p xs ≡ [] → find_last p xs ≡ none
unfolding find_last
find_last-none p [] h = refl
find_last-none p (x ∷ xs) h = elim (Bool-cases (p x)) [
  | inl hit ↦ absurd (nil≢cons (sym (rw hit at h)))
  | inr miss ↦ rw (miss, find_last-none p xs (rw miss at h))
]

-- Clearing a session leaves it without a pin.
pub get_pin_override-clear :
    (store : Store) (opts : ClearOverrides) (session : Text) (now : ℕ)
    → opts.all ≡ false
    → opts.session ≡ some session
    → session ≢ []
    → get_pin_override (clear_overrides store opts).0 session now ≡ none
unfolding get_pin_override clear_overrides
get_pin_override-clear store opts session now a e ne =
    find_last-none (λ x. is_pin_of session x && is_active now x)
      (filter (λ x. not (cleared_by opts x)) store.overrides)
      (filter-filter-not (λ x. is_pin_of session x && is_active now x) (cleared_by opts)
        (λ x h. clears_pin opts session x a e ne (ground (arith, h))) store.overrides)
