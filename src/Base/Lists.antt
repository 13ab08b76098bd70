-- ===== src/Base/Lists.antt =====
-- Lists: JavaScript's array methods by Boolean tests, and predicates on lists by recursion.
use Prim.Native.Nat.{ℕ, zero, suc}
use mathlib.Core.Path.{◌≡◌}
use mathlib.Core.Logic.{inl, inr}
use mathlib.Core.Bool.{Bool, false, not}
use mathlib.Core.List.{List, [], ◌∷◌, Memᴰ}
use mathlib.Core.Option.{Option, none, some}
use qlb.Base.Tests.{if◌then◌else◌, Bool-cases}

module _ {ℓ} {A : Type ℓ} where
  abbrev pub length : List A → ℕ
  length [] = 0
  length (x ∷ xs) = suc (length xs)

  abbrev pub get_elem? : List A → ℕ → Option A
  get_elem? [] i = none
  get_elem? (x ∷ xs) zero = some x
  get_elem? (x ∷ xs) (suc i) = get_elem? xs i

  -- `xs.filter(p)`.
  abbrev pub filter : (A → Bool) → List A → List A
  filter p [] = []
  filter p (x ∷ xs) = if p x then x ∷ filter p xs else filter p xs

  -- `xs.find(p)`.
  abbrev pub find : (A → Bool) → List A → Option A
  find p [] = none
  find p (x ∷ xs) = if p x then some x else find p xs

  -- `xs.sort(compare)`, which is stable: `before y x` is `compare(y, x) < 0`.
  abbrev pub insert_sorted : (A → A → Bool) → A → List A → List A
  insert_sorted before x [] = x ∷ []
  insert_sorted before x (y ∷ ys) = if before y x then y ∷ insert_sorted before x ys else x ∷ y ∷ ys

  abbrev pub sort : (A → A → Bool) → List A → List A
  sort before [] = []
  sort before (x ∷ xs) = insert_sorted before x (sort before xs)

  abbrev pub All {κ} : (A → Type κ) → List A → Type κ
  All P [] = Unit
  All P (x ∷ xs) = P x × All P xs

module _ {ℓ} {A : Type ℓ} where
  pub All-mem {κ} : (P : A → Type κ) (xs : List A) {a : A} → All P xs → Memᴰ a xs → P a
  All-mem P [] ps m = elim m [ ]
  All-mem P (x ∷ xs) (p, ps) (Memᴰ.head e) = rw e p
  All-mem P (x ∷ xs) (p, ps) (Memᴰ.tail m) = All-mem P xs ps m

  pub All-map {κ ι} :
      (P : A → Type κ) (Q : A → Type ι)
      → ((a : A) → P a → Q a)
      → (xs : List A) → All P xs
      → All Q xs
  All-map P Q f [] ps = tt
  All-map P Q f (x ∷ xs) ps = (f x ps.0, All-map P Q f xs ps.1)

  pub All-filter {κ} :
      (P : A → Type κ) (p : A → Bool) (xs : List A) → All P xs → All P (filter p xs)
  All-filter P p [] ps = tt
  All-filter P p (x ∷ xs) ps = elim (Bool-cases (p x)) [
    | inl hit ↦ rw hit (ps.0, All-filter P p xs ps.1)
    | inr miss ↦ rw miss (All-filter P p xs ps.1)
  ]

  -- What holds of the kept members and of every dropped one holds of all.
  pub All-unfilter {κ} :
      (P : A → Type κ) (p : A → Bool) (xs : List A)
      → ((a : A) → p a ≡ false → P a)
      → All P (filter p xs)
      → All P xs
  All-unfilter P p [] d ps = tt
  All-unfilter P p (x ∷ xs) d ps = elim (Bool-cases (p x)) [
    | inl hit ↦
        let qs : All P (x ∷ filter p xs) = (rw hit at ps) in (qs.0, All-unfilter P p xs d qs.1)
    | inr miss ↦ (d x miss, All-unfilter P p xs d (rw miss at ps))
  ]

  pub All-split {κ} :
      (P : A → Type κ) (p : A → Bool) (xs : List A)
      → All P (filter p xs)
      → All P (filter (λ a. not (p a)) xs)
      → All P xs
  All-split P p [] ps qs = tt
  All-split P p (x ∷ xs) ps qs = elim (Bool-cases (p x)) [
    | inl hit ↦
        let ps' : All P (x ∷ filter p xs) = (rw hit at ps) in
        (ps'.0, All-split P p xs ps'.1 (rw hit at qs))
    | inr miss ↦
        let qs' : All P (x ∷ filter (λ a. not (p a)) xs) = (rw miss at qs) in
        (qs'.0, All-split P p xs (rw miss at ps) qs'.1)
  ]
