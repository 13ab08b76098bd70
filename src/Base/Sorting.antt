-- ===== src/Base/Sorting.antt =====
-- The members of filtered and sorted lists.
use Prim.Native.Nat.{ℕ, zero, suc, ◌<◌}
use mathlib.Core.Path.{◌≡◌, refl, sym, ap, ◌∙◌}
use mathlib.Core.Logic.{◌↔◌, inl, inr}
use mathlib.Core.Bool.{Bool, true, false}
use mathlib.Core.List.{List, [], ◌∷◌, Memᴰ, nil≢cons}
use mathlib.Core.Option.{some}
use native.Mathlib.Omega.{arith}
use qlb.Base.Tests.{Bool-cases}
use qlb.Base.Lists.{filter, find, insert_sorted, sort, All, All-map, All-mem, length, get_elem?}

module _ {ℓ} {A : Type ℓ} (p : A → Bool) where
  pub mem_of_mem-filter : (xs : List A) {a : A} → Memᴰ a (filter p xs) → Memᴰ a xs × (p a ≡ true)
  mem_of_mem-filter [] m = elim m [ ]
  mem_of_mem-filter (x ∷ xs) {a} m = elim (Bool-cases (p x)) [
    | inl hit ↦ kept (λ n. mem_of_mem-filter xs n) hit (rw hit at m)
    | inr miss ↦ let (n, h) = mem_of_mem-filter xs (rw miss at m) in (Memᴰ.tail n, h)
  ]
    where
      kept :
          (Memᴰ a (filter p xs) → Memᴰ a xs × (p a ≡ true))
          → p x ≡ true
          → Memᴰ a (x ∷ filter p xs)
          → Memᴰ a (x ∷ xs) × (p a ≡ true)
      kept ih hit (Memᴰ.head e) = (Memᴰ.head e, rw e hit)
      kept ih hit (Memᴰ.tail n) = let (n', h) = ih n in (Memᴰ.tail n', h)

  pub mem-filter_of_mem : (xs : List A) {a : A} → Memᴰ a xs → p a ≡ true → Memᴰ a (filter p xs)
  mem-filter_of_mem [] m h = elim m [ ]
  mem-filter_of_mem (x ∷ xs) (Memᴰ.head e) h = rw (← e) (rw h (Memᴰ.head refl))
  mem-filter_of_mem (x ∷ xs) (Memᴰ.tail m) h = elim (Bool-cases (p x)) [
    | inl hit ↦ rw hit (Memᴰ.tail (mem-filter_of_mem xs m h))
    | inr miss ↦ rw miss (mem-filter_of_mem xs m h)
  ]

  pub filter-nil_iff : (xs : List A) → (filter p xs ≡ []) ↔ All (λ a. p a ≡ false) xs
  filter-nil_iff [] = (λ _. tt, λ _. refl)
  filter-nil_iff (x ∷ xs) =
      let (to, from) = filter-nil_iff xs in
      elim (Bool-cases (p x)) [
        | inl hit ↦ rw hit ((λ e. absurd (nil≢cons (sym e))), (λ f. cc))
        | inr miss ↦ rw miss ((λ e. (refl, to e)), (λ f. from f.1))
      ]

  pub find-some : (xs : List A) {a : A} → find p xs ≡ some a → Memᴰ a xs × (p a ≡ true)
  find-some [] e = cc
  find-some (x ∷ xs) {a} e = elim (Bool-cases (p x)) [
    | inl hit ↦
        let same : x ≡ a = ground (arith, e, hit) in (Memᴰ.head (sym same), ap p (sym same) ∙ hit)
    | inr miss ↦ let (m, h) = find-some xs (rw miss at e) in (Memᴰ.tail m, h)
  ]

module _ {ℓ} {A : Type ℓ} (before : A → A → Bool) where
  mem_of_mem-insert_sorted :
      (x : A) (xs : List A) {a : A} → Memᴰ a (insert_sorted before x xs) → Memᴰ a (x ∷ xs)
  mem_of_mem-insert_sorted x [] m = m
  mem_of_mem-insert_sorted x (y ∷ ys) {a} m = elim (Bool-cases (before y x)) [
    | inl less ↦ later (λ n. mem_of_mem-insert_sorted x ys n) (rw less at m)
    | inr more ↦ rw more at m
  ]
    where
      swapped : Memᴰ a (x ∷ ys) → Memᴰ a (x ∷ y ∷ ys)
      swapped (Memᴰ.head e) = Memᴰ.head e
      swapped (Memᴰ.tail n) = Memᴰ.tail (Memᴰ.tail n)

      later :
          (Memᴰ a (insert_sorted before x ys) → Memᴰ a (x ∷ ys))
          → Memᴰ a (y ∷ insert_sorted before x ys)
          → Memᴰ a (x ∷ y ∷ ys)
      later ih (Memᴰ.head e) = Memᴰ.tail (Memᴰ.head e)
      later ih (Memᴰ.tail n) = swapped (ih n)

  mem-insert_sorted_of_mem :
      (x : A) (xs : List A) {a : A} → Memᴰ a (x ∷ xs) → Memᴰ a (insert_sorted before x xs)
  mem-insert_sorted_of_mem x [] m = m
  mem-insert_sorted_of_mem x (y ∷ ys) {a} m = elim (Bool-cases (before y x)) [
    | inl less ↦ rw less (later (λ n. mem-insert_sorted_of_mem x ys n) m)
    | inr more ↦ rw more m
  ]
    where
      later :
          (Memᴰ a (x ∷ ys) → Memᴰ a (insert_sorted before x ys))
          → Memᴰ a (x ∷ y ∷ ys)
          → Memᴰ a (y ∷ insert_sorted before x ys)
      later ih (Memᴰ.head e) = Memᴰ.tail (ih (Memᴰ.head e))
      later ih (Memᴰ.tail (Memᴰ.head e)) = Memᴰ.head e
      later ih (Memᴰ.tail (Memᴰ.tail n)) = Memᴰ.tail (ih (Memᴰ.tail n))

  pub mem_of_mem-sort : (xs : List A) {a : A} → Memᴰ a (sort before xs) → Memᴰ a xs
  mem_of_mem-sort [] m = m
  mem_of_mem-sort (x ∷ xs) {a} m =
      step (λ n. mem_of_mem-sort xs n) (mem_of_mem-insert_sorted x (sort before xs) m)
    where
      step : (Memᴰ a (sort before xs) → Memᴰ a xs) → Memᴰ a (x ∷ sort before xs) → Memᴰ a (x ∷ xs)
      step ih (Memᴰ.head e) = Memᴰ.head e
      step ih (Memᴰ.tail n) = Memᴰ.tail (ih n)

  pub mem-sort_of_mem : (xs : List A) {a : A} → Memᴰ a xs → Memᴰ a (sort before xs)
  mem-sort_of_mem [] m = m
  mem-sort_of_mem (x ∷ xs) (Memᴰ.head e) = mem-insert_sorted_of_mem x (sort before xs) (Memᴰ.head e)
  mem-sort_of_mem (x ∷ xs) (Memᴰ.tail m) =
      mem-insert_sorted_of_mem x (sort before xs) (Memᴰ.tail (mem-sort_of_mem xs m))

  pub sort-nil : (xs : List A) → sort before xs ≡ [] → xs ≡ []
  sort-nil [] e = refl
  sort-nil (x ∷ xs) e =
      absurd
        (no_member (rw e at (mem-insert_sorted_of_mem x (sort before xs) {a = x} (Memᴰ.head refl))))
    where
      no_member : Memᴰ x [] → ⊥
      no_member m = elim m [ ]

module _ {ℓ} {A : Type ℓ} where
  pub get_elem?-mem : (xs : List A) (i : ℕ) {a : A} → get_elem? xs i ≡ some a → Memᴰ a xs
  get_elem?-mem [] i e = cc
  get_elem?-mem (x ∷ xs) zero e = Memᴰ.head (ground (arith, e))
  get_elem?-mem (x ∷ xs) (suc i) e = Memᴰ.tail (get_elem?-mem xs i e)

  pub get_elem?-total : (xs : List A) (i : ℕ) → i < length xs → (a : A) × (get_elem? xs i ≡ some a)
  get_elem?-total [] i h = elim h [ ]
  get_elem?-total (x ∷ xs) zero h = (x, refl)
  get_elem?-total (x ∷ xs) (suc i) h = get_elem?-total xs i (omega arith)

  pub mem-get_elem? :
      (xs : List A) {a : A} → Memᴰ a xs → (i : ℕ) × (i < length xs) × (get_elem? xs i ≡ some a)
  mem-get_elem? [] m = elim m [ ]
  mem-get_elem? (x ∷ xs) (Memᴰ.head e) = (0, omega arith, ap some (sym e))
  mem-get_elem? (x ∷ xs) (Memᴰ.tail m) =
      let (i, h, e) = mem-get_elem? xs m in (suc i, omega arith, e)

module _ {ℓ} {A : Type ℓ} (before : A → A → Bool) where
  All-insert_sorted {κ} :
      (P : A → Type κ) (x : A) (xs : List A) → P x → All P xs → All P (insert_sorted before x xs)
  All-insert_sorted P x [] p ps = (p, tt)
  All-insert_sorted P x (y ∷ ys) p ps = elim (Bool-cases (before y x)) [
    | inl less ↦ rw less (ps.0, All-insert_sorted P x ys p ps.1)
    | inr more ↦ rw more (p, ps)
  ]

  pub All-sort {κ} : (P : A → Type κ) (xs : List A) → All P xs → All P (sort before xs)
  All-sort P [] ps = tt
  All-sort P (x ∷ xs) (p, ps) = All-insert_sorted P x (sort before xs) p (All-sort P xs ps)

-- The first of a sorted list is the least, where the test is that of a linear order.
module _ {ℓ} {A : Type ℓ} (before : A → A → Bool)
    (asym : (a b : A) → before a b ≡ true → before b a ≡ false)
    (trans : (a b c : A) → before a b ≡ false → before b c ≡ false → before a c ≡ false) where
  abbrev Leads : List A → Type 0
  Leads [] = Unit
  Leads (y ∷ ys) = All (λ a. before a y ≡ false) ys

  insert_sorted-Leads : (x : A) (ys : List A) → Leads ys → Leads (insert_sorted before x ys)
  insert_sorted-Leads x [] l = tt
  insert_sorted-Leads x (y ∷ ys) l = elim (Bool-cases (before y x)) [
    | inl less ↦ rw less (All-insert_sorted before (λ a. before a y ≡ false) x ys (asym y x less) l)
    | inr more ↦ rw more (
      more,
      All-map (λ a. before a y ≡ false) (λ a. before a x ≡ false) (λ a h. trans a y x h more) ys l,
    )
  ]

  sort-Leads : (xs : List A) → Leads (sort before xs)
  sort-Leads [] = tt
  sort-Leads (x ∷ xs) = insert_sorted-Leads x (sort before xs) (sort-Leads xs)

  itself : (a : A) → before a a ≡ false
  itself a = elim (Bool-cases (before a a)) [ inl less ↦ asym a a less | inr more ↦ more ]

  pub sort-least :
      (xs : List A) {m : A} {rest : List A} {a : A}
      → sort before xs ≡ m ∷ rest
      → Memᴰ a xs
      → before a m ≡ false
  sort-least xs {m} {rest} {a} e mem =
      among (rw e at (sort-Leads xs)) (rw e at (mem-sort_of_mem before xs mem))
    where
      among : All (λ b. before b m ≡ false) rest → Memᴰ a (m ∷ rest) → before a m ≡ false
      among l (Memᴰ.head k) = rw k (itself m)
      among l (Memᴰ.tail n) = All-mem (λ b. before b m ≡ false) rest l n
