-- ===== src/Base/Decimal.antt =====
-- `String(n)` and the reading of `/^-?\d+$/`, and that the second undoes the first.
use Prim.Native.Nat.{ℕ, zero, suc, ◌+◌, ◌-◌, ◌*◌, ◌/◌, ◌%◌, ◌≤◌, ◌<◌}
use mathlib.Core.Path.{◌≡◌, refl, ap, ◌∙◌}
use mathlib.Core.Bool.{◌&&◌}
use mathlib.Core.List.{[], ◌∷◌, ◌++◌}
use mathlib.Core.Logic.{inl, inr}
use mathlib.Core.Option
use mathlib.Core.Option.{Option, none, some}
use native.Mathlib.Omega.{arith}
use qlb.Base.Tests.{ltb, leb, ◌==◌, if◌then◌else◌, Bool-cases}
use qlb.Base.Int.{ℤ, pos, negsuc, sub_ℕ}
use qlb.Base.Strings.{Text}

-- The decimal digits of a number; a number is more than it has digits, so `suc n` rounds are enough.
digits : ℕ → ℕ → Text
digits zero n = []
digits (suc f) n =
    let rest = digits f (n / 10) ++ (48 + n % 10) ∷ [] in if ltb n 10 then (48 + n) ∷ [] else rest

-- `String(i)`.
unfoldable pub print_int : ℤ → Text
unfolding digits
print_int (pos n) = digits (suc n) n
print_int (negsuc n) = b'-' ∷ digits (suc (suc n)) (suc n)

-- `\d+`, from the left, with the value of what has been read.
parse_digits : ℕ → Text → Option ℕ
parse_digits v [] = some v
parse_digits v (c ∷ s) = if leb 48 c && leb c 57 then parse_digits (v * 10 + (c - 48)) s else none

pub parse_nat : Text → Option ℕ
unfolding parse_digits
parse_nat [] = none
parse_nat (c ∷ s) = parse_digits 0 (c ∷ s)

-- `/^-?\d+$/.test(s) ? Number(s) : …`; a `-0` is 0.
unfoldable pub parse_int : Text → Option ℤ
unfolding parse_nat
parse_int [] = none
parse_int (c ∷ s) =
    if c == b'-'
    then Option.map (λ n. sub_ℕ 0 n) (parse_nat s)
    else Option.map pos (parse_nat (c ∷ s))

-- Reading a run of digits and one more.
parse_digits-append :
    (s : Text) (v w d : ℕ)
    → parse_digits v s ≡ some w
    → d < 10
    → parse_digits v (s ++ (48 + d) ∷ []) ≡ some (w * 10 + d)
unfolding parse_digits
parse_digits-append [] v w d e h = ground arith
parse_digits-append (c ∷ s) v w d e h =
    ground (arith, parse_digits-append s (v * 10 + (c - 48)) w d)

parse_digits-digits : (f n : ℕ) → n < f → parse_digits 0 (digits f n) ≡ some n
unfolding digits
parse_digits-digits zero n h = elim h [ ]
parse_digits-digits (suc f) n h = elim (Bool-cases (ltb n 10)) [
  | inl small ↦ rw small (unfold parse_digits in ground arith)
  | inr large ↦ rw large (
      parse_digits-append (digits f (n / 10)) 0 (n / 10) (n % 10)
        (parse_digits-digits f (n / 10) (ground arith)) (omega arith)
      ∙ ap some (omega arith))
]

-- The printed number starts with a digit.
abbrev StartsDigit : Text → Type 0
StartsDigit [] = ⊥
StartsDigit (c ∷ s) = 48 ≤ c

StartsDigit-append : (s t : Text) → StartsDigit s → StartsDigit (s ++ t)
StartsDigit-append [] t h = elim h [ ]
StartsDigit-append (c ∷ s) t h = h

digits-StartsDigit : (f n : ℕ) → n < f → StartsDigit (digits f n)
unfolding digits
digits-StartsDigit zero n h = elim h [ ]
digits-StartsDigit (suc f) n h = elim (Bool-cases (ltb n 10)) [
  | inl small ↦ rw small (omega arith)
  | inr large ↦
      rw large
        (StartsDigit-append (digits f (n / 10)) _ (digits-StartsDigit f (n / 10) (ground arith)))
]

parse_nat_lem : (s : Text) → StartsDigit s → parse_nat s ≡ parse_digits 0 s
unfolding parse_nat
parse_nat_lem [] h = elim h [ ]
parse_nat_lem (c ∷ s) h = refl

parse_int_digit : (s : Text) → StartsDigit s → parse_int s ≡ Option.map pos (parse_nat s)
unfolding parse_int
parse_int_digit [] h = elim h [ ]
parse_int_digit (c ∷ s) h = ground arith

-- A printed index is read back, below zero too.
pub parse_int-print_int : (i : ℤ) → parse_int (print_int i) ≡ some i
unfolding print_int parse_int
parse_int-print_int (pos n) =
    let d = digits-StartsDigit (suc n) n (omega arith) in
    parse_int_digit (digits (suc n) n) d
    ∙ ap (Option.map pos)
        (parse_nat_lem (digits (suc n) n) d ∙ parse_digits-digits (suc n) n (omega arith))
parse_int-print_int (negsuc n) =
    ap (Option.map (λ k. sub_ℕ 0 k)) (
      parse_nat_lem (digits (suc (suc n)) (suc n))
        (digits-StartsDigit (suc (suc n)) (suc n) (omega arith))
      ∙ parse_digits-digits (suc (suc n)) (suc n) (omega arith))
    ∙ ap some (ground arith)
