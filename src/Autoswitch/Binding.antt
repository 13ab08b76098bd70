-- ===== src/Autoswitch/Binding.antt =====
-- src/autoswitch.ts, src/lines.ts: the ranges of the settings, and when an account is over a line.
use qlb.Base.{
  ℕ, ◌*◌, ◌≤◌, ◌≡◌, refl, inl, inr, Bool, true, false, ◌&&◌, ◌||◌, Option, none, some, List, [],
  ◌∷◌, Text, leb, Bool-cases, arith, min, max,
}
use qlb.Autoswitch.{AutoswitchInput, clamp, clamp_weekly, settings_for, one_percent, top_line}
use qlb.Autoswitch.Lines.{
  BindingWindow, window_line, window_of, holds_more, frac_lt, pick_binding, binding_from,
  binding_window,
}
use qlb.Autoswitch.NoReturn.{is_over}

unfoldable pub Between : ℕ → ℕ → ℕ → Type 0
Between lo hi n = (lo ≤ n) × (n ≤ hi)

unfoldable pub AllBetween : ℕ → ℕ → Option ℕ → Type 0
AllBetween lo hi none = Unit
AllBetween lo hi (some n) = Between lo hi n

clamp-Between :
    (o : Option ℕ) (fallback lo hi : ℕ)
    → lo ≤ fallback
    → fallback ≤ hi
    → Between lo hi (clamp o fallback lo hi)
unfolding clamp Between
clamp-Between none fallback lo hi a b = (a, b)
clamp-Between (some n) fallback lo hi a b = between n (le_trans a b)
  where
    le_trans : {x y z : ℕ} → x ≤ y → y ≤ z → x ≤ z
    le_trans p q = omega arith

    between : (n : ℕ) → lo ≤ hi → (lo ≤ min (max n lo) hi) × (min (max n lo) hi ≤ hi)
    between n le = omega arith

clamp_weekly-AllBetween :
    (o : Option ℕ) (fallback lo hi : ℕ)
    → lo ≤ fallback
    → fallback ≤ hi
    → AllBetween lo hi (clamp_weekly o fallback lo hi)
unfolding clamp_weekly AllBetween
clamp_weekly-AllBetween none fallback lo hi a b = tt
clamp_weekly-AllBetween (some n) fallback lo hi a b = clamp-Between (some n) fallback lo hi a b

-- Whatever settings are asked for, the ones in force are in their ranges: both lines from 50 % to
-- 99.9 %, at most 50 % of hysteresis, at most a day of cooldown, 1 to 100 ticks.
pub settings_for-Between :
    (input : AutoswitchInput)
    → let s = settings_for input in
      Between (50 * one_percent) top_line s.threshold
      × AllBetween (50 * one_percent) top_line s.weekly_threshold
      × Between 0 (50 * one_percent) s.hysteresis_pct
      × Between 0 86400 s.cooldown_seconds
      × Between 1 100 s.unhealthy_ticks
unfolding settings_for
settings_for-Between input =
    let asked = input.settings in
    (
      clamp-Between asked.threshold (90 * one_percent) (50 * one_percent) top_line (omega arith)
          (omega arith),
      clamp_weekly-AllBetween asked.weekly_threshold (90 * one_percent) (50 * one_percent) top_line
          (omega arith) (omega arith),
      clamp-Between asked.hysteresis_pct (10 * one_percent) 0 (50 * one_percent) (omega arith)
          (omega arith),
      clamp-Between asked.cooldown_seconds 300 0 86400 (omega arith) (omega arith),
      clamp-Between asked.unhealthy_ticks 3 1 100 (omega arith) (omega arith),
    )

-- Is some window at its line, or past it?
unfoldable pub any_over : ℕ → Option ℕ → List (Text × ℕ × Option ℕ) → Bool
any_over threshold weekly [] = false
any_over threshold weekly ((label, pct, resets_at) ∷ rest) =
    leb (window_line label threshold weekly) pct || any_over threshold weekly rest

pick_binding-over :
    (o : Option BindingWindow) (w : BindingWindow)
    → is_over (pick_binding o w) ≡ is_over o || w.over
unfolding pick_binding is_over holds_more
pick_binding-over none w = refl
pick_binding-over (some top) w = elim (Bool-cases top.over) [
  | inl held ↦ elim (Bool-cases (w.over && frac_lt w.line_headroom top.line_headroom)) [
    | inl more ↦
        simp (held, more) (and_first w.over (frac_lt w.line_headroom top.line_headroom) more)
    | inr less ↦ simp (held, less) refl
  ]
  | inr under ↦ elim (Bool-cases w.over) [
    | inl over ↦ simp (under, over) refl
    | inr lower ↦ elim (Bool-cases (frac_lt w.line_headroom top.line_headroom)) [
      | inl less ↦ simp (under, lower, less) refl
      | inr more ↦ simp (under, lower, more) refl
    ]
  ]
]
  where
    and_first : (a b : Bool) → a && b ≡ true → a ≡ true
    and_first true b e = refl
    and_first false b e = e

binding_from-over :
    (threshold : ℕ) (weekly : Option ℕ) (ruler : ℕ) (o : Option BindingWindow)
    (windows : List (Text × ℕ × Option ℕ))
    → is_over (binding_from threshold weekly ruler o windows)
      ≡ is_over o || any_over threshold weekly windows
unfolding binding_from any_over window_of
binding_from-over threshold weekly ruler o [] = or_false (is_over o)
  where
    or_false : (a : Bool) → a ≡ a || false
    or_false true = refl
    or_false false = refl
binding_from-over threshold weekly ruler o ((label, pct, at) ∷ rest) =
    let w = window_of threshold weekly ruler (label, pct, at) in
    rw (binding_from-over threshold weekly ruler (pick_binding o w) rest, pick_binding-over o w)
      (or_assoc (is_over o) (leb (window_line label threshold weekly) pct)
        (any_over threshold weekly rest))
  where
    or_assoc : (a b c : Bool) → (a || b) || c ≡ a || (b || c)
    or_assoc true b c = refl
    or_assoc false b c = refl

-- The binding window is over its line exactly where some window of the account is: the choice of the
-- window of least headroom never hides one that is over its line.
pub binding_window-over :
    (windows : List (Text × ℕ × Option ℕ)) (threshold : ℕ) (weekly : Option ℕ) (ruler : ℕ)
    → is_over (binding_window windows threshold weekly ruler) ≡ any_over threshold weekly windows
unfolding binding_window is_over
binding_window-over windows threshold weekly ruler =
    binding_from-over threshold weekly ruler none windows
