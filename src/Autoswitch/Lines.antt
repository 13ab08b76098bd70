-- ===== src/Autoswitch/Lines.antt =====
-- src/lines.ts: the switch lines, and the window that holds an account back. A headroom is an exact
-- fraction, where the source has a float.
use qlb.Base.{
  ℕ, ◌+◌, ◌-◌, ◌*◌, ◌==◌, Bool, ◌&&◌, ◌||◌, Option, none, some, List, [], ◌∷◌, Text, codes, text_eq,
  if◌then◌else◌, ltb, leb, ℤ, pos, pos_part, neg_part, sub_ℕ,
}
use qlb.Autoswitch.{hundred}

-- `num / den`, with a positive denominator.
pub record Frac : Type 0 where
  pub num : ℤ
  pub den : ℕ

unfoldable pub times : ℤ → ℕ → ℤ
times a k = sub_ℕ (pos_part a * k) (neg_part a * k)

-- `a < b`.
unfoldable pub frac_lt : Frac → Frac → Bool
unfolding times
frac_lt a b =
    let x = times a.num b.den in
    let y = times b.num a.den in ltb (pos_part x + neg_part y) (pos_part y + neg_part x)

-- `a + k`.
unfoldable pub frac_add : Frac → ℕ → Frac
frac_add a k = record a { num = sub_ℕ (pos_part a.num + k * a.den) (neg_part a.num) }

unfoldable pub whole : ℤ → Frac
whole n = record { num = n; den = 1 }

pub record BindingWindow : Type 0 where
  pub label : Text
  pub pct : ℕ
  pub line : ℕ
  pub resets_at : Option ℕ
  pub line_headroom : Frac
  pub over : Bool

unfoldable pub window_line : Text → ℕ → Option ℕ → ℕ
window_line label threshold none = threshold
window_line label threshold (some weekly) = if text_eq label (codes "5h") then threshold else weekly

-- `lineHeadroom`, with a line between 0 and 100, both left out.
unfoldable pub line_headroom : ℕ → ℕ → ℕ → Frac
unfolding whole times
line_headroom pct line threshold =
    if line == threshold
    then whole (sub_ℕ hundred pct)
    else if leb pct line
    then (record {
      num = pos ((hundred - threshold) * line + threshold * (line - pct));
      den = line;
    })
    else (record { num = times (sub_ℕ hundred pct) (hundred - threshold); den = hundred - line })

unfoldable pub window_of : ℕ → Option ℕ → ℕ → Text × ℕ × Option ℕ → BindingWindow
unfolding window_line
window_of threshold weekly ruler (label, pct, resets_at) =
    let line = window_line label threshold weekly in
    record {
      label = label;
      pct = pct;
      line = line;
      resets_at = resets_at;
      line_headroom = line_headroom pct line ruler;
      over = leb line pct;
    }

-- `best.over === candidate.over ? candidate.lineHeadroom < best.lineHeadroom : candidate.over`.
unfoldable pub holds_more : BindingWindow → BindingWindow → Bool
holds_more candidate top =
    if top.over
    then candidate.over && frac_lt candidate.line_headroom top.line_headroom
    else candidate.over || frac_lt candidate.line_headroom top.line_headroom

unfoldable pub pick_binding : Option BindingWindow → BindingWindow → Option BindingWindow
pick_binding none candidate = some candidate
pick_binding (some top) candidate = if holds_more candidate top then some candidate else some top

unfoldable pub binding_from :
    ℕ → Option ℕ → ℕ → Option BindingWindow → List (Text × ℕ × Option ℕ) → Option BindingWindow
unfolding pick_binding
binding_from threshold weekly ruler top [] = top
binding_from threshold weekly ruler top (w ∷ rest) =
    binding_from threshold weekly ruler (pick_binding top (window_of threshold weekly ruler w)) rest

-- `bindingWindow`; the ruler is `options.scale ?? threshold`.
unfoldable pub binding_window : List (Text × ℕ × Option ℕ) → ℕ → Option ℕ → ℕ → Option BindingWindow
unfolding binding_from
binding_window windows threshold weekly ruler = binding_from threshold weekly ruler none windows
