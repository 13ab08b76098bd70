-- ===== src/Autoswitch/Census.antt =====
-- src/autoswitch.ts: what is known of each account that is not dead.
use qlb.Base.{
  ℕ, suc, ◌==◌, max, Bool, true, false, not, ◌&&◌, Option, none, some, List, [], ◌∷◌, filter, Text,
  codes, text_eq, if◌then◌else◌, ltb, leb, or_else, ℤ, sub_ℕ,
}
use qlb.Store.Config.{lookup}
use qlb.Autoswitch.{
  hundred, Window, AutoswitchAccount, AutoswitchSettings, account_threshold, account_weekly,
}
use qlb.Autoswitch.Lines.{BindingWindow, binding_window}

pub record CensusAccount : Type 0 where
  pub account : AutoswitchAccount
  pub index : ℕ
  pub raw_headroom : Option ℤ
  pub binding : Option BindingWindow
  pub recovery_at_ms : Option ℕ
  pub exhausted : Bool
  pub has_room : Bool

highest : Option ℕ → Option ℕ → Option ℕ
highest top none = top
highest none (some pct) = some pct
highest (some top) (some pct) = some (max top pct)

binding_pct_from : Option ℕ → List (Text × Window) → Option ℕ
unfolding highest
binding_pct_from top [] = top
binding_pct_from top ((_, w) ∷ rest) = binding_pct_from (highest top w.used_pct) rest

-- `bindingPct`: the highest percentage of the windows.
unfoldable pub binding_pct : AutoswitchAccount → Option ℕ
unfolding binding_pct_from
binding_pct account = binding_pct_from none account.buckets

-- Codex's primary window is on the 5h line.
line_label : Text → Text
line_label label = if text_eq label (codes "primary") then codes "5h" else label

known_window : Text → Window → Option ℕ → List (Text × ℕ × Option ℕ) → List (Text × ℕ × Option ℕ)
unfolding line_label
known_window label w none rest = rest
known_window label w (some pct) rest = (line_label label, pct, w.reset_at) ∷ rest

known_windows : List (Text × Window) → List (Text × ℕ × Option ℕ)
unfolding known_window
known_windows [] = []
known_windows ((label, w) ∷ rest) = known_window label w w.used_pct (known_windows rest)

unfoldable pub binding_for : AutoswitchAccount → AutoswitchSettings → Option BindingWindow
unfolding known_windows
binding_for account settings =
    binding_window (known_windows account.buckets) (account_threshold account settings)
      (account_weekly account settings) settings.threshold

-- A reset that is ahead.
unfoldable pub ahead : Option ℕ → ℕ → Option ℕ
ahead none now = none
ahead (some reset) now = if ltb now reset then some reset else none

reset_of : Option Window → Option ℕ
reset_of none = none
reset_of (some w) = w.reset_at

-- `account.buckets[label] ?? (label === '5h' ? account.buckets.primary : undefined)`.
bucket_or_primary : Text → List (Text × Window) → Option Window → Option Window
bucket_or_primary label buckets (some w) = some w
bucket_or_primary label buckets none =
    if text_eq label (codes "5h") then lookup (codes "primary") buckets else none

unfoldable pub binding_recovery : AutoswitchAccount → Option BindingWindow → ℕ → Option ℕ
unfolding reset_of bucket_or_primary
binding_recovery account none now = none
binding_recovery account (some binding) now =
    ahead
      (reset_of
        (bucket_or_primary binding.label account.buckets (lookup binding.label account.buckets)))
      now

-- The window is used up.
unfoldable pub used_up : Window → Bool
used_up w = elim w.used_pct [ none ↦ false | some pct ↦ leb hundred pct ]

latest : Option ℕ → ℕ → Option ℕ
latest none reset = some reset
latest (some top) reset = some (max top reset)

-- `none` where a window that is used up has no reset ahead; else the last of their resets.
exhausted_from : Option ℕ → List (Text × Window) → ℕ → Option ℕ
unfolding latest
exhausted_from top [] now = top
exhausted_from top ((_, w) ∷ rest) now = elim (ahead w.reset_at now) [
  | none ↦ (if used_up w then none else exhausted_from top rest now)
  | some reset ↦ exhausted_from (if used_up w then latest top reset else top) rest now
]

unfoldable pub exhausted_recovery : AutoswitchAccount → ℕ → Option ℕ
unfolding exhausted_from
exhausted_recovery account now = exhausted_from none account.buckets now

unfoldable pub headroom_of : Option ℕ → Option ℤ
headroom_of none = none
headroom_of (some pct) = some (sub_ℕ hundred pct)

is_spent : Option ℕ → Bool → Bool
is_spent none limited = false
is_spent (some pct) limited = if limited then true else leb hundred pct

room_left : Option ℕ → Bool → Bool
room_left none limited = false
room_left (some pct) limited = not limited && ltb pct hundred

unfoldable pub census_row :
    AutoswitchSettings → ℕ → Text → Bool → Bool → AutoswitchAccount → ℕ → CensusAccount
unfolding headroom_of is_spent room_left
census_row settings now active_id provider_limit usage_unknown account index =
    let is_active = text_eq account.account_id active_id in
    let raw_pct = if usage_unknown && is_active then none else binding_pct account in
    let binding = if usage_unknown && is_active then none else binding_for account settings in
    let limited = is_active && provider_limit in
    record {
      account = account;
      index = index;
      raw_headroom = headroom_of raw_pct;
      binding = binding;
      recovery_at_ms = binding_recovery account binding now;
      exhausted = is_spent raw_pct limited;
      has_room = room_left raw_pct limited;
    }

unfoldable pub census_rows :
    (AutoswitchAccount → ℕ → CensusAccount) → ℕ → List AutoswitchAccount → List CensusAccount
census_rows row index [] = []
census_rows row index (account ∷ rest) = row account index ∷ census_rows row (suc index) rest

unfoldable pub census :
    List AutoswitchAccount → AutoswitchSettings → ℕ → Text → Bool → Bool → List CensusAccount
unfolding census_rows
census accounts settings now active_id provider_limit usage_unknown =
    census_rows (census_row settings now active_id provider_limit usage_unknown) 0
      (filter (λ account. not account.dead) accounts)

optional_before : Option ℕ → Option ℕ → Option Bool
optional_before none none = none
optional_before none (some b) = some false
optional_before (some a) none = some true
optional_before (some a) (some b) = if a == b then none else some (ltb a b)

-- `accountOrder(a, b) < 0`.
unfoldable pub account_before : CensusAccount → CensusAccount → Bool
unfolding optional_before
account_before a b =
    or_else (optional_before a.account.slot_num b.account.slot_num)
      (or_else (optional_before a.account.added_at_ms b.account.added_at_ms) (ltb a.index b.index))
