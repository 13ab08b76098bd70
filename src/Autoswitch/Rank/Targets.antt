-- ===== src/Autoswitch/Rank/Targets.antt =====
-- src/autoswitch.ts: what holds of the accounts of the census, and of the candidates for a switch.
use mathlib.Core.Option.{some-injective}
use qlb.Base.{
  ℕ, suc, ◌≡◌, ◌≢◌, refl, sym, inl, inr, Bool, true, false, not, ◌&&◌, Option, none, some, List, [],
  ◌∷◌, map, Memᴰ, filter, sort, All, All-map, All-filter, Text, text_eq, Bool-cases, ℤ, sub_ℕ,
  is_pos, is_some,
}
use qlb.Base.Sorting.{All-sort}
use qlb.Autoswitch.{hundred, AutoswitchAccount, AutoswitchSettings, Trigger}
use qlb.Autoswitch.Census.{CensusAccount, binding_pct, census_row, census_rows, census, headroom_of}
use qlb.Autoswitch.Rank.{
  Key, Ranking, Placement, place, place_measured, add_placed, place_all, order_placed,
  ranked_before, ranking_of, rank_candidates, candidates_of, measured_of,
}

-- An entry of the census is an account of the input that is not dead, and its headroom is what its
-- highest percentage leaves.
unfoldable pub Known : List AutoswitchAccount → CensusAccount → Type 0
Known accounts item =
    Memᴰ item.account accounts
    × (item.account.dead ≡ false)
    × ((h : ℤ)
        → item.raw_headroom ≡ some h
        → (p : ℕ) × (binding_pct item.account ≡ some p) × (h ≡ sub_ℕ hundred p))

headroom_of-some :
    (o : Option ℕ) (h : ℤ) → headroom_of o ≡ some h → (p : ℕ) × (o ≡ some p) × (h ≡ sub_ℕ hundred p)
unfolding headroom_of
headroom_of-some none h e = cc
headroom_of-some (some p) h e = (p, refl, sym (some-injective (sub_ℕ hundred p) h e))

no_headroom : (h : ℤ) → headroom_of none ≡ some h → ⊥
unfolding headroom_of
no_headroom h e = cc

alive-filter :
    (accounts : List AutoswitchAccount)
    → All
        (λ account. Memᴰ account accounts × (account.dead ≡ false))
        (filter (λ account. not account.dead) accounts)
alive-filter [] = tt
alive-filter (account ∷ rest) =
    let later : All (λ a. Memᴰ a (account ∷ rest) × (a.dead ≡ false))
        (filter (λ a. not a.dead) rest) =
      All-map (λ a. Memᴰ a rest × (a.dead ≡ false))
        (λ a. Memᴰ a (account ∷ rest) × (a.dead ≡ false)) (λ a m. (Memᴰ.tail m.0, m.1))
        (filter (λ a. not a.dead) rest) (alive-filter rest) in
    elim (Bool-cases account.dead) [
      | inl dead ↦ simp dead later
      | inr alive ↦ simp alive ((Memᴰ.head refl, refl), later)
    ]

census_row-Known :
    (accounts : List AutoswitchAccount) (settings : AutoswitchSettings) (now : ℕ) (active : Text)
    (limit unknown : Bool) (account : AutoswitchAccount) (index : ℕ)
    → Memᴰ account accounts × (account.dead ≡ false)
    → Known accounts (census_row settings now active limit unknown account index)
unfolding Known census_row
census_row-Known accounts settings now active limit unknown account index (m, alive) = (
  m,
  alive,
  (λ h e. elim (Bool-cases (unknown && text_eq account.account_id active)) [
    | inl hidden ↦ absurd (no_headroom h (rw hidden at e))
    | inr shown ↦ headroom_of-some (binding_pct account) h (rw shown at e)
  ]),
)

census_rows-Known :
    (accounts : List AutoswitchAccount) (settings : AutoswitchSettings) (now : ℕ) (active : Text)
    (limit unknown : Bool) (index : ℕ) (rest : List AutoswitchAccount)
    → All (λ account. Memᴰ account accounts × (account.dead ≡ false)) rest
    → All (Known accounts) (census_rows (census_row settings now active limit unknown) index rest)
unfolding census_rows
census_rows-Known accounts settings now active limit unknown index [] ms = tt
census_rows-Known accounts settings now active limit unknown index (account ∷ rest) (m, ms) = (
  census_row-Known accounts settings now active limit unknown account index m,
  census_rows-Known accounts settings now active limit unknown (suc index) rest ms,
)

pub census-Known :
    (accounts : List AutoswitchAccount) (settings : AutoswitchSettings) (now : ℕ) (active : Text)
    (limit unknown : Bool)
    → All (Known accounts) (census accounts settings now active limit unknown)
unfolding census
census-Known accounts settings now active limit unknown =
    census_rows-Known accounts settings now active limit unknown 0
      (filter (λ account. not account.dead) accounts) (alive-filter accounts)

-- A candidate of a switch has room, and is not the active account.
unfoldable pub Eligible : List AutoswitchAccount → Text → CensusAccount → Type 0
Eligible accounts active item =
    Known accounts item
    × (text_eq item.account.account_id active ≡ false)
    × ((h : ℤ) × (item.raw_headroom ≡ some h) × (is_pos h ≡ true))

-- What is placed anywhere has room.
place-has_room :
    (r : Ranking) (item : CensusAccount) (h : ℤ)
    → (is_pos h ≡ false → place r item h ≡ Placement.skipped)
unfolding place
place-has_room r item h e = rw e refl

-- Both lists.
BothAll :
    (CensusAccount → Type 0) → List (CensusAccount × Key) × List (CensusAccount × Key) → Type 0
BothAll P (main, fallback) = All (λ entry. P entry.0) main × All (λ entry. P entry.0) fallback

add_placed-All :
    (P : CensusAccount → Type 0) (item : CensusAccount) (placed : Placement)
    (lists : List (CensusAccount × Key) × List (CensusAccount × Key))
    → (placed ≢ Placement.skipped → P item)
    → BothAll P lists
    → BothAll P (add_placed item placed lists)
unfolding add_placed BothAll
add_placed-All P item Placement.skipped lists p ps = ps
add_placed-All P item (Placement.qualified key) lists p ps = ((p (λ e. cc), ps.0), ps.1)
add_placed-All P item (Placement.held_back key) lists p ps = (ps.0, (p (λ e. cc), ps.1))

place_measured-room :
    (r : Ranking) (item : CensusAccount) (o : Option ℤ)
    → place_measured r item o ≢ Placement.skipped
    → (h : ℤ) × (o ≡ some h) × (is_pos h ≡ true)
unfolding place_measured
place_measured-room r item none ne = absurd (ne refl)
place_measured-room r item (some h) ne = elim (Bool-cases (is_pos h)) [
  | inl room ↦ (h, refl, room)
  | inr spent ↦ absurd (ne (place-has_room r item h spent))
]

place_all-Eligible :
    (accounts : List AutoswitchAccount) (active : Text) (r : Ranking) (items : List CensusAccount)
    → All (λ item. Known accounts item × (text_eq item.account.account_id active ≡ false)) items
    → BothAll (Eligible accounts active) (place_all r items)
unfolding place_all Eligible BothAll
place_all-Eligible accounts active r [] ks = (tt, tt)
place_all-Eligible accounts active r (item ∷ rest) (k, ks) =
    add_placed-All (Eligible accounts active) item (place_measured r item item.raw_headroom)
      (place_all r rest) (λ ne. (k.0, k.1, place_measured-room r item item.raw_headroom ne))
      (place_all-Eligible accounts active r rest ks)

All-first :
    (P : CensusAccount → Type 0) (entries : List (CensusAccount × Key))
    → All (λ entry. P entry.0) entries
    → All P (map (λ entry. entry.0) (sort ranked_before entries))
All-first P entries ps =
    firsts (sort ranked_before entries) (All-sort ranked_before (λ entry. P entry.0) entries ps)
  where
    firsts :
        (es : List (CensusAccount × Key))
        → All (λ entry. P entry.0) es
        → All P (map (λ entry. entry.0) es)
    firsts [] qs = tt
    firsts (e ∷ es) (q, qs) = (q, firsts es qs)

order_placed-All :
    (P : CensusAccount → Type 0) (lists : List (CensusAccount × Key) × List (CensusAccount × Key))
    → BothAll P lists
    → All P (order_placed lists)
unfolding order_placed BothAll
order_placed-All P ([], fallback) ps = All-first P fallback ps.1
order_placed-All P (entry ∷ rest, fallback) ps = All-first P (entry ∷ rest) ps.0

others-Known :
    (accounts : List AutoswitchAccount) (active : CensusAccount) (all : List CensusAccount)
    → All (Known accounts) all
    → All
        (λ item.
          Known accounts item × (text_eq item.account.account_id active.account.account_id ≡ false))
        (candidates_of all active)
unfolding candidates_of
others-Known accounts active [] ks = tt
others-Known accounts active (item ∷ rest) (k, ks) =
    elim (Bool-cases (text_eq item.account.account_id active.account.account_id)) [
      | inl same ↦ rw same (others-Known accounts active rest ks)
      | inr other ↦ rw other ((k, other), others-Known accounts active rest ks)
    ]

pub rank_candidates-Eligible :
    (accounts : List AutoswitchAccount) (all : List CensusAccount) (active : CensusAccount)
    (trigger : Trigger) (barred : Option Text) (settings : AutoswitchSettings) (now : ℕ)
    → All (Known accounts) all
    → All
        (Eligible accounts active.account.account_id)
        (rank_candidates all active trigger barred settings now).0
unfolding rank_candidates measured_of
rank_candidates-Eligible accounts all active trigger barred settings now ks =
    let r = ranking_of all active trigger barred settings now in
    order_placed-All (Eligible accounts active.account.account_id)
      (place_all r (measured_of all active))
      (place_all-Eligible accounts active.account.account_id r (measured_of all active) (
        All-filter
          (λ item.
            Known accounts item
            × (text_eq item.account.account_id active.account.account_id ≡ false))
          (λ item. is_some item.raw_headroom) (candidates_of all active)
          (others-Known accounts active all ks)))
