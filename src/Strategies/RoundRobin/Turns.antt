-- ===== src/Strategies/RoundRobin/Turns.antt =====
-- Round robin gives every account its turn: the stored counter walks through all of them.
use native.Mathlib.Nat.{mod-lt, mod-eq_of_lt, mod-add-mod, add-mod_right}
use qlb.Base.{
  ℕ, zero, suc, ◌+◌, ◌-◌, ◌%◌, ◌<◌, ◌≡◌, sym, ap, subst, ◌∙◌, inl, inr, true, false, Option, none,
  some, List, ◌∷◌, Memᴰ, pos, Text, Bool-cases, arith, length, get_elem?, or_else, if◌then◌else◌,
  leb,
}
use qlb.Base.Decimal.{parse_int-print_int, print_int}
use qlb.Base.Sorting.{mem-get_elem?}
use qlb.Types.{AccountSnapshot}
use qlb.Scoring.{round_robin}
use qlb.Overrides.{round_robin_config_key}
use qlb.Store.{Store}
use qlb.Store.Config.{get_config, index_after, next_round_robin_index, get-set_config}
use qlb.Strategies.Pick.{reported}
use qlb.Strategies.RoundRobin.{at_or_first, round_robin_among, pick_round_robin}
use qlb.Strategies.RoundRobin.Laws.{rotating}

-- The store after so many persisted picks over the same candidates.
pub after_picks : ℕ → List AccountSnapshot → Text → Option Store → Option Store
after_picks zero ss m store = store
after_picks (suc k) ss m store = (pick_round_robin ss m (after_picks k ss m store) true).0

-- The index that the next persisted pick will use.
abbrev pub NextIndex : Text → ℕ → ℕ → Option Store → Type 0
NextIndex key count j none = ⊥
NextIndex key count j (some s) = index_after (get_config s key) count ≡ pos j

index_after-print_int :
    (n j : ℕ) → index_after (some (print_int (pos j))) (suc n) ≡ pos ((j + 1) % suc n)
unfolding index_after
index_after-print_int n j = rw (parse_int-print_int (pos j))

-- One persisted pick takes the next index and moves the counter on.
among-turn :
    (f : AccountSnapshot) (es : List AccountSnapshot) (m : Text) (j : ℕ) (s : Option Store)
    → j < length (f ∷ es)
    → NextIndex (round_robin_config_key f.provider) (length (f ∷ es)) j s
    → ((round_robin_among (f ∷ es) m s true).1
        ≡ some (reported round_robin (or_else (get_elem? (f ∷ es) j) f) m))
      × NextIndex
          (round_robin_config_key f.provider)
          (length (f ∷ es))
          ((j + 1) % length (f ∷ es))
          (round_robin_among (f ∷ es) m s true).0
unfolding round_robin_among next_round_robin_index
among-turn f es m j none h i = elim i [ ]
among-turn f es m j (some s) h i = (
  rw (i, at_or_first),
  rw (i, get-set_config s (round_robin_config_key f.provider) (print_int (pos j)))
      (index_after-print_int (length es) j),
)

-- The index of every pick: after `k` picks from index `j` on, it is `(j + k) % count`.
after_picks-NextIndex :
    (ss : List AccountSnapshot) (m : Text) (f : AccountSnapshot) (es : List AccountSnapshot) (j : ℕ)
    (s : Option Store)
    → rotating ss m ≡ f ∷ es
    → j < length (f ∷ es)
    → NextIndex (round_robin_config_key f.provider) (length (f ∷ es)) j s
    → (k : ℕ)
    → NextIndex
        (round_robin_config_key f.provider)
        (length (f ∷ es))
        ((j + k) % length (f ∷ es))
        (after_picks k ss m s)
unfolding after_picks pick_round_robin
after_picks-NextIndex ss m f es j s e h i zero =
    let same : j ≡ (j + 0) % length (f ∷ es) = (grind (arith, h)) in
    subst (λ v. NextIndex (round_robin_config_key f.provider) (length (f ∷ es)) v s) same i
after_picks-NextIndex ss m f es j s e h i (suc k) =
    let n = length (f ∷ es) in
    let ih = after_picks-NextIndex ss m f es j s e h i k in
    let turn =
      among-turn f es m ((j + k) % n) (after_picks k ss m s) (mod-lt (j + k) (omega arith)) ih in
    let same : ((j + k) % n + 1) % n ≡ (j + suc k) % n =
      mod-add-mod (j + k) n 1 ∙ ap (λ v. v % n) (omega arith) in
    subst
      (λ l.
        NextIndex (round_robin_config_key f.provider) n ((j + suc k) % n)
          (round_robin_among l m (after_picks k ss m s) true).0)
      (sym e)
      (subst
        (λ v.
          NextIndex (round_robin_config_key f.provider) n v
            (round_robin_among (f ∷ es) m (after_picks k ss m s) true).0)
        same turn.1)

-- Where the counter stands at a valid index, the `k`-th persisted pick over the same candidates
-- takes the `k`-th account after it, round the ring.
pub round_robin_turn :
    (ss : List AccountSnapshot) (m : Text) (f : AccountSnapshot) (es : List AccountSnapshot)
    (j k : ℕ) (s : Option Store)
    → rotating ss m ≡ f ∷ es
    → j < length (f ∷ es)
    → NextIndex (round_robin_config_key f.provider) (length (f ∷ es)) j s
    → (pick_round_robin ss m (after_picks k ss m s) true).1
      ≡ some (reported round_robin (or_else (get_elem? (f ∷ es) ((j + k) % length (f ∷ es))) f) m)
unfolding pick_round_robin
round_robin_turn ss m f es j k s e h i =
    rw e
      (among-turn f es m ((j + k) % length (f ∷ es)) (after_picks k ss m s)
        (mod-lt (j + k) (omega arith)) (after_picks-NextIndex ss m f es j s e h i k)).0

-- The number of picks before index `t` comes, from index `j` on, in a ring of `n`.
turns_until : ℕ → ℕ → ℕ → ℕ
turns_until n j t = if leb j t then t - j else t + n - j

turns_until_lem :
    (n j t : ℕ) → j < n → t < n → (turns_until n j t < n) × ((j + turns_until n j t) % n ≡ t)
unfolding turns_until
turns_until_lem n j t h k = elim (Bool-cases (leb j t)) [
  | inl le ↦ rw le (ground (arith, le), ahead le)
  | inr gt ↦ rw gt (ground (arith, gt), around gt)
]
  where
    ahead : leb j t ≡ true → (j + (t - j)) % n ≡ t
    ahead le = let sum : j + (t - j) ≡ t = ground (arith, le) in rw sum (mod-eq_of_lt k)

    around : leb j t ≡ false → (j + (t + n - j)) % n ≡ t
    around gt =
        let sum : j + (t + n - j) ≡ t + n = ground (arith, gt) in
        rw sum (add-mod_right t n ∙ mod-eq_of_lt k)

-- With a store whose counter is at an index of the accounts that rotate, and picks that are persisted
-- and are over the same candidates, every such account is picked, after fewer picks than there are
-- such accounts.
pub round_robin_fair :
    (ss : List AccountSnapshot) (m : Text) (f : AccountSnapshot) (es : List AccountSnapshot) (j : ℕ)
    (s : Option Store) (a : AccountSnapshot)
    → rotating ss m ≡ f ∷ es
    → j < length (f ∷ es)
    → NextIndex (round_robin_config_key f.provider) (length (f ∷ es)) j s
    → Memᴰ a (f ∷ es)
    → (k : ℕ) × (k < length (f ∷ es))
      × ((pick_round_robin ss m (after_picks k ss m s) true).1 ≡ some (reported round_robin a m))
round_robin_fair ss m f es j s a e h i mem =
    let (t, lt, at) = mem-get_elem? (f ∷ es) mem in
    let n = length (f ∷ es) in
    let (few, hit) = turns_until_lem n j t h lt in
    (
      turns_until n j t,
      few,
      round_robin_turn ss m f es j (turns_until n j t) s e h i
          ∙ ap (λ v. some (reported round_robin (or_else (get_elem? (f ∷ es) v) f) m)) hit
          ∙ ap (λ o. some (reported round_robin (or_else o f) m)) at,
    )
