-- ===== src/Store/Config.antt =====
-- src/store.ts: the `config` table, and the rotation counter kept in it.
use qlb.Base.{
  ℕ, zero, suc, ◌+◌, ◌%◌, ◌≡◌, refl, Option, none, some, List, [], ◌∷◌, Text, text_eq,
  if◌then◌else◌, ℤ, pos, negsuc, sub_ℕ, or_else, arith, text_eq_iff, text_eq_refl,
}
use qlb.Base.Decimal.{parse_int, print_int, parse_int-print_int}
use qlb.Store.{Store}

unfoldable pub lookup {ℓ} : {V : Type ℓ} → Text → List (Text × V) → Option V
lookup key [] = none
lookup key ((k, v) ∷ rest) = if text_eq k key then some v else lookup key rest

-- `INSERT … ON CONFLICT(key) DO UPDATE`.
unfoldable pub upsert {ℓ} : {V : Type ℓ} → Text → V → List (Text × V) → List (Text × V)
upsert key v [] = (key, v) ∷ []
upsert key v ((k, w) ∷ rest) = if text_eq k key then (k, v) ∷ rest else (k, w) ∷ upsert key v rest

unfoldable pub get_config : Store → Text → Option Text
unfolding lookup
get_config store key = lookup key store.config

unfoldable pub set_config : Store → Text → Text → Store
unfolding upsert
set_config store key value = record store { config = upsert key value store.config }

-- `i % count`, with the sign of `i`.
unfoldable pub rem : ℤ → ℕ → ℤ
rem (pos n) count = pos (n % count)
rem (negsuc n) count = sub_ℕ 0 (suc n % count)

-- `i + 1`.
unfoldable pub next : ℤ → ℤ
next (pos n) = pos (n + 1)
next (negsuc n) = sub_ℕ 0 n

-- The index after the stored one; a missing or malformed value counts as -1.
unfoldable pub index_after : Option Text → ℕ → ℤ
unfolding rem next
index_after none count = rem (next (negsuc 0)) count
index_after (some raw) count = rem (next (or_else (parse_int raw) (negsuc 0))) count

-- `nextRoundRobinIndex`: one transaction.
unfoldable pub next_round_robin_index : Store → Text → ℕ → Store × ℤ
next_round_robin_index store key zero = (store, pos 0)
next_round_robin_index store key (suc n) =
    let i = index_after (get_config store key) (suc n) in (set_config store key (print_int i), i)

pub lookup-upsert {ℓ} :
    {V : Type ℓ} (k j : Text) (v : V) (m : List (Text × V))
    → lookup j (upsert k v m) ≡ (if text_eq k j then some v else lookup j m)
unfolding lookup upsert
lookup-upsert k j v [] = refl
lookup-upsert k j v ((i, w) ∷ m) =
    ground (arith, text_eq_iff k j, text_eq_iff i k, text_eq_iff i j, lookup-upsert k j v m)

-- What is written under a key is read back.
pub get-set_config : (s : Store) (k v : Text) → get_config (set_config s k v) k ≡ some v
unfolding get_config set_config
get-set_config s k v = rw (lookup-upsert k k v s.config, text_eq_refl k)

-- After an index `i` the store hands out `i + 1`, and starts again at `count`.
pub round_robin_step :
    (s : Store) (k : Text) (n i : ℕ)
    → get_config s k ≡ some (print_int (pos i))
    → (next_round_robin_index s k (suc n)).1 ≡ pos ((i + 1) % suc n)
unfolding next_round_robin_index index_after
round_robin_step s k n i h = rw (h, parse_int-print_int (pos i))
