-- ===== src/Store/Leases.antt =====
-- src/store.ts: the generations of the accounts' grants, and the leases on refreshing them. `id` is
-- the primary key of `accounts`, so an update of it changes at most one row.
pub mod Laws
use qlb.Base.{
  ℕ, ◌+◌, ◌==◌, Bool, true, false, not, ◌&&◌, Option, none, some, List, [], ◌∷◌, ◌++◌, Text, codes,
  text_eq, if◌then◌else◌, ltb, filter, find,
}
use qlb.Store.{Store, AccountRow, LeaseRow, get_account}

unfoldable pub refresh_lease_name : Text → Text
refresh_lease_name id = codes "refresh:" ++ id

-- `SELECT grant_generation FROM accounts WHERE id = ?`.
unfoldable pub generation_of : List AccountRow → Text → Option ℕ
generation_of [] id = none
generation_of (row ∷ rest) id =
    if text_eq row.id id then some row.grant_generation else generation_of rest id

unfoldable pub get_grant_generation : Store → Text → Option ℕ
get_grant_generation store id = generation_of store.accounts id

-- `SET grant_generation = ? WHERE id = ? AND grant_generation = ?`, and the number of changes.
unfoldable pub cas_rows : List AccountRow → Text → ℕ → ℕ → List AccountRow × ℕ
cas_rows [] id from to = ([], 0)
cas_rows (row ∷ rest) id from to =
    let (rest', n) = cas_rows rest id from to in
    if text_eq row.id id
    then (if row.grant_generation == from
        then (record row { grant_generation = to } ∷ rest, 1)
        else (row ∷ rest, 0))
    else (row ∷ rest', n)

unfoldable pub cas_grant_generation : Store → Text → ℕ → ℕ → Store × ℕ
unfolding cas_rows
cas_grant_generation store id from to =
    let (rows, n) = cas_rows store.accounts id from to in (record store { accounts = rows }, n)

unfoldable pub bump_grant_generation : Store → Text → ℕ → Store × ℕ
bump_grant_generation store id expected = cas_grant_generation store id expected (expected + 1)

unfoldable pub repair_grant_generation : Store → Text → ℕ → ℕ → Store
repair_grant_generation store id from to = (cas_grant_generation store id from to).0

status_rows : List AccountRow → Text → Text → List AccountRow
status_rows [] id status = []
status_rows (row ∷ rest) id status =
    (if text_eq row.id id then record row { status = status } else row) ∷ status_rows rest id status

unfoldable pub set_account_status : Store → Text → Text → Store
unfolding status_rows
set_account_status store id status = record store {
  accounts = status_rows store.accounts id status;
}

unfoldable pub get_lease : Store → Text → Option LeaseRow
get_lease store name = find (λ row. text_eq row.name name) store.leases

-- `INSERT … ON CONFLICT(name) DO UPDATE`, of every column.
upsert_row : LeaseRow → List LeaseRow → List LeaseRow
upsert_row new [] = new ∷ []
upsert_row new (row ∷ rest) =
    if text_eq row.name new.name then new ∷ rest else row ∷ upsert_row new rest

unfoldable pub upsert_lease : Store → LeaseRow → Store
unfolding upsert_row
upsert_lease store new = record store { leases = upsert_row new store.leases }

-- `UPDATE leases SET until = ? WHERE name = ? AND holder_id = ?`.
renew_rows : List LeaseRow → Text → Text → ℕ → List LeaseRow
renew_rows [] name holder until = []
renew_rows (row ∷ rest) name holder until =
    (if text_eq row.name name && text_eq row.holder_id holder
      then record row { until = until }
      else row)
    ∷ renew_rows rest name holder until

-- `DELETE FROM leases WHERE name = ? AND holder_id = ?`.
unfoldable pub delete_lease_if_holder : Store → Text → Text → Store
delete_lease_if_holder store name holder = record store {
  leases = filter (λ row. not (text_eq row.name name && text_eq row.holder_id holder)) store.leases;
}

pub data Acquired : Type 0 where
  acquired busy stale_gen unknown_account : Acquired

-- Another holder's lease that has not run out.
is_held : Option LeaseRow → Text → ℕ → Bool
is_held none holder now = false
is_held (some row) holder now = ltb now row.until && not (text_eq row.holder_id holder)

acquire_at : Store → LeaseRow → ℕ → Option ℕ → Store × Acquired
unfolding is_held
acquire_at store new now none = (store, unknown_account)
acquire_at store new now (some gen) =
    if gen == new.generation
    then (if is_held (get_lease store new.name) new.holder_id now
        then (store, busy)
        else (upsert_lease store new, acquired))
    else (store, stale_gen)

-- `acquireRefreshLease`; an unknown account is an exception of the source.
unfoldable pub acquire_refresh_lease : Store → ℕ → Text → Text → ℕ → ℕ → ℕ → Store × Acquired
unfolding acquire_at get_grant_generation
acquire_refresh_lease store now id holder pid expected ttl =
    acquire_at store
      (record {
        name = refresh_lease_name id;
        holder_pid = pid;
        holder_id = holder;
        until = now + ttl;
        generation = expected;
      })
      now (get_grant_generation store id)

gen_is : Option ℕ → ℕ → Bool
gen_is none expected = false
gen_is (some gen) expected = gen == expected

is_holder : Option LeaseRow → Text → Bool
is_holder none holder = false
is_holder (some row) holder = text_eq row.holder_id holder

unfoldable pub heartbeat_refresh_lease : Store → ℕ → Text → Text → ℕ → ℕ → Store × Bool
unfolding renew_rows is_holder gen_is
heartbeat_refresh_lease store now id holder expected ttl =
    let name = refresh_lease_name id in
    if is_holder (get_lease store name) holder && gen_is (get_grant_generation store id) expected
    then (record store { leases = renew_rows store.leases name holder (now + ttl) }, true)
    else (store, false)

unfoldable pub release_refresh_lease : Store → Text → Text → Store
release_refresh_lease store id holder = delete_lease_if_holder store (refresh_lease_name id) holder

-- `handleAuthRevoked`: true is a lost race, false a revoked account.
unfoldable pub handle_auth_revoked : Store → Text → Text → ℕ → Store × Bool
unfolding gen_is
handle_auth_revoked store id holder expected =
    let released = delete_lease_if_holder store (refresh_lease_name id) holder in
    if gen_is (get_grant_generation store id) expected
    then (set_account_status released id (codes "auth_revoked"), false)
    else (released, true)
