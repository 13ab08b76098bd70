-- ===== src/Store/Leases/Laws.antt =====
-- What the statements on generations and leases do, and what they leave alone.
use mathlib.Core.Option.{some-injective}
use qlb.Base.{
  ℕ, ◌+◌, ◌==◌, ◌<◌, ◌≡◌, ◌≢◌, refl, sym, ap, ◌∙◌, inl, inr, ==_iff, true, false, Option, none,
  some, List, [], ◌∷◌, Text, codes, text_eq, text_eq_iff, text_eq_refl, find, Bool-cases, arith,
}
use qlb.Store.{Store, AccountRow, LeaseRow}
use qlb.Store.Leases.{
  generation_of, get_grant_generation, cas_rows, cas_grant_generation, status_rows,
  set_account_status, get_lease, upsert_row, upsert_lease, acquired, busy, is_held, acquire_at,
  acquire_refresh_lease, refresh_lease_name, heartbeat_refresh_lease, delete_lease_if_holder,
  handle_auth_revoked, gen_is,
}

cas_rows-hit :
    (rows : List AccountRow) (id : Text) (from to : ℕ)
    → generation_of rows id ≡ some from
    → ((cas_rows rows id from to).1 ≡ 1) × (generation_of (cas_rows rows id from to).0 id ≡ some to)
unfolding cas_rows generation_of
cas_rows-hit [] id from to e = cc
cas_rows-hit (row ∷ rest) id from to e = elim (Bool-cases (text_eq row.id id)) [
  | inl same ↦
      let known = some-injective row.grant_generation from (rw same at e) in
      rw same (rw ((==_iff row.grant_generation from).1 known) (refl, rw same))
  | inr other ↦ rw other (rw other (cas_rows-hit rest id from to (rw other at e)))
]

cas_rows-miss :
    (rows : List AccountRow) (id : Text) (from to : ℕ)
    → generation_of rows id ≢ some from
    → cas_rows rows id from to ≡ (rows, 0)
unfolding cas_rows generation_of
cas_rows-miss [] id from to ne = refl
cas_rows-miss (row ∷ rest) id from to ne = elim (Bool-cases (text_eq row.id id)) [
  | inl same ↦ elim (Bool-cases (row.grant_generation == from)) [
    | inl hit ↦ absurd (ne (rw same (ap some ((==_iff row.grant_generation from).0 hit))))
    | inr miss ↦ rw (same, miss)
  ]
  | inr other ↦ rw other (rw (cas_rows-miss rest id from to (λ e. ne (rw other e))))
]

cas_rows-other :
    (rows : List AccountRow) (id id' : Text) (from to : ℕ)
    → id ≢ id'
    → generation_of (cas_rows rows id from to).0 id' ≡ generation_of rows id'
unfolding cas_rows generation_of
cas_rows-other [] id id' from to ne = refl
cas_rows-other (row ∷ rest) id id' from to ne = elim (Bool-cases (text_eq row.id id)) [
  | inl same ↦
      let no_match = not_same row same in
      elim (Bool-cases (row.grant_generation == from)) [
        | inl hit ↦ rw (same, hit) (rw no_match)
        | inr miss ↦ rw (same, miss)
      ]
  | inr other ↦ elim (Bool-cases (text_eq row.id id')) [
    | inl mine ↦ rw other (rw mine)
    | inr nope ↦ rw other (rw nope (cas_rows-other rest id id' from to ne))
  ]
]
  where
    not_same : (row : AccountRow) → text_eq row.id id ≡ true → text_eq row.id id' ≡ false
    not_same row same = elim (Bool-cases (text_eq row.id id')) [
      | inl mine ↦
          absurd (ne (sym ((text_eq_iff row.id id).0 same) ∙ (text_eq_iff row.id id').0 mine))
      | inr nope ↦ nope
    ]

pub cas-hit :
    (store : Store) (id : Text) (from to : ℕ)
    → get_grant_generation store id ≡ some from
    → ((cas_grant_generation store id from to).1 ≡ 1)
      × (get_grant_generation (cas_grant_generation store id from to).0 id ≡ some to)
unfolding cas_grant_generation get_grant_generation
cas-hit store id from to e = cas_rows-hit store.accounts id from to e

pub cas-miss :
    (store : Store) (id : Text) (from to : ℕ)
    → get_grant_generation store id ≢ some from
    → cas_grant_generation store id from to ≡ (store, 0)
unfolding cas_grant_generation get_grant_generation
cas-miss store id from to ne = rw (cas_rows-miss store.accounts id from to ne)

pub cas-other :
    (store : Store) (id id' : Text) (from to : ℕ)
    → id ≢ id'
    → get_grant_generation (cas_grant_generation store id from to).0 id'
      ≡ get_grant_generation store id'
unfolding cas_grant_generation get_grant_generation
cas-other store id id' from to ne = cas_rows-other store.accounts id id' from to ne

status_rows-generation :
    (rows : List AccountRow) (id id' status : Text)
    → generation_of (status_rows rows id status) id' ≡ generation_of rows id'
unfolding status_rows generation_of
status_rows-generation [] id id' status = refl
status_rows-generation (row ∷ rest) id id' status = elim (Bool-cases (text_eq row.id id)) [
  | inl same ↦ rw same (rw (status_rows-generation rest id id' status))
  | inr other ↦ rw other (rw (status_rows-generation rest id id' status))
]

-- None of the statements on leases moves a generation.
pub acquire-generation :
    (store : Store) (now : ℕ) (id holder : Text) (pid expected ttl : ℕ) (id' : Text)
    → get_grant_generation (acquire_refresh_lease store now id holder pid expected ttl).0 id'
      ≡ get_grant_generation store id'
unfolding acquire_refresh_lease acquire_at upsert_lease get_grant_generation
acquire-generation store now id holder pid expected ttl id' = go (generation_of store.accounts id) _
  where
    go :
        (o : Option ℕ) (new : LeaseRow)
        → generation_of (acquire_at store new now o).0.accounts id'
          ≡ generation_of store.accounts id'
    go none new = refl
    go (some gen) new = elim (Bool-cases (gen == new.generation)) [
      | inr stale ↦ rw stale
      | inl same ↦ elim (Bool-cases (is_held (get_lease store new.name) new.holder_id now)) [
        | inl held ↦ rw (same, held)
        | inr free ↦ rw (same, free)
      ]
    ]

pub heartbeat-generation :
    (store : Store) (now : ℕ) (id holder : Text) (expected ttl : ℕ) (id' : Text)
    → get_grant_generation (heartbeat_refresh_lease store now id holder expected ttl).0 id'
      ≡ get_grant_generation store id'
unfolding heartbeat_refresh_lease get_grant_generation
heartbeat-generation store now id holder expected ttl id' = ground arith

pub revoked-generation :
    (store : Store) (id holder : Text) (expected : ℕ) (id' : Text)
    → get_grant_generation (handle_auth_revoked store id holder expected).0 id'
      ≡ get_grant_generation store id'
unfolding handle_auth_revoked get_grant_generation delete_lease_if_holder set_account_status
revoked-generation store id holder expected id' =
    elim (Bool-cases (gen_is (generation_of store.accounts id) expected)) [
      | inl same ↦ rw same (status_rows-generation store.accounts id id' (codes "auth_revoked"))
      | inr moved ↦ rw moved
    ]

abbrev lease_of : ℕ → Text → Text → ℕ → ℕ → ℕ → LeaseRow
lease_of now id holder pid gen ttl = record {
  name = refresh_lease_name id;
  holder_pid = pid;
  holder_id = holder;
  until = now + ttl;
  generation = gen;
}

find-upsert_row :
    (new : LeaseRow) (rows : List LeaseRow)
    → find (λ row. text_eq row.name new.name) (upsert_row new rows) ≡ some new
unfolding upsert_row
find-upsert_row new [] = rw (text_eq_refl new.name)
find-upsert_row new (row ∷ rest) = elim (Bool-cases (text_eq row.name new.name)) [
  | inl same ↦ rw same (rw (text_eq_refl new.name))
  | inr other ↦ rw other (rw other (find-upsert_row new rest))
]

acquire_at-acquired :
    (store : Store) (new : LeaseRow) (now : ℕ) (o : Option ℕ)
    → (acquire_at store new now o).1 ≡ acquired
    → (o ≡ some new.generation) × ((acquire_at store new now o).0 ≡ upsert_lease store new)
unfolding acquire_at
acquire_at-acquired store new now none e = cc
acquire_at-acquired store new now (some gen) e = elim (Bool-cases (gen == new.generation)) [
  | inr stale ↦ cc (rw stale at e)
  | inl same ↦ elim (Bool-cases (is_held (get_lease store new.name) new.holder_id now)) [
    | inl held ↦ cc (rw (same, held) at e)
    | inr free ↦ (ap some ((==_iff gen new.generation).0 same), rw (same, free))
  ]
]

held-busy :
    (store : Store) (new : LeaseRow) (now : ℕ)
    → is_held (get_lease store new.name) new.holder_id now ≡ true
    → acquire_at store new now (some new.generation) ≡ (store, busy)
unfolding acquire_at
held-busy store new now held = rw ((==_iff new.generation new.generation).1 refl, held)

upsert-is_held :
    (store : Store) (new : LeaseRow) (other : Text) (later : ℕ)
    → new.holder_id ≢ other
    → later < new.until
    → is_held (get_lease (upsert_lease store new) new.name) other later ≡ true
unfolding upsert_lease is_held get_lease
upsert-is_held store new other later ne lt =
    rw (find-upsert_row new store.leases) (elim (Bool-cases (text_eq new.holder_id other)) [
      | inl same ↦ absurd (ne ((text_eq_iff new.holder_id other).0 same))
      | inr differs ↦ ground arith
    ])

-- A lease that was acquired keeps every other holder out until it runs out, if the generation stands.
pub acquire-excludes :
    (store : Store) (now : ℕ) (id holder : Text) (pid gen ttl : ℕ) (later : ℕ) (other : Text)
    (pid' ttl' : ℕ)
    → (acquire_refresh_lease store now id holder pid gen ttl).1 ≡ acquired
    → holder ≢ other
    → later < now + ttl
    → let store' = (acquire_refresh_lease store now id holder pid gen ttl).0 in
      acquire_refresh_lease store' later id other pid' gen ttl' ≡ (store', busy)
unfolding acquire_refresh_lease get_grant_generation
acquire-excludes store now id holder pid gen ttl later other pid' ttl' e differ early =
    let new = lease_of now id holder pid gen ttl in
    let (known, is) = acquire_at-acquired store new now (generation_of store.accounts id) e in
    rw is (
      rw (kept new known) (
        held-busy (upsert_lease store new) (lease_of later id other pid' gen ttl') later
          (upsert-is_held store new other later differ early)))
  where
    kept :
        (new : LeaseRow)
        → generation_of store.accounts id ≡ some gen
        → generation_of (upsert_lease store new).accounts id ≡ some gen
    kept new known = unfold upsert_lease in known
