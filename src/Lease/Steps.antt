-- ===== src/Lease/Steps.antt =====
-- src/refresh-lease.ts: the steps that processes take on an account, in any order and with any
-- generation in hand. A read of the Keychain item and the repair that follows from it are two steps.
use mathlib.Core.Option.{some-injective}
use qlb.Base.{
  ℕ, ◌+◌, ◌≤◌, ◌<◌, ◌≡◌, refl, sym, ap, ◌∙◌, inl, inr, false, some, List, [], ◌∷◌, Memᴰ, All,
  All-map, All-mem, Text, arith, ◌==◌, ==_iff, Bool-cases,
}
use qlb.Store.{Store}
use qlb.Store.Leases.{
  get_grant_generation, repair_grant_generation, acquire_refresh_lease, heartbeat_refresh_lease,
  release_refresh_lease, handle_auth_revoked,
}
use qlb.Store.Leases.Laws.{cas-hit, cas-miss}
use qlb.Lease.{Grant, World, read_grant, fenced_write, crash_write}

-- The world, and the generations that processes have read off the account's item so far.
pub record State : Type 0 where
  pub world : World
  pub seen : List ℕ

abbrev pub start_of : World → State
start_of w = record { world = w; seen = [] }

-- The state after a transaction of the store.
abbrev pub with_store : State → Store → State
with_store s store = record s { world = record s.world { store = store } }

-- A step of `refreshIfNeeded` by some process: a read of the item, a repair to a generation that was
-- read off it, a transaction on the lease, the fenced write, or a crash in it. A `bootstrapIfMissing`
-- that finds the item takes no step. One whose read fails, and what other modules write to the
-- Keychain (src/native-resync.ts, migrations), are left out.
pub data Step (id : Text) : State → State → Type 0 where
  reads :
      {s : State}
      → (g : Grant) → read_grant s.world id ≡ some g
      → Step id s (record s { seen = g.generation ∷ s.seen })
  repairs :
      {s : State}
      → (from to : ℕ) → Memᴰ to s.seen
      → from < to
      → Step id s (with_store s (repair_grant_generation s.world.store id from to))
  acquires :
      {s : State}
      → (now : ℕ) → (holder : Text) → (pid gen ttl : ℕ)
      → Step id s (with_store s (acquire_refresh_lease s.world.store now id holder pid gen ttl).0)
  heartbeats :
      {s : State}
      → (now : ℕ) → (holder : Text) → (gen ttl : ℕ)
      → Step id s (with_store s (heartbeat_refresh_lease s.world.store now id holder gen ttl).0)
  releases :
      {s : State}
      → (holder : Text) → Step id s (with_store s (release_refresh_lease s.world.store id holder))
  revokes :
      {s : State}
      → (holder : Text) → (gen : ℕ)
      → Step id s (with_store s (handle_auth_revoked s.world.store id holder gen).0)
  writes :
      {s : State}
      → (me : Text) → (gen : ℕ) → (g : Grant) → g.generation ≡ gen + 1
      → Step id s (record s { world = (fenced_write s.world id me gen g).0 })
  crashes :
      {s : State}
      → (me : Text) → (gen : ℕ) → (g : Grant) → g.generation ≡ gen + 1
      → Step id s (record s { world = crash_write s.world id me gen g })

pub data Steps (id : Text) : State → State → Type 0 where
  stop : {s : State} → Steps id s s
  go : {s t u : State} → Step id s t → Steps id t u → Steps id s u

-- The account is known and has an item, at the journal's generation, or one ahead of it after a crash.
pub record Synced (w : World) (id : Text) : Type 0 where
  pub gen : ℕ
  pub item : Grant
  pub journal : get_grant_generation w.store id ≡ some gen
  pub stands : read_grant w id ≡ some item
  pub not_older : gen ≤ item.generation
  pub one_ahead : item.generation ≤ gen + 1

-- And no generation that was read is later than the item's.
pub record Safe (s : State) (id : Text) : Type 0 where
  pub synced : Synced s.world id
  pub bounded : All (λ n. n ≤ synced.item.generation) s.seen

pub kept-Safe :
    (s t : State) (id : Text)
    → get_grant_generation t.world.store id ≡ get_grant_generation s.world.store id
    → read_grant t.world id ≡ read_grant s.world id
    → t.seen ≡ s.seen
    → Safe s id
    → Safe t id
kept-Safe s t id gens items seen safe = record {
  synced = record {
    gen = safe.synced.gen;
    item = safe.synced.item;
    journal = gens ∙ safe.synced.journal;
    stands = items ∙ safe.synced.stands;
    not_older = safe.synced.not_older;
    one_ahead = safe.synced.one_ahead;
  };
  bounded = rw seen safe.bounded;
}

pub repair-Safe :
    (s : State) (id : Text) (from to : ℕ)
    → Memᴰ to s.seen
    → from < to
    → Safe s id
    → Safe (with_store s (repair_grant_generation s.world.store id from to)) id
unfolding repair_grant_generation read_grant
repair-Safe s id from to mem less safe = elim (Bool-cases (safe.synced.gen == from)) [
  | inr moved ↦
      let miss =
        cas-miss s.world.store id from to
          (λ e. differ (some-injective _ _ (sym e ∙ safe.synced.journal)) moved) in
      kept-Safe s _ id (ap (λ r. get_grant_generation r.0 id) miss) refl refl safe
  | inl same ↦
      let is = (==_iff safe.synced.gen from).0 same in
      let top = All-mem (λ n. n ≤ safe.synced.item.generation) s.seen safe.bounded mem in
      let ahead = safe.synced.one_ahead in
      record {
        synced = record {
          gen = to;
          item = safe.synced.item;
          journal = (cas-hit s.world.store id from to (safe.synced.journal ∙ ap some is)).1;
          stands = safe.synced.stands;
          not_older = top;
          one_ahead = omega arith;
        };
        bounded = safe.bounded;
      }
]
  where
    differ : {a b : ℕ} → b ≡ a → (a == b) ≡ false → ⊥
    differ e f = ground (arith, e, f)

-- What a write leaves, whether its transaction commits or not.
pub written-Safe :
    (s t : State) (id : Text) (gen n : ℕ) (old g : Grant)
    → read_grant s.world id ≡ some old
    → old.generation ≡ gen
    → g.generation ≡ gen + 1
    → get_grant_generation t.world.store id ≡ some n
    → read_grant t.world id ≡ some g
    → n ≤ gen + 1
    → gen ≤ n
    → t.seen ≡ s.seen
    → Safe s id
    → Safe t id
written-Safe s t id gen n old g before is next journal after le ge seen safe =
    let same = ap Grant.generation (some-injective _ _ (sym before ∙ safe.synced.stands)) in
    record {
      synced = record {
        gen = n;
        item = g;
        journal = journal;
        stands = after;
        not_older = omega arith;
        one_ahead = omega arith;
      };
      bounded = rw seen (
          All-map (λ k. k ≤ safe.synced.item.generation) (λ k. k ≤ g.generation)
            (λ k h. omega arith) s.seen safe.bounded);
    }
