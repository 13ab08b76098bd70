-- ===== src/Lease/Runs.antt =====
-- src/refresh-lease.ts: what holds along every run of the steps on an account.
use mathlib.Core.Option.{some-injective}
use qlb.Base.{ℕ, ◌+◌, ◌≤◌, ◌≡◌, refl, sym, ap, ◌∙◌, ◌⊎◌, inl, inr, some, Text, arith}
use qlb.Store.Leases.{get_grant_generation, release_refresh_lease, delete_lease_if_holder}
use qlb.Store.Leases.Laws.{acquire-generation, heartbeat-generation, revoked-generation}
use qlb.Lease.{Grant, World, read_grant, crash_write}
use qlb.Lease.Laws.{fenced_write-split}
use qlb.Lease.Steps.{
  State, start_of, Step, Steps, Synced, Safe, kept-Safe, repair-Safe, written-Safe,
}

Step-Safe : (id : Text) {s t : State} → Step id s t → Safe s id → Safe t id
unfolding crash_write release_refresh_lease delete_lease_if_holder get_grant_generation read_grant
Step-Safe id {s} (Step.reads g e) safe = record {
  synced = safe.synced;
  bounded = (
    read_bound (ap Grant.generation (some-injective _ _ (sym e ∙ safe.synced.stands))),
    safe.bounded,
  );
}
  where
    read_bound : {a b : ℕ} → a ≡ b → a ≤ b
    read_bound e = omega arith
Step-Safe id {s} (Step.repairs from to mem less) safe = repair-Safe s id from to mem less safe
Step-Safe id {s} (Step.acquires now holder pid gen ttl) safe =
    kept-Safe s _ id (acquire-generation s.world.store now id holder pid gen ttl id) refl refl safe
Step-Safe id {s} (Step.heartbeats now holder gen ttl) safe =
    kept-Safe s _ id (heartbeat-generation s.world.store now id holder gen ttl id) refl refl safe
Step-Safe id {s} (Step.releases holder) safe = kept-Safe s _ id refl refl refl safe
Step-Safe id {s} (Step.revokes holder gen) safe =
    kept-Safe s _ id (revoked-generation s.world.store id holder gen id) refl refl safe
Step-Safe id {s} (Step.writes me gen g next) safe = elim (fenced_write-split s.world id me gen g) [
  | inr (same, not_done) ↦
      kept-Safe s _ id (ap (λ w. get_grant_generation w.store id) same)
        (ap (λ w. read_grant w id) same) refl safe
  | inl (old, before, is, done, after) ↦
      written-Safe s _ id gen (gen + 1) old g before.item is next after.journal after.item
        (omega arith) (omega arith) refl safe
]
Step-Safe id {s} (Step.crashes me gen g next) safe = elim (fenced_write-split s.world id me gen g) [
  | inr (same, not_done) ↦ kept-Safe s _ id refl (ap (λ w. read_grant w id) same) refl safe
  | inl (old, before, is, done, after) ↦
      written-Safe s _ id gen gen old g before.item is next before.journal after.item (omega arith)
        (omega arith) refl safe
]

Steps-Safe : (id : Text) {s t : State} → Steps id s t → Safe s id → Safe t id
Steps-Safe id Steps.stop safe = safe
Steps-Safe id (Steps.go first rest) safe = Steps-Safe id rest (Step-Safe id first safe)

-- However the steps of refreshes interleave on an account, crashes included, if its Keychain item is at
-- first at the journal's generation or one ahead of it, it stays so: the item is never older than the
-- journal, whatever generations the repairs were decided on. The steps are those of `Step`, where every
-- `bootstrapIfMissing` finds the item and no other module writes it.
pub Steps-Synced :
    (id : Text) (w : World) {t : State} → Steps id (start_of w) t → Synced w id → Synced t.world id
Steps-Synced id w steps s = (Steps-Safe id steps (record { synced = s; bounded = tt })).synced

-- The item is kept, or the next generation takes its place.
abbrev Moved : World → World → Text → Type 0
Moved w v id =
    (read_grant v id ≡ read_grant w id)
    ⊎ ((old : Grant) × (new : Grant) × (read_grant w id ≡ some old)
        × (read_grant v id ≡ some new)
        × (new.generation ≡ old.generation + 1))

Step-Moved : (id : Text) {s t : State} → Step id s t → Moved s.world t.world id
unfolding crash_write read_grant
Step-Moved id (Step.reads g e) = inl refl
Step-Moved id (Step.repairs from to mem less) = inl refl
Step-Moved id (Step.acquires now holder pid gen ttl) = inl refl
Step-Moved id (Step.heartbeats now holder gen ttl) = inl refl
Step-Moved id (Step.releases holder) = inl refl
Step-Moved id (Step.revokes holder gen) = inl refl
Step-Moved id {s} (Step.writes me gen g next) = elim (fenced_write-split s.world id me gen g) [
  | inr (same, not_done) ↦ inl (ap (λ w. read_grant w id) same)
  | inl (old, before, is, done, after) ↦
      inr (old, g, before.item, after.item, next ∙ ap (λ n. n + 1) (sym is))
]
Step-Moved id {s} (Step.crashes me gen g next) = elim (fenced_write-split s.world id me gen g) [
  | inr (same, not_done) ↦ inl (ap (λ w. read_grant w id) same)
  | inl (old, before, is, done, after) ↦
      inr (old, g, before.item, after.item, next ∙ ap (λ n. n + 1) (sym is))
]

-- What an item becomes: a later generation, or itself.
abbrev pub Later : Grant → World → Text → Type 0
Later old v id =
    (new : Grant) × (read_grant v id ≡ some new)
    × (old.generation ≤ new.generation)
    × (old.generation ≡ new.generation → new ≡ old)

step-Later :
    (id : Text) (w v : World) (old : Grant)
    → Moved w v id
    → read_grant w id ≡ some old
    → Later old v id
step-Later id w v old (inl same) e = (old, same ∙ e, omega arith, (λ _. refl))
step-Later id w v old (inr (o, new, a, b, next)) e =
    let is = ap Grant.generation (some-injective o old (sym a ∙ e)) in
    (new, b, omega arith, (λ k. absurd (no_loop next is k)))
  where
    no_loop : {a b c : ℕ} → c ≡ a + 1 → a ≡ b → b ≡ c → ⊥
    no_loop x y z = omega arith

-- However the steps of refreshes interleave on an account that has an item, the item only moves to
-- later generations: a refresh that began before another was written never replaces it, and two items
-- of one generation are the same. The steps are those of `Step`, where every `bootstrapIfMissing` finds
-- the item and no other module writes it.
pub Steps-Later :
    (id : Text) {s t : State} (old : Grant)
    → Steps id s t
    → read_grant s.world id ≡ some old
    → Later old t.world id
Steps-Later id old Steps.stop e = (old, e, omega arith, (λ _. refl))
Steps-Later id old (Steps.go {t = mid} first rest) e =
    let (m, at, up, same) = step-Later id _ mid.world old (Step-Moved id first) e in
    let (new, here, up', same') = Steps-Later id m rest at in
    (new, here, omega arith, (λ k. same' (omega arith) ∙ same (omega arith)))
