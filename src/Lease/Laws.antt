-- ===== src/Lease/Laws.antt =====
-- src/refresh-lease.ts: the fence, and what a write of a grant does.
use mathlib.Core.Option.{some-injective}
use qlb.Base.{
  ℕ, ◌+◌, ==_iff, ◌≡◌, ◌≢◌, refl, ap, ◌⊎◌, inl, inr, true, false, Option, none, some, Text, text_eq,
  text_eq_iff, text_eq_refl, Bool-cases,
}
use qlb.Store.Config.{lookup-upsert}
use qlb.Store.Leases.{get_grant_generation, bump_grant_generation, delete_lease_if_holder}
use qlb.Store.Leases.Laws.{cas-hit}
use qlb.Lease.{
  Grant, World, read_grant, write_grant, committed, commit_grant, same_generation, generation_at,
  fenced_write, stamped,
}

pub read-write_grant :
    (w : World) (id : Text) (g : Grant) → read_grant (write_grant w id g) id ≡ some g
unfolding read_grant write_grant
read-write_grant w id g = rw (lookup-upsert id id (some g) w.keychain, text_eq_refl id)

pub read-write_grant_other :
    (w : World) (id id' : Text) (g : Grant)
    → id ≢ id'
    → read_grant (write_grant w id g) id' ≡ read_grant w id'
unfolding read_grant write_grant
read-write_grant_other w id id' g ne =
    rw (lookup-upsert id id' (some g) w.keychain) (elim (Bool-cases (text_eq id id')) [
      | inl same ↦ absurd (ne ((text_eq_iff id id').0 same))
      | inr other ↦ rw other
    ])

same_generation-eq : (o : Option ℕ) (n : ℕ) → same_generation o n ≡ true → o ≡ some n
unfolding same_generation
same_generation-eq none n e = cc
same_generation-eq (some k) n e = ap some ((==_iff k n).0 e)

generation_at-inv :
    (o : Option Grant) (n : ℕ)
    → generation_at o ≡ some n
    → (g : Grant) × (o ≡ some g) × (g.generation ≡ n)
unfolding generation_at
generation_at-inv none n e = cc
generation_at-inv (some g) n e = (g, refl, some-injective g.generation n e)

-- The journal's generation and the item's, at an account.
pub record At (w : World) (id : Text) (gen : ℕ) (g : Grant) : Type 0 where
  pub journal : get_grant_generation w.store id ≡ some gen
  pub item : read_grant w id ≡ some g

-- What a committed write leaves.
commit_grant-committed :
    (w : World) (id me : Text) (gen : ℕ) (g : Grant)
    → get_grant_generation w.store id ≡ some gen
    → ((commit_grant w id me gen g).1 ≡ committed)
      × At (commit_grant w id me gen g).0 id (gen + 1) g
unfolding commit_grant bump_grant_generation delete_lease_if_holder get_grant_generation write_grant
    read_grant
commit_grant-committed w id me gen g known =
    let (one, moved) = cas-hit w.store id gen (gen + 1) known in
    rw one (refl, record { journal = moved; item = read-write_grant w id g })

same_generation-ne : (o : Option ℕ) (n : ℕ) → same_generation o n ≡ false → o ≢ some n
unfolding same_generation
same_generation-ne none n e k = cc
same_generation-ne (some m) n e k =
    let same = (==_iff m n).1 (some-injective m n k) in cc (rw same at e)

-- A write of any grant.
pub fenced_write-split :
    (w : World) (id me : Text) (gen : ℕ) (g : Grant)
    → ((old : Grant) × At w id gen old
        × (old.generation ≡ gen)
        × ((fenced_write w id me gen g).1 ≡ committed)
        × At (fenced_write w id me gen g).0 id (gen + 1) g)
      ⊎ (((fenced_write w id me gen g).0 ≡ w) × ((fenced_write w id me gen g).1 ≢ committed))
unfolding fenced_write
fenced_write-split w id me gen g =
    elim (Bool-cases (same_generation (get_grant_generation w.store id) gen)) [
      | inr moved ↦ inr (rw moved (refl, (λ e. cc)))
      | inl stands ↦ elim (Bool-cases (same_generation (generation_at (read_grant w id)) gen)) [
        | inr newer ↦ inr (rw (stands, newer) (refl, (λ e. cc)))
        | inl same ↦
            let known = same_generation-eq (get_grant_generation w.store id) gen stands in
            let (old, item, is) =
              generation_at-inv (read_grant w id) gen
                (same_generation-eq (generation_at (read_grant w id)) gen same) in
            inl (
              old,
              record { journal = known; item = item },
              is,
              rw (stands, same) (commit_grant-committed w id me gen g known).0,
              rw (stands, same) (commit_grant-committed w id me gen g known).1,
            )
      ]
    ]

fenced_write-refused :
    (w : World) (id me : Text) (gen : ℕ) (g : Grant)
    → (fenced_write w id me gen g).1 ≢ committed
    → (get_grant_generation w.store id ≢ some gen) ⊎ (generation_at (read_grant w id) ≢ some gen)
unfolding fenced_write
fenced_write-refused w id me gen g refused =
    elim (Bool-cases (same_generation (get_grant_generation w.store id) gen)) [
      | inr moved ↦ inl (same_generation-ne (get_grant_generation w.store id) gen moved)
      | inl stands ↦ elim (Bool-cases (same_generation (generation_at (read_grant w id)) gen)) [
        | inr newer ↦ inr (same_generation-ne (generation_at (read_grant w id)) gen newer)
        | inl same ↦
            let known = same_generation-eq (get_grant_generation w.store id) gen stands in
            absurd (refused (rw (stands, same) (commit_grant-committed w id me gen g known).0))
      ]
    ]

-- The fence: where the journal and the item are still at the generation that the refresh began with,
-- the write of its grant commits, the journal and the item are at the next generation, and the item is
-- the grant, stamped with that generation and its writer. Where one of them has moved, nothing is
-- written and nothing changes.
pub fenced_write-cases :
    (w : World) (id me : Text) (gen : ℕ) (g : Grant)
    → let new = stamped g gen me in
      ((old : Grant) × At w id gen old
        × (old.generation ≡ gen)
        × ((fenced_write w id me gen new).1 ≡ committed)
        × At (fenced_write w id me gen new).0 id (gen + 1) new
        × (new.generation ≡ gen + 1)
        × (new.written_by ≡ some me))
      ⊎ (((get_grant_generation w.store id ≢ some gen)
            ⊎ (generation_at (read_grant w id) ≢ some gen))
          × ((fenced_write w id me gen new).1 ≢ committed)
          × ((fenced_write w id me gen new).0 ≡ w))
unfolding stamped
fenced_write-cases w id me gen g =
    let new = stamped g gen me in
    elim (fenced_write-split w id me gen new) [
      | inl (old, before, is, done, after) ↦ inl (old, before, is, done, after, refl, refl)
      | inr (same, refused) ↦ inr (fenced_write-refused w id me gen new refused, refused, same)
    ]
