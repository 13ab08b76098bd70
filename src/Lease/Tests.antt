-- ===== src/Lease/Tests.antt =====
-- Two processes that refresh one account, and the theorems on the lease protocol at them.
use mathlib.Core.Bool.{false≢true}
use qlb.Base.{
  ℕ, suc, ◌+◌, Memᴰ, ◌≡◌, ◌≢◌, refl, ◌⊎◌, true, none, some, [], ◌∷◌, Text, codes, text_eq,
  text_eq_iff, arith,
}
use qlb.Store.{Store, get_account}
use qlb.Store.Config.{lookup, upsert}
use qlb.Store.Tests.{empty_store}
use qlb.Store.Leases.{
  acquire_refresh_lease, acquired, busy, get_grant_generation, get_lease, generation_of,
  upsert_lease, bump_grant_generation, cas_grant_generation, repair_grant_generation,
  delete_lease_if_holder,
}
use qlb.Store.Leases.Laws.{acquire-excludes}
use qlb.Lease.{
  Grant, World, Opening, write_grant, generation_at, read_grant, fenced_write, crash_write,
  committed, Attempt, AdapterResult, refresh_if_needed, Progress, stamped, bootstrap_if_missing,
  refresh_loop, attempt, read_and_repair, after_adapter, max_outer_attempts,
}
use qlb.Lease.Laws.{At, fenced_write-cases}
use qlb.Lease.Steps.{State, start_of, with_store, Step, Steps, Synced}
use qlb.Lease.Runs.{Later, Steps-Synced, Steps-Later}
use qlb.Lease.Returns.{Tries, Returned, refresh_if_needed-Returned}

abbrev acc : Text
acc = codes "a"

abbrev leased : Store
leased = record empty_store {
  accounts =
      record {
        id = codes "a";
        provider = codes "anthropic";
        label = codes "a";
        status = codes "active";
        grant_generation = 0;
      }
      ∷ [];
}

abbrev grant : ℕ → Grant
grant n = record {
  access = codes "access";
  refresh = codes "refresh";
  expires = 1000;
  generation = n;
  written_by = none;
}

abbrev start : World
start = record { store = leased; keychain = (codes "a", some (grant 0)) ∷ [] }

p_ne_q : codes "p" ≢ codes "q"
unfolding text_eq
p_ne_q e = false≢true ((text_eq_iff (codes "p") (codes "q")).1 e)

p_acquires : (acquire_refresh_lease leased 5 acc (codes "p") 1 0 15000).1 ≡ acquired
unfolding acquire_refresh_lease generation_of text_eq get_lease
p_acquires = refl

acquire-excludes_example :
    let store' = (acquire_refresh_lease leased 5 acc (codes "p") 1 0 15000).0 in
    acquire_refresh_lease store' 15004 acc (codes "q") 2 0 15000 ≡ (store', busy)
acquire-excludes_example =
    acquire-excludes leased 5 acc (codes "p") 1 0 15000 15004 (codes "q") 2 15000 p_acquires p_ne_q
      (omega arith)

-- `p` writes, `q` writes too late, then `q` crashes in a write, and `p`, which has read the item, repairs.
abbrev first_grant : Grant
first_grant = stamped (grant 7) 0 (codes "p")

abbrev after_p : World
after_p = (fenced_write start acc (codes "p") 0 first_grant).0

abbrev after_q : World
after_q = (fenced_write after_p acc (codes "q") 0 (grant 1)).0

abbrev after_crash : World
after_crash = crash_write after_q acc (codes "q") 1 (grant 2)

abbrev repaired : State
repaired =
    with_store (record { world = after_crash; seen = 2 ∷ [] })
      (repair_grant_generation after_crash.store acc 1 2)

crash_item : read_grant after_crash acc ≡ some (grant 2)
unfolding crash_write fenced_write read_grant lookup text_eq get_grant_generation generation_of
    bump_grant_generation cas_grant_generation delete_lease_if_holder write_grant upsert stamped
crash_item = refl

history : Steps acc (start_of start) repaired
unfolding stamped
history = Steps.go (Step.writes (codes "p") 0 first_grant refl) (
    Steps.go (Step.writes (codes "q") 0 (grant 1) refl) (
      Steps.go (Step.crashes (codes "q") 1 (grant 2) refl) (
        Steps.go (Step.reads (grant 2) crash_item)
          (Steps.go (Step.repairs 1 2 (Memᴰ.head refl) (omega arith)) Steps.stop))))

start_item : read_grant start acc ≡ some (grant 0)
unfolding read_grant lookup text_eq
start_item = refl

start_generation : get_grant_generation leased acc ≡ some 0
unfolding get_grant_generation generation_of text_eq
start_generation = refl

Steps-Synced_example : Synced repaired.world acc
Steps-Synced_example = Steps-Synced acc start history (record {
  gen = 0;
  item = grant 0;
  journal = start_generation;
  stands = start_item;
  not_older = omega arith;
  one_ahead = omega arith;
})

Steps-Later_example : Later (grant 0) repaired.world acc
Steps-Later_example = Steps-Later acc (grant 0) history start_item

fenced_write-cases_example :
    let new = stamped (grant 7) 0 (codes "p") in
    ((old : Grant) × At start acc 0 old
      × (old.generation ≡ 0)
      × ((fenced_write start acc (codes "p") 0 new).1 ≡ committed)
      × At (fenced_write start acc (codes "p") 0 new).0 acc (0 + 1) new
      × (new.generation ≡ 0 + 1)
      × (new.written_by ≡ some (codes "p")))
    ⊎ (((get_grant_generation start.store acc ≢ some 0)
          ⊎ (generation_at (read_grant start acc) ≢ some 0))
        × ((fenced_write start acc (codes "p") 0 new).1 ≢ committed)
        × ((fenced_write start acc (codes "p") 0 new).0 ≡ start))
fenced_write-cases_example = fenced_write-cases start acc (codes "p") 0 (grant 7)

-- An attempt that finds the grant expired and refreshes it.
abbrev calm : ℕ → Attempt
calm n = record {
  now = 5000;
  me = codes "p";
  pid = 1;
  wait_in_time = true;
  helper_usable = true;
  before_item = λ w. w;
  before_journal = λ w. w;
  before_repair = λ w. w;
  before_acquire = λ w. w;
  meanwhile = λ w. w;
  outcome = AdapterResult.refreshed (record (grant 7) { expires = 900000 });
}

abbrev renewed : Grant
renewed = stamped (record (grant 7) { expires = 900000 }) 0 (codes "p")

abbrev opening : Opening
opening = record { readable = true; meanwhile = λ w. w }

p_refreshes : (refresh_if_needed opening calm acc (grant 0) start).1 ≡ Progress.done renewed
unfolding refresh_if_needed bootstrap_if_missing get_account text_eq refresh_loop attempt
    read_and_repair get_grant_generation generation_of lookup read_grant acquire_refresh_lease
    get_lease after_adapter fenced_write upsert_lease bump_grant_generation cas_grant_generation
p_refreshes = refl

refresh_if_needed-Returned_example :
    (first : World) × (bootstrap_if_missing opening start acc (grant 0) ≡ some first)
    × (k : ℕ) × (u : World) × Tries calm acc max_outer_attempts first (suc k) u
    × Returned acc (calm k) u renewed (refresh_if_needed opening calm acc (grant 0) start).0
refresh_if_needed-Returned_example =
    refresh_if_needed-Returned opening calm acc (grant 0) start renewed p_refreshes
