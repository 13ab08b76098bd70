-- ===== src/Resolve/Route/Trail.antt =====
-- What a resolution leaves behind: a row of the log, or nothing in a dry run.
use mathlib.Core.Option.{some-injective}
use qlb.Base.{
  ℕ, ◌+◌, ◌≡◌, refl, ap, ◌∙◌, inl, inr, Bool, true, false, Option, none, some, List, [], ◌∷◌, Text,
  codes, Option-cases,
}
use qlb.Types.{AccountSnapshot}
use qlb.Scoring.{provider_for_model}
use qlb.Store.{Store, DecisionRow, record_decision}
use qlb.Strategies.{StrategyPick, logged, pick_account}
use qlb.Strategies.Laws.{pick_account-dry}
use qlb.Strategies.Quiet.{pick_account-logged}
use qlb.Resolve.{
  ResolveRequest, ResolveDecision, Resolved, recorded, record_in, decision_row, active_ids,
}
use qlb.Resolve.Pinned.{resolve_pinned}
use qlb.Resolve.Pinned.Laws.{decision, chain_of, resolve_pinned-recorded}
use qlb.Resolve.Route.{
  pick_context, serve_or, turn, walk, walk_decision, finish, resolve_unpinned, or_unpinned,
  resolve_from_snapshots,
}
use qlb.Resolve.Route.Laws.{strategy_of, candidates_of, reserved_ids}

-- What relates the store after a pick to the store before it relates them for a walk.
module _ {ℓ} {A : Type ℓ} (view : Option Store → A) (hash : Text → ℕ) (req : ResolveRequest)
    (reserved drain : List Text)
    (keeps : (m : Text) (ss : List AccountSnapshot) (store : Option Store)
      → view (pick_account hash (strategy_of req) (pick_context req drain m ss) store).0
        ≡ view store) where
  walk-keeps :
      (chain : List Text) (sub : Bool) (store : Option Store) (last : List AccountSnapshot)
      → view (walk hash req reserved drain chain sub store last).0 ≡ view store
  unfolding walk turn serve_or
  walk-keeps [] sub store last = refl
  walk-keeps (m ∷ ms) sub store last = elim (Option-cases (provider_for_model m)) [
    | inl odd ↦ rw odd (walk-keeps ms true store last)
    | inr (p, known) ↦ rw known (
        go (λ s l. walk-keeps ms true s l) p
          (pick_account hash (strategy_of req)
            (pick_context req drain m (candidates_of req store reserved p)) store)
          (keeps m (candidates_of req store reserved p) store))
  ]
    where
      go :
          (again : (s : Option Store) (l : List AccountSnapshot)
            → view (walk hash req reserved drain ms true s l).0 ≡ view s)
          (p : Text) (r : Option Store × Option StrategyPick)
          → view r.0 ≡ view store
          → view
              (serve_or hash req reserved drain
                (λ s l. walk hash req reserved drain ms true s l)
                m
                p
                sub
                (candidates_of req store reserved p)
                r).0
            ≡ view store
      go again p (st, some pk) kept = kept
      go again p (st, none) kept = again st (candidates_of req store reserved p) ∙ kept

recorded-dry :
    (now : ℕ) (req : ResolveRequest) (store : Option Store) (d : ResolveDecision)
    → req.persist ≡ false
    → (recorded now req store d).0 ≡ store
unfolding recorded
recorded-dry now req none d h = refl
recorded-dry now req (some st) d h = rw h refl

-- The row of a decision, with its number and its time.
abbrev pub row_of : ℕ → ℕ → ResolveRequest → ResolveDecision → DecisionRow
row_of n now req d = record (decision_row req d) { id = n; ts = now }

-- One more row of the log, with the number that the decision carries.
abbrev pub Logs : ℕ → ResolveRequest → List DecisionRow → ℕ → Resolved → Type 0
Logs now req log n r =
    (logged r.0 ≡ some (row_of n now req (decision r) ∷ log, n + 1)) × (r.2 ≡ some n)

recorded-Logs :
    (now : ℕ) (req : ResolveRequest) (store : Option Store) (d : ResolveDecision)
    (log : List DecisionRow) (n : ℕ)
    → req.persist ≡ true
    → logged store ≡ some (log, n)
    → Logs now req log n (recorded now req store d)
unfolding recorded logged record_decision record_in
recorded-Logs now req none d log n h e = cc
recorded-Logs now req (some st) d log n h e =
    let pair = some-injective (st.decisions, st.next_decision_id) (log, n) e in
    let ids = ap (λ x. x.1) pair in
    let rows = ap (λ x. x.0) pair in rw (← ids, ← rows) (rw h (refl, refl))

-- A resolution without a pin is the record of a decision in the store that the walk leaves.
unpinned-recorded :
    (hash : Text → ℕ) (now : ℕ) (req : ResolveRequest) (store : Option Store)
    → (d : ResolveDecision) × (resolve_unpinned hash now req store
        ≡ recorded now req
            (walk hash req
              (reserved_ids store now)
              (active_ids store now (codes "drain-first"))
              (chain_of req)
              false
              store
              []).0
            d)
unfolding resolve_unpinned finish
unpinned-recorded hash now req store =
    let w =
      walk hash req (reserved_ids store now) (active_ids store now (codes "drain-first"))
        (chain_of req) false store [] in
    (walk_decision req w.1, refl)

-- A dry run writes nothing: no decision, no rotation, no sticky account.
pub resolve-dry :
    (hash : Text → ℕ) (now : ℕ) (req : ResolveRequest) (store : Option Store)
    → req.persist ≡ false
    → (resolve_from_snapshots hash now req store).0 ≡ store
unfolding resolve_from_snapshots or_unpinned
resolve-dry hash now req store h =
    elim (Option-cases (resolve_pinned now req (chain_of req) store)) [
      | inr (r, pinned) ↦
          let (d, is) = resolve_pinned-recorded now req (chain_of req) store pinned in
          rw pinned (rw is (recorded-dry now req store d h))
      | inl no_pin ↦
          let (d, is) = unpinned-recorded hash now req store in
          rw no_pin (
            rw is (
              recorded-dry now req _ d h
              ∙ walk-keeps (λ s. s) hash req (reserved_ids store now)
                  (active_ids store now (codes "drain-first"))
                  (λ m ss s. pick_account-dry hash (strategy_of req) (pick_context req _ m ss) s h)
                  (chain_of req) false store []))
    ]

-- A resolution that persists adds one row to the log of the store: the row of the decision that it
-- returns, under the number that it returns.
pub resolve-Logs :
    (hash : Text → ℕ) (now : ℕ) (req : ResolveRequest) (store : Store)
    → req.persist ≡ true
    → Logs now req store.decisions store.next_decision_id
        (resolve_from_snapshots hash now req (some store))
unfolding resolve_from_snapshots or_unpinned
resolve-Logs hash now req store h =
    elim (Option-cases (resolve_pinned now req (chain_of req) (some store))) [
      | inr (r, pinned) ↦
          let (d, is) = resolve_pinned-recorded now req (chain_of req) (some store) pinned in
          rw pinned (
            rw is (
              recorded-Logs now req (some store) d store.decisions store.next_decision_id h
                (unfold logged in refl)))
      | inl no_pin ↦
          let (d, is) = unpinned-recorded hash now req (some store) in
          rw no_pin (
            rw is (
              recorded-Logs now req _ d store.decisions store.next_decision_id h (
                walk-keeps logged hash req (reserved_ids (some store) now)
                  (active_ids (some store) now (codes "drain-first"))
                  (λ m ss s. pick_account-logged hash (strategy_of req) (pick_context req _ m ss) s)
                  (chain_of req) false (some store) []
                ∙ (unfold logged in refl))))
    ]
