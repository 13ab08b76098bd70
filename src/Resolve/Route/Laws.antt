-- ===== src/Resolve/Route/Laws.antt =====
-- What the walk serves: the first model of the chain that has a usable account.
use mathlib.Core.Option.{some-injective}
use qlb.Base.{text_eq_iff, arith}
use qlb.Base.{
  ℕ, ◌≡◌, refl, sym, ap, ◌∙◌, ◌↔◌, inl, inr, Bool, true, false, Option, none, some, List, [], ◌∷◌,
  ◌++◌, Memᴰ, Text, codes, All, Option-cases, filter, or_else,
}
use qlb.Base.Sorting.{mem_of_mem-filter}
use qlb.Types.{AccountSnapshot}
use qlb.Scoring.{Strategy, headroom, provider_for_model}
use qlb.Store.{Store}
use qlb.Strategies.{contains, StrategyPick, not_errored, pick_account}
use qlb.Strategies.Laws.{Barred, pick_account-none_iff, pick_account-drains_first}
use qlb.Strategies.Usable.{Unbarred, pick_account-Unbarred}
use qlb.Strategies.Quiet.{pick_account-Quiet}
use qlb.Resolve.{ResolveRequest, ResolveOk, ResolveDecision, active_ids}
use qlb.Resolve.Pinned.{resolve_pinned}
use qlb.Resolve.Route.{
  is_routable, may_use, route_ok, Walk, pick_context, serve_or, turn, walk, walk_decision, finish,
  resolve_unpinned, or_unpinned, resolve_from_snapshots,
}
use qlb.Resolve.Pinned.Laws.{decision, chain_of, ok_of, recorded-decision}

abbrev pub strategy_of : ResolveRequest → Strategy
strategy_of req = or_else req.strategy headroom

-- The candidates of a provider.
abbrev pub candidates_of : ResolveRequest → Option Store → List Text → Text → List AccountSnapshot
candidates_of req store reserved provider =
    filter (is_routable store reserved provider) req.snapshots

-- A model that no account can serve: unknown, or all its candidates are barred.
abbrev pub Dry : ResolveRequest → Option Store → List Text → Text → Type 0
Dry req store reserved model =
    (provider : Text)
    → provider_for_model model ≡ some provider
    → All (Barred (strategy_of req) model) (candidates_of req store reserved provider)

-- What an answer of the walk over a chain is.
pub record RouteServed (req : ResolveRequest) (store : Option Store) (reserved chain : List Text)
    (d : ResolveOk) : Type 0 where
  pub before : List Text
  pub after : List Text
  pub first : chain ≡ before ++ d.served_model ∷ after
  pub earlier_dry : All (Dry req store reserved) before
  pub known : provider_for_model d.served_model ≡ some d.provider
  pub listed : Memᴰ d.snapshot req.snapshots
  pub provided : d.snapshot.provider ≡ d.provider
  pub unreserved : contains reserved d.snapshot.account_id ≡ false
  pub usable : may_use store d.snapshot ≡ true
  pub healthy : not_errored d.snapshot ≡ true
  pub unbarred : Unbarred (strategy_of req) d.served_model d.snapshot
  pub account : d.account_id ≡ d.snapshot.account_id
  pub asked : d.requested_model ≡ req.model

abbrev walk_ok : Walk → Option ResolveOk
walk_ok (store, inl d) = some d
walk_ok (store, inr last) = none

is_routable-facts :
    (store : Option Store) (reserved : List Text) (p : Text) (s : AccountSnapshot)
    → is_routable store reserved p s ≡ true
    → (s.provider ≡ p) × (contains reserved s.account_id ≡ false) × (may_use store s ≡ true)
unfolding is_routable
is_routable-facts store reserved p s h =
    ((text_eq_iff s.provider p).0 (ground (arith, h)), ground (arith, h), ground (arith, h))

RouteServed-later :
    (req : ResolveRequest) (store : Option Store) (reserved chain : List Text) (m : Text)
    (d : ResolveOk)
    → Dry req store reserved m
    → RouteServed req store reserved chain d
    → RouteServed req store reserved (m ∷ chain) d
RouteServed-later req store reserved chain m d dry r = record {
  before = m ∷ r.before;
  after = r.after;
  first = ap (λ x. m ∷ x) r.first;
  earlier_dry = (dry, r.earlier_dry);
  known = r.known;
  listed = r.listed;
  provided = r.provided;
  unreserved = r.unreserved;
  usable = r.usable;
  healthy = r.healthy;
  unbarred = r.unbarred;
  account = r.account;
  asked = r.asked;
}

module _ (hash : Text → ℕ) (req : ResolveRequest) (reserved drain : List Text) where
  abbrev picked : Text → Text → Option Store → Option Store × Option StrategyPick
  picked m p store =
      pick_account hash (strategy_of req)
        (pick_context req drain m (candidates_of req store reserved p)) store

  picked-Dry :
      (m p : Text) (store : Option Store)
      → provider_for_model m ≡ some p
      → (picked m p store).1 ≡ none
      → Dry req store reserved m
  picked-Dry m p store known e q k =
      let same = some-injective p q (sym known ∙ k) in
      rw (← same) (
        (pick_account-none_iff hash (strategy_of req)
            (pick_context req drain m (candidates_of req store reserved p)) store).0
          e)

  picked-of_Dry :
      (m p : Text) (store : Option Store)
      → provider_for_model m ≡ some p
      → Dry req store reserved m
      → (picked m p store).1 ≡ none
  picked-of_Dry m p store known dry =
      (pick_account-none_iff hash (strategy_of req)
          (pick_context req drain m (candidates_of req store reserved p)) store).1
        (dry p known)

  picked-served :
      (m p : Text) (sub : Bool) (rest : List Text) (store : Option Store) (pk : StrategyPick)
      → provider_for_model m ≡ some p
      → (picked m p store).1 ≡ some pk
      → RouteServed req store reserved (m ∷ rest) (route_ok req m p sub pk)
  unfolding route_ok
  picked-served m p sub rest store pk known e =
      let (mem, good, _) =
        pick_account-drains_first hash (strategy_of req)
          (pick_context req drain m (candidates_of req store reserved p)) store e in
      let (listed, routable) = mem_of_mem-filter (is_routable store reserved p) req.snapshots mem in
      let facts = is_routable-facts store reserved p pk.snapshot routable in
      record {
        before = [];
        after = rest;
        first = refl;
        earlier_dry = tt;
        known = known;
        listed = listed;
        provided = facts.0;
        unreserved = facts.1;
        usable = facts.2;
        healthy = good;
        unbarred =
            pick_account-Unbarred hash (strategy_of req)
              (pick_context req drain m (candidates_of req store reserved p)) store e;
        account = refl;
        asked = refl;
      }

  walk-served :
      (chain : List Text) (sub : Bool) (store : Option Store) (last : List AccountSnapshot)
      {d : ResolveOk}
      → walk_ok (walk hash req reserved drain chain sub store last) ≡ some d
      → RouteServed req store reserved chain d
  unfolding walk turn serve_or
  walk-served [] sub store last e = cc
  walk-served (m ∷ ms) sub store last {d} e = elim (Option-cases (provider_for_model m)) [
    | inl odd ↦
        RouteServed-later req store reserved ms m d (λ p k. cc)
          (walk-served ms true store last (rw odd at e))
    | inr (p, known) ↦
        go (λ l h. walk-served ms true store l h) p known (picked m p store) refl (rw known at e)
  ]
    where
      go :
          (again : (l : List AccountSnapshot)
            → walk_ok (walk hash req reserved drain ms true store l) ≡ some d
            → RouteServed req store reserved ms d)
          (p : Text) (known : provider_for_model m ≡ some p)
          (r : Option Store × Option StrategyPick)
          → picked m p store ≡ r
          → walk_ok (
              serve_or hash req reserved drain
                (λ s l. walk hash req reserved drain ms true s l)
                m
                p
                sub
                (candidates_of req store reserved p)
                r)
            ≡ some d
          → RouteServed req store reserved (m ∷ ms) d
      go again p known (st, some pk) is h =
          rw (← some-injective (route_ok req m p sub pk) d h)
            (picked-served m p sub ms store pk known (ap (λ x. x.1) is))
      go again p known (st, none) is h =
          let quiet =
            pick_account-Quiet hash (strategy_of req)
              (pick_context req drain m (candidates_of req store reserved p)) store
              (ap (λ x. x.1) is) in
          let same : st ≡ store = sym (ap (λ x. x.0) is) ∙ quiet in
          RouteServed-later req store reserved ms m d
            (picked-Dry m p store known (ap (λ x. x.1) is))
            (again (candidates_of req store reserved p) (rw same at h))

  walk-none_iff :
      (chain : List Text) (sub : Bool) (store : Option Store) (last : List AccountSnapshot)
      → (walk_ok (walk hash req reserved drain chain sub store last) ≡ none)
        ↔ All (Dry req store reserved) chain
  unfolding walk turn serve_or
  walk-none_iff [] sub store last = (λ _. tt, λ _. refl)
  walk-none_iff (m ∷ ms) sub store last = elim (Option-cases (provider_for_model m)) [
    | inl odd ↦
        let (to, from) = walk-none_iff ms true store last in
        ((λ e. ((λ p k. cc), to (rw odd at e))), (λ f. rw odd (from f.1)))
    | inr (p, known) ↦
        let (to, from) = go (λ l. walk-none_iff ms true store l) p known (picked m p store) refl in
        ((λ e. to (rw known at e)), (λ f. rw known (from f)))
  ]
    where
      go :
          (again : (l : List AccountSnapshot)
            → (walk_ok (walk hash req reserved drain ms true store l) ≡ none)
              ↔ All (Dry req store reserved) ms)
          (p : Text) (known : provider_for_model m ≡ some p)
          (r : Option Store × Option StrategyPick)
          → picked m p store ≡ r
          → (walk_ok (
                serve_or hash req reserved drain
                  (λ s l. walk hash req reserved drain ms true s l)
                  m
                  p
                  sub
                  (candidates_of req store reserved p)
                  r)
              ≡ none)
            ↔ All (Dry req store reserved) (m ∷ ms)
      go again p known (st, some pk) is =
          ((λ h. cc), (λ f. let n = picked-of_Dry m p store known f.0 in cc (ap (λ x. x.1) is)))
      go again p known (st, none) is =
          let none_picked = ap (λ x. x.1) is in
          let quiet =
            pick_account-Quiet hash (strategy_of req)
              (pick_context req drain m (candidates_of req store reserved p)) store none_picked in
          let same : st ≡ store = sym (ap (λ x. x.0) is) ∙ quiet in
          let (to, from) = again (candidates_of req store reserved p) in
          rw same ((λ h. (picked-Dry m p store known none_picked, to h)), (λ f. from f.1))

-- The reserved accounts at a time.
abbrev pub reserved_ids : Option Store → ℕ → List Text
reserved_ids store now = active_ids store now (codes "reserve")

unpinned-decision :
    (hash : Text → ℕ) (now : ℕ) (req : ResolveRequest) (store : Option Store)
    → ok_of (decision (resolve_unpinned hash now req store))
      ≡ walk_ok (
          walk hash req
            (reserved_ids store now)
            (active_ids store now (codes "drain-first"))
            (chain_of req)
            false
            store
            [])
unfolding resolve_unpinned finish walk_decision
unpinned-decision hash now req store = go (
    walk hash req (reserved_ids store now) (active_ids store now (codes "drain-first"))
      (chain_of req) false store [])
  where
    go : (w : Walk) → ok_of (decision (finish now req w)) ≡ walk_ok w
    go (st, inl d) = ap ok_of (recorded-decision now req st (ResolveDecision.ok d))
    go (st, inr last) = ap ok_of (recorded-decision now req st (walk_decision req (inr last)))

-- Without a pin, the answer serves the first model of the chain that has a usable candidate: each
-- model before it is unknown or has only barred candidates, and the account that it serves is not
-- barred: it is not fully exhausted for the model, or, with failover, has failover headroom. The account
-- is one of the request's, of the model's provider, not reserved, not in error and, if it is a Codex
-- account, one that the store has.
pub resolve-served :
    (hash : Text → ℕ) (now : ℕ) (req : ResolveRequest) (store : Option Store) {d : ResolveOk}
    → resolve_pinned now req (chain_of req) store ≡ none
    → ok_of (decision (resolve_from_snapshots hash now req store)) ≡ some d
    → RouteServed req store (reserved_ids store now) (chain_of req) d
unfolding resolve_from_snapshots or_unpinned
resolve-served hash now req store {d} no_pin e =
    walk-served hash req (reserved_ids store now) (active_ids store now (codes "drain-first"))
      (chain_of req) false store [] (sym (unpinned-decision hash now req store) ∙ (rw no_pin at e))

-- Without a pin, no answer is given exactly when no model of the chain has a usable candidate.
pub resolve-exhausted_iff :
    (hash : Text → ℕ) (now : ℕ) (req : ResolveRequest) (store : Option Store)
    → resolve_pinned now req (chain_of req) store ≡ none
    → (ok_of (decision (resolve_from_snapshots hash now req store)) ≡ none)
      ↔ All (Dry req store (reserved_ids store now)) (chain_of req)
unfolding resolve_from_snapshots or_unpinned
resolve-exhausted_iff hash now req store no_pin =
    let (to, from) =
      walk-none_iff hash req (reserved_ids store now) (active_ids store now (codes "drain-first"))
        (chain_of req) false store [] in
    rw no_pin (rw (unpinned-decision hash now req store) (to, from))
