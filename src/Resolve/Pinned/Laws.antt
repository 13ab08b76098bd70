-- ===== src/Resolve/Pinned/Laws.antt =====
-- What a pin does: its session is served by the pinned account or not at all.
use mathlib.Core.Option.{some-injective}
use qlb.Base.{
  ℕ, ◌≡◌, ◌≢◌, refl, sym, ◌∙◌, ◌↔◌, ◌⊎◌, inl, inr, true, false, not, ◌&&◌, Option, none, some, List,
  [], ◌∷◌, Memᴰ, Text, text_eq, text_eq_iff, truthy, All, Bool-cases, Option-cases, arith,
}
use qlb.Types.{AccountSnapshot}
use qlb.Scoring.{provider_for_model}
use qlb.Store.{Store, OverrideRow}
use qlb.Store.Overrides.{get_pin_override}
use qlb.Strategies.Headroom.{is_fully_exhausted}
use qlb.Resolve.{
  ResolveRequest, ServedBy, ResolveOk, ResolveDecision, Resolved, recorded, pinned_snapshot,
}
use qlb.Resolve.Pinned.{
  pin_ok, pin_turn, pin_loop, ok_or_no_headroom, pinned_decision, answer_pin, pinned_session,
  resolve_pinned,
}
use qlb.Resolve.Route.{resolve_from_snapshots}

-- The decision of a resolution.
abbrev pub decision : Resolved → ResolveDecision
decision r = r.1

-- The models of a request, in the order in which they are tried.
abbrev pub chain_of : ResolveRequest → List Text
chain_of req = req.model ∷ req.fallback

-- The account that a decision is about.
abbrev pub answered : ResolveDecision → Option Text
answered (ResolveDecision.ok d) = some d.account_id
answered (ResolveDecision.exhausted m e ss) = none
answered (ResolveDecision.pinned_unavailable m id why) = some id

-- The account that a pin of an id stands for.
abbrev pub pin_target : Text → Option AccountSnapshot → Text
pin_target id none = id
pin_target id (some snap) = snap.account_id

-- A model that an account can serve.
abbrev pub CanServe : AccountSnapshot → Text → Text → Type 0
CanServe snap model provider =
    (provider_for_model model ≡ some provider)
    × (snap.provider ≡ provider)
    × (is_fully_exhausted snap model ≡ false)

-- A model that an account cannot serve: of another provider, or exhausted.
abbrev pub CannotServe : AccountSnapshot → Text → Type 0
CannotServe snap model =
    (provider : Text)
    → provider_for_model model ≡ some provider
    → snap.provider ≡ provider
    → is_fully_exhausted snap model ≡ true

pub recorded-decision :
    (now : ℕ) (req : ResolveRequest) (store : Option Store) (d : ResolveDecision)
    → decision (recorded now req store d) ≡ d
unfolding recorded
recorded-decision now req none d = refl
recorded-decision now req (some store) d = refl

pin_turn-some :
    (req : ResolveRequest) (snap : AccountSnapshot) (m p : Text) (later : Option ResolveOk)
    {d : ResolveOk}
    → pin_turn req snap m (some p) later ≡ some d
    → ((d ≡ pin_ok req snap m p) × (snap.provider ≡ p) × (is_fully_exhausted snap m ≡ false))
      ⊎ (later ≡ some d)
unfolding pin_turn
pin_turn-some req snap m p later {d} e =
    elim (Bool-cases (text_eq snap.provider p && not (is_fully_exhausted snap m))) [
      | inl go ↦ inl (
        sym (some-injective _ d (rw go at e)),
        (text_eq_iff snap.provider p).0 (ground arith),
        ground arith,
      )
      | inr stop ↦ inr (rw stop at e)
    ]

pin_loop-some :
    (req : ResolveRequest) (snap : AccountSnapshot) (chain : List Text) {d : ResolveOk}
    → pin_loop req snap chain ≡ some d
    → (m p : Text) × Memᴰ m chain × CanServe snap m p × (d ≡ pin_ok req snap m p)
unfolding pin_loop
pin_loop-some req snap [] e = cc
pin_loop-some req snap (m ∷ ms) {d} e = elim (Option-cases (provider_for_model m)) [
  | inl unknown_model ↦ later (pin_loop-some req snap ms (rw (unknown_model, pin_turn) at e))
  | inr (p, known) ↦ elim (pin_turn-some req snap m p (pin_loop req snap ms) (rw known at e)) [
    | inl (is, same, room) ↦ (m, p, Memᴰ.head refl, (known, same, room), is)
    | inr rest ↦ later (pin_loop-some req snap ms rest)
  ]
]
  where
    later :
        (n p : Text) × Memᴰ n ms × CanServe snap n p × (d ≡ pin_ok req snap n p)
        → (n p : Text) × Memᴰ n (m ∷ ms) × CanServe snap n p × (d ≡ pin_ok req snap n p)
    later (n, p, mem, can, is) = (n, p, Memᴰ.tail mem, can, is)

pin_turn-none :
    (req : ResolveRequest) (snap : AccountSnapshot) (m p : Text) (later : Option ResolveOk)
    → pin_turn req snap m (some p) later ≡ none
    → (snap.provider ≡ p → is_fully_exhausted snap m ≡ true) × (later ≡ none)
unfolding pin_turn
pin_turn-none req snap m p later e =
    elim (Bool-cases (text_eq snap.provider p && not (is_fully_exhausted snap m))) [
      | inl go ↦ cc (rw go at e)
      | inr halt ↦
          ((λ same. ground (arith, halt, (text_eq_iff snap.provider p).1 same)), rw halt at e)
    ]

pin_turn-skips :
    (req : ResolveRequest) (snap : AccountSnapshot) (m p : Text) (later : Option ResolveOk)
    → (snap.provider ≡ p → is_fully_exhausted snap m ≡ true)
    → later ≡ none
    → pin_turn req snap m (some p) later ≡ none
unfolding pin_turn
pin_turn-skips req snap m p later shut rest = elim (Bool-cases (text_eq snap.provider p)) [
  | inl same ↦ rw (same, shut ((text_eq_iff snap.provider p).0 same)) rest
  | inr other ↦ rw other rest
]

pin_loop-none_iff :
    (req : ResolveRequest) (snap : AccountSnapshot) (chain : List Text)
    → (pin_loop req snap chain ≡ none) ↔ All (CannotServe snap) chain
unfolding pin_loop
pin_loop-none_iff req snap [] = (λ _. tt, λ _. refl)
pin_loop-none_iff req snap (m ∷ ms) =
    let (to, from) = pin_loop-none_iff req snap ms in
    let later = pin_loop req snap ms in
    elim (Option-cases (provider_for_model m)) [
      | inl unknown_model ↦ (
        (λ e. ((λ p k. cc), to (rw (unknown_model, pin_turn) at e))),
        (λ f. rw (unknown_model, pin_turn) (from f.1)),
      )
      | inr (p, known) ↦ (
        (λ e.
            let (shut, rest) = pin_turn-none req snap m p later (rw known at e) in
            ((λ q k same. shut (same ∙ some-injective q p (sym k ∙ known))), to rest)),
        (λ f. rw known (pin_turn-skips req snap m p later (λ same. f.0 p known same) (from f.1))),
      )
    ]

-- The decision for a pinned session is the one that the pin alone gives.
resolve-pinned :
    (hash : Text → ℕ) (now : ℕ) (req : ResolveRequest) (store : Store) (session : Text)
    (pin : OverrideRow)
    → req.session ≡ some session
    → session ≢ []
    → get_pin_override store session now ≡ some pin
    → decision (resolve_from_snapshots hash now req (some store))
      ≡ pinned_decision req
          (chain_of req)
          pin.account_id
          (pinned_snapshot store req.snapshots pin.account_id)
unfolding resolve_from_snapshots resolve_pinned pinned_session answer_pin
resolve-pinned hash now req store [] pin e ne found = absurd (ne refl)
resolve-pinned hash now req store (c ∷ s) pin e ne found = rw e (
    rw found (
      recorded-decision now req (some store) (
        pinned_decision req (chain_of req) pin.account_id
          (pinned_snapshot store req.snapshots pin.account_id))))

pinned_decision-answered :
    (req : ResolveRequest) (chain : List Text) (id : Text) (o : Option AccountSnapshot)
    → answered (pinned_decision req chain id o) ≡ some (pin_target id o)
unfolding pinned_decision
pinned_decision-answered req chain id none = refl
pinned_decision-answered req chain id (some snap) = elim (Bool-cases (truthy snap.error)) [
  | inl bad ↦ rw bad
  | inr good ↦ rw good (unfold ok_or_no_headroom in served (pin_loop req snap chain) refl)
]
  where
    served :
        (r : Option ResolveOk)
        → pin_loop req snap chain ≡ r
        → answered (ok_or_no_headroom req snap r) ≡ some snap.account_id
    served none e = refl
    served (some d) e = let (m, p, mem, can, is) = pin_loop-some req snap chain e in rw is refl

-- A session with a pin in force gets an answer about the pinned account: that account, or the news that it is
-- unavailable. It is never sent to another account.
pub resolve-keeps_pin :
    (hash : Text → ℕ) (now : ℕ) (req : ResolveRequest) (store : Store) (session : Text)
    (pin : OverrideRow)
    → req.session ≡ some session
    → session ≢ []
    → get_pin_override store session now ≡ some pin
    → answered (decision (resolve_from_snapshots hash now req (some store)))
      ≡ some (pin_target pin.account_id (pinned_snapshot store req.snapshots pin.account_id))
resolve-keeps_pin hash now req store session pin e ne found =
    rw (resolve-pinned hash now req store session pin e ne found) (
      pinned_decision-answered req (chain_of req) pin.account_id
        (pinned_snapshot store req.snapshots pin.account_id))

-- The answer of a decision that is one.
abbrev pub ok_of : ResolveDecision → Option ResolveOk
ok_of (ResolveDecision.ok d) = some d
ok_of (ResolveDecision.exhausted m e ss) = none
ok_of (ResolveDecision.pinned_unavailable m id why) = none

-- What an answer with a pinned account is, by the snapshot that the pin stands for.
pub record PinServed (req : ResolveRequest) (o : Option AccountSnapshot) (d : ResolveOk)
    : Type 0 where
  pub found : o ≡ some d.snapshot
  pub account : d.account_id ≡ d.snapshot.account_id
  pub healthy : truthy d.snapshot.error ≡ false
  pub model : Memᴰ d.served_model (chain_of req)
  pub can_serve : CanServe d.snapshot d.served_model d.provider
  pub by_pin : d.strategy ≡ ServedBy.by_pin

pinned_decision-ok :
    (req : ResolveRequest) (id : Text) (o : Option AccountSnapshot) {d : ResolveOk}
    → ok_of (pinned_decision req (chain_of req) id o) ≡ some d
    → PinServed req o d
unfolding pinned_decision ok_or_no_headroom pin_ok
pinned_decision-ok req id none e = cc
pinned_decision-ok req id (some snap) {d} e = elim (Bool-cases (truthy snap.error)) [
  | inl bad ↦ cc (rw bad at e)
  | inr good ↦ served (pin_loop req snap (chain_of req)) refl good (rw good at e)
]
  where
    served :
        (r : Option ResolveOk)
        → pin_loop req snap (chain_of req) ≡ r
        → truthy snap.error ≡ false
        → ok_of (ok_or_no_headroom req snap r) ≡ some d
        → PinServed req (some snap) d
    served none e good h = cc
    served (some d') e good h =
        let (m, p, mem, can, is) = pin_loop-some req snap (chain_of req) (e ∙ h) in
        rw is (record {
          found = refl;
          account = refl;
          healthy = good;
          model = mem;
          can_serve = can;
          by_pin = refl;
        })

-- A pinned session is served by the pinned account, which is not in error, with a model of the
-- request's chain that its provider serves and for which it is not fully exhausted; the answer says
-- that it was pinned.
pub resolve-pin_ok :
    (hash : Text → ℕ) (now : ℕ) (req : ResolveRequest) (store : Store) (session : Text)
    (pin : OverrideRow) {d : ResolveOk}
    → req.session ≡ some session
    → session ≢ []
    → get_pin_override store session now ≡ some pin
    → ok_of (decision (resolve_from_snapshots hash now req (some store))) ≡ some d
    → PinServed req (pinned_snapshot store req.snapshots pin.account_id) d
resolve-pin_ok hash now req store session pin {d} e ne found h =
    pinned_decision-ok req pin.account_id (pinned_snapshot store req.snapshots pin.account_id)
      (rw (resolve-pinned hash now req store session pin e ne found) at h)

-- A pinned account that is among the snapshots and not in error is turned down only where it can
-- serve no model of the chain.
pub resolve-pin_no_headroom_iff :
    (hash : Text → ℕ) (now : ℕ) (req : ResolveRequest) (store : Store) (session : Text)
    (pin : OverrideRow) (snap : AccountSnapshot)
    → req.session ≡ some session
    → session ≢ []
    → get_pin_override store session now ≡ some pin
    → pinned_snapshot store req.snapshots pin.account_id ≡ some snap
    → truthy snap.error ≡ false
    → (ok_of (decision (resolve_from_snapshots hash now req (some store))) ≡ none)
      ↔ All (CannotServe snap) (chain_of req)
unfolding pinned_decision ok_or_no_headroom
resolve-pin_no_headroom_iff hash now req store session pin snap e ne found at good =
    let (to, from) = pin_loop-none_iff req snap (chain_of req) in
    rw (resolve-pinned hash now req store session pin e ne found) (
      rw at
        (rw good ((λ h. to (shut (pin_loop req snap (chain_of req)) h)), (λ f. rw (from f) refl))))
  where
    shut : (r : Option ResolveOk) → ok_of (ok_or_no_headroom req snap r) ≡ none → r ≡ none
    shut none h = refl
    shut (some d) h = cc

-- The answer to a pinned session is recorded in the store as it was.
pub resolve_pinned-recorded :
    (now : ℕ) (req : ResolveRequest) (chain : List Text) (store : Option Store) {r : Resolved}
    → resolve_pinned now req chain store ≡ some r
    → (d : ResolveDecision) × (r ≡ recorded now req store d)
unfolding resolve_pinned pinned_session answer_pin
resolve_pinned-recorded now req chain store {r} e = go store req.session e
  where
    found :
        (st : Store) (o : Option OverrideRow)
        → answer_pin now req chain st o ≡ some r
        → (d : ResolveDecision) × (r ≡ recorded now req (some st) d)
    found st none h = cc
    found st (some pin) h = (
      pinned_decision req chain pin.account_id (pinned_snapshot st req.snapshots pin.account_id),
      sym (some-injective _ r h),
    )

    go :
        (s : Option Store) (o : Option Text)
        → pinned_session now req chain s o ≡ some r
        → (d : ResolveDecision) × (r ≡ recorded now req s d)
    go none o h = cc
    go (some st) none h = cc
    go (some st) (some []) h = cc
    go (some st) (some (c ∷ s)) h = found st (get_pin_override st (c ∷ s) now) h
