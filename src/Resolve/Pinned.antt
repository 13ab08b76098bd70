-- ===== src/Resolve/Pinned.antt =====
-- src/resolve.ts: the answer to a request whose session is pinned.
pub mod Laws
use qlb.Base.{
  ℕ, Bool, true, false, not, ◌&&◌, Option, none, some, List, [], ◌∷◌, Text, text_eq, truthy,
  if◌then◌else◌,
}
use qlb.Types.{AccountSnapshot}
use qlb.Scoring.{all_in_ceiling, score_account, provider_for_model}
use qlb.Store.{Store, OverrideRow, DecisionMode}
use qlb.Store.Overrides.{get_pin_override}
use qlb.Strategies.Headroom.{is_fully_exhausted}
use qlb.Resolve.{
  ResolveRequest, ServedBy, ResolveOk, PinFailure, ResolveDecision, Resolved, recorded,
  pinned_snapshot,
}

pin_ok : ResolveRequest → AccountSnapshot → Text → Text → ResolveOk
pin_ok req snap model provider = record {
  provider = provider;
  account_id = snap.account_id;
  requested_model = req.model;
  served_model = model;
  mode = DecisionMode.pin;
  strategy = ServedBy.by_pin;
  snapshot = snap;
  score = score_account snap model all_in_ceiling;
  ceiling = all_in_ceiling;
}

-- One turn of the loop over the chain; the last argument is the answer of the later turns.
pin_turn :
    ResolveRequest → AccountSnapshot → Text → Option Text → Option ResolveOk → Option ResolveOk
unfolding pin_ok
pin_turn req snap model none later = later
pin_turn req snap model (some provider) later =
    if text_eq snap.provider provider && not (is_fully_exhausted snap model)
    then some (pin_ok req snap model provider)
    else later

pin_loop : ResolveRequest → AccountSnapshot → List Text → Option ResolveOk
unfolding pin_turn
pin_loop req snap [] = none
pin_loop req snap (model ∷ rest) =
    pin_turn req snap model (provider_for_model model) (pin_loop req snap rest)

ok_or_no_headroom : ResolveRequest → AccountSnapshot → Option ResolveOk → ResolveDecision
ok_or_no_headroom req snap (some d) = ResolveDecision.ok d
ok_or_no_headroom req snap none =
    ResolveDecision.pinned_unavailable req.model snap.account_id PinFailure.no_headroom

-- The answer for the account of a pin and what `pinned_snapshot` finds for it.
pinned_decision : ResolveRequest → List Text → Text → Option AccountSnapshot → ResolveDecision
unfolding pin_loop ok_or_no_headroom
pinned_decision req chain id none =
    ResolveDecision.pinned_unavailable req.model id PinFailure.not_in_candidates
pinned_decision req chain id (some snap) =
    if truthy snap.error
    then ResolveDecision.pinned_unavailable req.model snap.account_id PinFailure.in_error_state
    else ok_or_no_headroom req snap (pin_loop req snap chain)

answer_pin : ℕ → ResolveRequest → List Text → Store → Option OverrideRow → Option Resolved
unfolding pinned_decision pinned_snapshot recorded
answer_pin now req chain store none = none
answer_pin now req chain store (some pin) = some (
    recorded now req (some store) (
      pinned_decision req chain pin.account_id
        (pinned_snapshot store req.snapshots pin.account_id)))

pinned_session : ℕ → ResolveRequest → List Text → Option Store → Option Text → Option Resolved
unfolding answer_pin get_pin_override
pinned_session now req chain (some store) (some (c ∷ session)) =
    answer_pin now req chain store (get_pin_override store (c ∷ session) now)
pinned_session now req chain (some store) (some []) = none
pinned_session now req chain (some store) none = none
pinned_session now req chain none session = none

-- `resolvePinned`; nothing where the session has no pin.
unfoldable pub resolve_pinned : ℕ → ResolveRequest → List Text → Option Store → Option Resolved
unfolding pinned_session
resolve_pinned now req chain store = pinned_session now req chain store req.session
