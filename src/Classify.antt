-- ===== src/Classify.antt =====
-- src/cc-classify.ts: whose credential Claude Code's live one is. What JSON.parse makes of a
-- credential and the SHA-256 of a text are parameters.
pub mod Laws
pub mod Tests
use qlb.Base.{
  Bool, true, false, not, ◌&&◌, ◌||◌, Option, none, some, List, [], ◌∷◌, ◌++◌, find, Text, codes,
  text_eq, if◌then◌else◌, or_else, is_some,
}
use qlb.Overrides.{trim}

-- A value where a token is expected: nothing, or another falsy value that is no text; a text; or a truthy
-- value that is no text.
pub data Token : Type 0 where
  no_token : Token
  text_token : Text → Token
  other_token : Token

-- `claudeAiOauth` of a credential.
pub record Oauth : Type 0 where
  pub access_token : Token
  pub refresh_token : Token

-- `oauth_of` is `parseCredentialBlob(text)?.oauth`, `sha256` the hex digest.
pub record Outside : Type 0 where
  pub oauth_of : Text → Option Oauth
  pub sha256 : Text → Text

pub record ClassifyClaudeSlot : Type 0 where
  pub account_id : Text
  pub email : Option Text
  pub org_uuid : Option Text
  pub credential : Option Text

pub record OauthAccount : Type 0 where
  pub uuid : Text
  pub email : Option Text
  pub organization_uuid : Option Text

pub record PrefetchedLiveIdentity : Type 0 where
  pub live_credential : Option Text
  pub resolved : Option OauthAccount

pub record ClassifyInput : Type 0 where
  pub outgoing : ClassifyClaudeSlot
  pub slots : List ClassifyClaudeSlot
  pub live_credential : Text
  pub provenance : PrefetchedLiveIdentity
  pub probe_verdict : Option Bool

-- `foreign` and `foreign_synced` name the other slot.
pub data Classified : Type 0 where
  own_bytes own_family own_rotated wiped alien known_foreign unresolved : Classified
  foreign foreign_synced : Text → Classified

unfoldable pub is_empty : Text → Bool
is_empty [] = true
is_empty (c ∷ s) = false

-- `typeof token === 'string' && token`.
token_text : Token → Text
token_text (text_token t) = t
token_text no_token = []
token_text other_token = []

refresh_token_of : Option Oauth → Text
unfolding token_text
refresh_token_of none = []
refresh_token_of (some oauth) = token_text oauth.refresh_token

access_token_of : Option Oauth → Text
unfolding token_text
access_token_of none = []
access_token_of (some oauth) = token_text oauth.access_token

-- `credentialFingerprint` (src/anthropic-oauth.ts).
unfoldable pub credential_fingerprint : Outside → Text → Option Text
unfolding refresh_token_of is_empty
credential_fingerprint env credential =
    let token = refresh_token_of (env.oauth_of credential) in
    if is_empty credential
    then none
    else if is_empty token
    then some (codes "sha256-full:" ++ env.sha256 credential)
    else some (codes "sha256:" ++ env.sha256 token)

unfoldable pub option_eq : Option Text → Option Text → Bool
option_eq none none = true
option_eq none (some b) = false
option_eq (some a) none = false
option_eq (some a) (some b) = text_eq a b

unfoldable pub same_credential_lineage : Outside → Option Text → Text → Bool
unfolding option_eq
same_credential_lineage env none right = false
same_credential_lineage env (some left) right =
    option_eq (credential_fingerprint env left) (credential_fingerprint env right)

-- Kept by its bytes: `slot.credential === live || sameCredentialLineage(slot.credential, live)`.
unfoldable pub holds_live : Outside → Option Text → Text → Bool
unfolding option_eq
holds_live env credential live =
    option_eq credential (some live) || same_credential_lineage env credential live

normalized_org : Option Text → Text
normalized_org org_uuid = or_else org_uuid []

non_blank : Text → Option Text
non_blank [] = none
non_blank (c ∷ s) = some (c ∷ s)

normalize_identity_field : Option Text → Option Text
unfolding non_blank
normalize_identity_field none = none
normalize_identity_field (some value) = non_blank (trim value)

unfoldable pub normalize_resolved_identity : OauthAccount → OauthAccount
unfolding normalize_identity_field
normalize_resolved_identity resolved = record {
  uuid = trim resolved.uuid;
  email = normalize_identity_field resolved.email;
  organization_uuid = normalize_identity_field resolved.organization_uuid;
}

present : Option Text → Bool
unfolding is_empty
present none = false
present (some value) = not (is_empty value)

has_complete_identity : OauthAccount → Bool
unfolding present is_empty
has_complete_identity resolved =
    not (is_empty resolved.uuid) && (present resolved.email && present resolved.organization_uuid)

same_org_when_known : Option Text → Option Text → Bool
unfolding present option_eq
same_org_when_known left right = not (present left) || (not (present right) || option_eq left right)

-- `!!token`.
has_token : Token → Bool
unfolding is_empty
has_token no_token = false
has_token (text_token t) = not (is_empty t)
has_token other_token = true

is_wiped : Option Oauth → Bool
unfolding has_token
is_wiped none = false
is_wiped (some oauth) = not (has_token oauth.access_token) && not (has_token oauth.refresh_token)

is_wiped_oauth_blob : Outside → Text → Bool
unfolding is_wiped
is_wiped_oauth_blob env credential = is_wiped (env.oauth_of credential)

by_email : List ClassifyClaudeSlot → OauthAccount → Option ClassifyClaudeSlot
unfolding present normalized_org option_eq
by_email slots resolved =
    if present resolved.email
    then find
        (λ slot.
          option_eq slot.email resolved.email
          && text_eq (normalized_org slot.org_uuid) (normalized_org resolved.organization_uuid))
        slots
    else none

by_uuid : List ClassifyClaudeSlot → OauthAccount → Option ClassifyClaudeSlot
unfolding is_empty normalized_org
by_uuid slots resolved =
    let uuid = trim resolved.uuid in
    if is_empty uuid
    then none
    else find
        (λ slot.
          text_eq (trim slot.account_id) uuid
          && text_eq (normalized_org slot.org_uuid) (normalized_org resolved.organization_uuid))
        slots

-- A recycled address: both records carry an id, and they differ.
is_recycled : OauthAccount → ClassifyClaudeSlot → Bool
unfolding is_empty
is_recycled resolved slot =
    not (is_empty (trim resolved.uuid))
    && (not (is_empty (trim slot.account_id))
        && not (text_eq (trim slot.account_id) (trim resolved.uuid)))

slot_or_uuid :
    List ClassifyClaudeSlot → OauthAccount → Option ClassifyClaudeSlot → Option ClassifyClaudeSlot
unfolding is_recycled by_uuid
slot_or_uuid slots resolved none = by_uuid slots resolved
slot_or_uuid slots resolved (some slot) =
    if is_recycled resolved slot then by_uuid slots resolved else some slot

unfoldable pub resolved_slot : List ClassifyClaudeSlot → OauthAccount → Option ClassifyClaudeSlot
unfolding by_email slot_or_uuid
resolved_slot slots resolved = slot_or_uuid slots resolved (by_email slots resolved)

-- A positive alien requires a complete identity.
alien_if_complete : OauthAccount → Classified
unfolding has_complete_identity
alien_if_complete resolved = if has_complete_identity resolved then alien else unresolved

-- The slot that the profile names.
by_slot : Outside → ClassifyInput → OauthAccount → Option ClassifyClaudeSlot → Classified
unfolding alien_if_complete is_empty
by_slot env input resolved none = alien_if_complete resolved
by_slot env input resolved (some slot) =
    if text_eq slot.account_id input.outgoing.account_id
    then own_rotated
    else if is_empty resolved.uuid || not (text_eq (trim slot.account_id) resolved.uuid)
    then alien_if_complete resolved
    else if holds_live env slot.credential input.live_credential
    then foreign_synced slot.account_id
    else foreign slot.account_id

-- The profile is the outgoing account's own.
is_own : ClassifyInput → OauthAccount → Bool
unfolding is_empty same_org_when_known
is_own input resolved =
    not (is_empty resolved.uuid)
    && (text_eq (trim input.outgoing.account_id) resolved.uuid
        && same_org_when_known input.outgoing.org_uuid resolved.organization_uuid)

by_identity : Outside → ClassifyInput → OauthAccount → Classified
unfolding is_own by_slot
by_identity env input resolved =
    if is_own input resolved
    then own_rotated
    else by_slot env input resolved (resolved_slot input.slots resolved)

-- Without a profile for these bytes, a false verdict of the probe still counts.
unproved : Option Bool → Classified
unproved none = unresolved
unproved (some true) = unresolved
unproved (some false) = known_foreign

by_provenance : Outside → ClassifyInput → Option OauthAccount → Classified
unfolding unproved by_identity option_eq
by_provenance env input none = unproved input.probe_verdict
by_provenance env input (some resolved) =
    if option_eq input.provenance.live_credential (some input.live_credential)
    then by_identity env input (normalize_resolved_identity resolved)
    else unproved input.probe_verdict

-- `classifyOutgoingCredential`; none is the exception for an empty credential.
unfoldable pub classify_outgoing_credential : Outside → ClassifyInput → Option Classified
unfolding is_empty option_eq is_wiped_oauth_blob by_provenance
classify_outgoing_credential env input =
    if is_empty input.live_credential
    then none
    else if option_eq input.outgoing.credential (some input.live_credential)
    then some own_bytes
    else if same_credential_lineage env input.outgoing.credential input.live_credential
    then some own_family
    else if is_wiped_oauth_blob env input.live_credential
    then some wiped
    else some (by_provenance env input input.provenance.resolved)

-- `prefetchLiveIdentity`, over what the two injected calls give (none where they throw).
prefetch_of : Outside → Option Text → Text → (Text → Option OauthAccount) → PrefetchedLiveIdentity
unfolding is_empty access_token_of
prefetch_of env outgoing live resolve_profile =
    let token = access_token_of (env.oauth_of live) in
    if is_empty live || (holds_live env outgoing live || is_empty token)
    then (record { live_credential = some live; resolved = none })
    else (record { live_credential = some live; resolved = resolve_profile token })

unfoldable pub prefetch_live_identity :
    Outside
    → ClassifyClaudeSlot
    → Option Text
    → (Text → Option OauthAccount)
    → PrefetchedLiveIdentity
unfolding prefetch_of
prefetch_live_identity env outgoing none resolve_profile = record {
  live_credential = none;
  resolved = none;
}
prefetch_live_identity env outgoing (some live) resolve_profile =
    prefetch_of env outgoing.credential live resolve_profile

pub data SelfSwitchAction : Type 0 where
  noop noop_diverged reconcile : SelfSwitchAction

-- A profile that is bound to these bytes.
unfoldable pub bound_to : PrefetchedLiveIdentity → Text → Bool
unfolding option_eq
bound_to provenance live =
    is_some provenance.resolved && option_eq provenance.live_credential (some live)

unfoldable pub decide_self_switch_action :
    Outside → ClassifyClaudeSlot → Option Text → PrefetchedLiveIdentity → SelfSwitchAction
unfolding is_empty bound_to
decide_self_switch_action env outgoing none provenance = noop
decide_self_switch_action env outgoing (some live) provenance =
    if is_empty live || holds_live env outgoing.credential live
    then noop
    else if bound_to provenance live
    then reconcile
    else noop_diverged

-- `mayConsumeCredential`.
unfoldable pub may_consume_credential : Bool → Bool
may_consume_credential degraded = not degraded
