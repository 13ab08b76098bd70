-- ===== src/Classify/Laws.antt =====
-- src/cc-classify.ts: what a classification rests on.
use mathlib.Core.Option.{some-injective}
use qlb.Base.{
  ◌≡◌, refl, subst, inl, inr, Bool, true, false, not, ◌&&◌, ◌||◌, Option, none, some, List, Memᴰ,
  Text, text_eq, text_eq_iff, if◌then◌else◌, Bool-cases,
}
use qlb.Base.Sorting.{find-some}
use qlb.Overrides.{trim}
use qlb.Classify.{
  Outside, ClassifyClaudeSlot, OauthAccount, ClassifyInput, Classified, is_empty, option_eq,
  same_credential_lineage, holds_live, normalize_resolved_identity, present, has_complete_identity,
  is_wiped_oauth_blob, by_email, by_uuid, is_recycled, slot_or_uuid, resolved_slot,
  alien_if_complete, by_slot, is_own, by_identity, unproved, by_provenance,
  classify_outgoing_credential, normalized_org,
}

-- A profile that was read for these very bytes.
pub record Proved (input : ClassifyInput) : Type 0 where
  pub profile : OauthAccount
  pub known : input.provenance.resolved ≡ some profile
  pub bound : option_eq input.provenance.live_credential (some input.live_credential) ≡ true

-- The slot that the profile names by its id; not the outgoing one.
pub record Names (input : ClassifyInput) (id : Text) : Type 0 where
  pub proof : Proved input
  pub slot : ClassifyClaudeSlot
  pub listed : Memᴰ slot input.slots
  pub named : slot.account_id ≡ id
  pub other : text_eq id input.outgoing.account_id ≡ false
  pub has_id : is_empty (trim proof.profile.uuid) ≡ false
  pub same_id : trim slot.account_id ≡ trim proof.profile.uuid

-- What each answer rests on.
unfoldable pub RestsOn : ClassifyInput → Classified → Type 0
RestsOn input Classified.own_bytes = Unit
RestsOn input Classified.own_family = Unit
RestsOn input Classified.wiped = Unit
RestsOn input Classified.known_foreign = input.probe_verdict ≡ some false
RestsOn input Classified.unresolved = Unit
RestsOn input Classified.own_rotated = Proved input
RestsOn input Classified.alien = Proved input
RestsOn input (Classified.foreign id) = Names input id
RestsOn input (Classified.foreign_synced id) = Names input id

unproved-RestsOn :
    (input : ClassifyInput) (o : Option Bool) → input.probe_verdict ≡ o → RestsOn input (unproved o)
unfolding unproved RestsOn
unproved-RestsOn input none e = tt
unproved-RestsOn input (some true) e = tt
unproved-RestsOn input (some false) e = e

alien-RestsOn :
    (input : ClassifyInput) (resolved : OauthAccount)
    → Proved input
    → RestsOn input (alien_if_complete resolved)
unfolding alien_if_complete RestsOn
alien-RestsOn input resolved proof = elim (Bool-cases (has_complete_identity resolved)) [
  | inl whole ↦ rw whole proof
  | inr partial ↦ rw partial tt
]

by_uuid-listed :
    (slots : List ClassifyClaudeSlot) (resolved : OauthAccount) (slot : ClassifyClaudeSlot)
    → by_uuid slots resolved ≡ some slot
    → Memᴰ slot slots
unfolding by_uuid
by_uuid-listed slots resolved slot e = elim (Bool-cases (is_empty (trim resolved.uuid))) [
  | inl blank ↦ cc (rw blank at e)
  | inr given ↦
      (find-some
        (λ s.
          text_eq (trim s.account_id) (trim resolved.uuid)
          && text_eq (normalized_org s.org_uuid) (normalized_org resolved.organization_uuid))
        slots (rw given at e)).0
]

by_email-listed :
    (slots : List ClassifyClaudeSlot) (resolved : OauthAccount) (slot : ClassifyClaudeSlot)
    → by_email slots resolved ≡ some slot
    → Memᴰ slot slots
unfolding by_email
by_email-listed slots resolved slot e = elim (Bool-cases (present resolved.email)) [
  | inr missing ↦ cc (rw missing at e)
  | inl given ↦
      (find-some
        (λ s.
          option_eq s.email resolved.email
          && text_eq (normalized_org s.org_uuid) (normalized_org resolved.organization_uuid))
        slots (rw given at e)).0
]

slot_or_uuid-listed :
    (slots : List ClassifyClaudeSlot) (resolved : OauthAccount) (o : Option ClassifyClaudeSlot)
    (slot : ClassifyClaudeSlot)
    → by_email slots resolved ≡ o
    → slot_or_uuid slots resolved o ≡ some slot
    → Memᴰ slot slots
unfolding slot_or_uuid
slot_or_uuid-listed slots resolved none slot is e = by_uuid-listed slots resolved slot e
slot_or_uuid-listed slots resolved (some s) slot is e = elim (Bool-cases (is_recycled resolved s)) [
  | inl recycled ↦ by_uuid-listed slots resolved slot (rw recycled at e)
  | inr kept ↦
      subst (λ t. Memᴰ t slots) (some-injective s slot (rw kept at e))
        (by_email-listed slots resolved s is)
]

by_slot-RestsOn :
    (env : Outside) (input : ClassifyInput) (proof : Proved input) (o : Option ClassifyClaudeSlot)
    → resolved_slot input.slots (normalize_resolved_identity proof.profile) ≡ o
    → RestsOn input (by_slot env input (normalize_resolved_identity proof.profile) o)
unfolding by_slot RestsOn normalize_resolved_identity
by_slot-RestsOn env input proof none e =
    alien-RestsOn input (normalize_resolved_identity proof.profile) proof
by_slot-RestsOn env input proof (some slot) e =
    let profile = normalize_resolved_identity proof.profile in
    elim (Bool-cases (text_eq slot.account_id input.outgoing.account_id)) [
      | inl mine ↦ rw mine proof
      | inr other ↦
          elim (Bool-cases (
            is_empty (trim proof.profile.uuid)
            || not (text_eq (trim slot.account_id) (trim proof.profile.uuid)))) [
              | inl unsure ↦ rw (other, unsure) (alien-RestsOn input profile proof)
              | inr sure ↦
                  rw (other, sure)
                    (synced_or_not slot.account_id
                      (holds_live env slot.credential input.live_credential)
                      (record {
                        proof = proof;
                        slot = slot;
                        listed =
                            slot_or_uuid-listed input.slots profile (by_email input.slots profile)
                              slot refl (unfold resolved_slot in e);
                        named = refl;
                        other = other;
                        has_id =
                            (no_either (is_empty (trim proof.profile.uuid))
                              (text_eq (trim slot.account_id) (trim proof.profile.uuid)) sure).0;
                        same_id =
                            (text_eq_iff (trim slot.account_id) (trim proof.profile.uuid)).0
                              (no_either (is_empty (trim proof.profile.uuid))
                                (text_eq (trim slot.account_id) (trim proof.profile.uuid)) sure).1;
                      }))
            ]
    ]
  where
    synced_or_not :
        (id : Text) (synced : Bool)
        → Names input id
        → RestsOn input (if synced then Classified.foreign_synced id else Classified.foreign id)
    synced_or_not id true names = names
    synced_or_not id false names = names

    no_either : (a b : Bool) → a || not b ≡ false → (a ≡ false) × (b ≡ true)
    no_either true b e = cc
    no_either false true e = (refl, refl)
    no_either false false e = cc

by_identity-RestsOn :
    (env : Outside) (input : ClassifyInput) (proof : Proved input)
    → RestsOn input (by_identity env input (normalize_resolved_identity proof.profile))
unfolding by_identity RestsOn
by_identity-RestsOn env input proof =
    let profile = normalize_resolved_identity proof.profile in
    elim (Bool-cases (is_own input profile)) [
      | inl mine ↦ rw mine proof
      | inr other ↦
          rw other (by_slot-RestsOn env input proof (resolved_slot input.slots profile) refl)
    ]

by_provenance-RestsOn :
    (env : Outside) (input : ClassifyInput) (o : Option OauthAccount)
    → input.provenance.resolved ≡ o
    → RestsOn input (by_provenance env input o)
unfolding by_provenance
by_provenance-RestsOn env input none e = unproved-RestsOn input input.probe_verdict refl
by_provenance-RestsOn env input (some profile) e =
    elim (Bool-cases (option_eq input.provenance.live_credential (some input.live_credential))) [
      | inr moved ↦ rw moved (unproved-RestsOn input input.probe_verdict refl)
      | inl same ↦
          rw same
            (by_identity-RestsOn env input (record { profile = profile; known = e; bound = same }))
    ]

lineage_or_identity :
    (env : Outside) (input : ClassifyInput) (c : Classified)
    → (if same_credential_lineage env input.outgoing.credential input.live_credential
        then some Classified.own_family
        else if is_wiped_oauth_blob env input.live_credential
        then some Classified.wiped
        else some (by_provenance env input input.provenance.resolved))
      ≡ some c
    → RestsOn input c
unfolding RestsOn
lineage_or_identity env input c e =
    elim (Bool-cases
      (same_credential_lineage env input.outgoing.credential input.live_credential)) [
        | inl family ↦
            subst (RestsOn input) (some-injective Classified.own_family c (rw family at e)) tt
        | inr stranger ↦ elim (Bool-cases (is_wiped_oauth_blob env input.live_credential)) [
          | inl empty ↦
              subst (RestsOn input) (some-injective Classified.wiped c (rw (stranger, empty) at e))
                tt
          | inr full ↦
              subst (RestsOn input)
                (some-injective (by_provenance env input input.provenance.resolved) c
                  (rw (stranger, full) at e))
                (by_provenance-RestsOn env input input.provenance.resolved refl)
        ]
      ]

-- A classification by identity rests on a profile that was read for the very bytes that are live: a
-- rotated or an alien credential is never concluded from a stale profile, another slot is named only
-- by the profile's own id, and it is a listed slot other than the outgoing one. A known foreign one
-- rests on a false verdict of the probe.
pub classify-RestsOn :
    (env : Outside) (input : ClassifyInput) (c : Classified)
    → classify_outgoing_credential env input ≡ some c
    → RestsOn input c
unfolding classify_outgoing_credential RestsOn
classify-RestsOn env input c e = elim (Bool-cases (is_empty input.live_credential)) [
  | inl empty ↦ cc (rw empty at e)
  | inr given ↦
      elim (Bool-cases (option_eq input.outgoing.credential (some input.live_credential))) [
        | inl bytes ↦
            subst (RestsOn input) (some-injective Classified.own_bytes c (rw (given, bytes) at e))
              tt
        | inr differ ↦ lineage_or_identity env input c (rw (given, differ) at e)
      ]
]
