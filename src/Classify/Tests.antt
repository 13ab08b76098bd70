-- ===== src/Classify/Tests.antt =====
-- Classifications at concrete credentials.
use qlb.Base.{◌≡◌, refl, none, some, [], ◌∷◌, Text, codes, text_eq}
use qlb.Classify.{
  text_token, Oauth, Outside, ClassifyClaudeSlot, OauthAccount, ClassifyInput, Classified,
  classify_outgoing_credential, same_credential_lineage, credential_fingerprint,
}
use qlb.Classify.Laws.{RestsOn, classify-RestsOn}

-- A credential is its own refresh token here, and its own digest.
abbrev plain : Outside
plain = record {
  oauth_of =
      λ text. some (record { access_token = text_token text; refresh_token = text_token text });
  sha256 = λ text. text;
}

abbrev slot_of : Text → Text → ClassifyClaudeSlot
slot_of id credential = record {
  account_id = id;
  email = none;
  org_uuid = none;
  credential = some credential;
}

-- `a` is outgoing, and the live credential is `b`'s.
abbrev b_is_live : ClassifyInput
b_is_live = record {
  outgoing = slot_of (codes "a") (codes "ca");
  slots = slot_of (codes "a") (codes "ca") ∷ slot_of (codes "b") (codes "cb") ∷ [];
  live_credential = codes "new";
  provenance = record {
    live_credential = some (codes "new");
    resolved = some (record { uuid = codes " b "; email = none; organization_uuid = none });
  };
  probe_verdict = none;
}

b_is_live-foreign :
    classify_outgoing_credential plain b_is_live ≡ some (Classified.foreign (codes "b"))
unfolding classify_outgoing_credential text_eq same_credential_lineage credential_fingerprint
    qlb.Classify.normalize_resolved_identity qlb.Overrides.trim qlb.Classify.resolved_slot
    qlb.Classify.holds_live
b_is_live-foreign = refl

classify-RestsOn_example : RestsOn b_is_live (Classified.foreign (codes "b"))
classify-RestsOn_example =
    classify-RestsOn plain b_is_live (Classified.foreign (codes "b")) b_is_live-foreign
