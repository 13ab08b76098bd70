-- ===== src/Scoring/Models.antt =====
-- Which provider serves a model.
use qlb.Base.{ℕ, ◌+◌, ◌≡◌, refl, ap, [], ◌∷◌, Text, to_lower_case, if◌then◌else◌, leb, ◌&&◌, arith}
use qlb.Scoring.{provider_for_lower, provider_for_model}

lower_idem : (s : Text) → to_lower_case (to_lower_case s) ≡ to_lower_case s
unfolding to_lower_case
lower_idem [] = refl
lower_idem (c ∷ s) = cc (lower_one c, lower_idem s)
  where
    lower_one :
        (d : ℕ)
        → (let e = if leb b'A' d && leb d b'Z' then d + 32 else d in
            if leb b'A' e && leb e b'Z' then e + 32 else e)
          ≡ (if leb b'A' d && leb d b'Z' then d + 32 else d)
    lower_one d = ground arith

-- The provider of a model does not depend on the case of its letters.
pub provider_for_model-lower :
    (m : Text) → provider_for_model (to_lower_case m) ≡ provider_for_model m
unfolding provider_for_model
provider_for_model-lower m = ap provider_for_lower (lower_idem m)
