-- ===== src/Policy.antt =====
-- src/policy.ts: the least effort that a policy grants to a Codex request, and the harness of a path.
pub mod Tests
use qlb.Base.{
  Bool, true, false, ◌||◌, Option, none, some, List, [], ◌∷◌, ◌≡◌, refl, ℤ, pos, negsuc, ltb_ℤ,
  ◌≤ℤ◌, ◌⊎◌, Text, codes, text_eq, text_eq_refl, starts_with, if◌then◌else◌, Bool-cases, inl, inr,
  ◌≢◌, arith,
}
use qlb.Store.Config.{lookup, upsert, lookup-upsert}

pub data PolicyHarness : Type 0 where
  claude_code codex : PolicyHarness

unfoldable pub harness_for_path : Text → Option PolicyHarness
harness_for_path path =
    if text_eq path (codes "/v1/messages") || starts_with path (codes "/v1/messages/")
    then some claude_code
    else if text_eq path (codes "/v1/responses")
        || text_eq path (codes "/backend-api/codex/responses")
    then some codex
    else none

-- `effortRank`; an effort that is not known ranks below every other.
unfoldable pub effort_rank : Text → ℤ
effort_rank effort =
    if text_eq effort (codes "low")
    then pos 0
    else if text_eq effort (codes "medium")
    then pos 1
    else if text_eq effort (codes "high")
    then pos 2
    else if text_eq effort (codes "max")
    then pos 3
    else negsuc 0

-- A field of `body.reasoning`: a string, or a value that is none.
pub data Field : Type 0 where
  string : Text → Field
  no_string : Field

-- `body.reasoning`, where it is an object; the body's other fields stay as they are.
abbrev pub Reasoning : Type 0
Reasoning = Option (List (Text × Field))

fields_of : Reasoning → List (Text × Field)
fields_of none = []
fields_of (some fields) = fields

string_of : Option Field → Option Text
string_of none = none
string_of (some no_string) = none
string_of (some (string t)) = some t

-- `reasoning.effort`, where it is a string.
unfoldable pub effort_of : Reasoning → Option Text
unfolding fields_of string_of
effort_of r = string_of (lookup (codes "effort") (fields_of r))

set_effort : Reasoning → Text → Reasoning
unfolding fields_of
set_effort r effort = some (upsert (codes "effort") (string effort) (fields_of r))

raise_over : Reasoning → Text → Option Text → Reasoning × Bool
unfolding set_effort effort_rank
raise_over r policy none = (set_effort r policy, false)
raise_over r policy (some []) = (set_effort r policy, false)
raise_over r policy (some (c ∷ current)) =
    if ltb_ℤ (effort_rank (c ∷ current)) (effort_rank policy)
    then (set_effort r policy, true)
    else (r, false)

-- `applyCodexEffort`: the reasoning after it, and whether the effort was raised.
unfoldable pub apply_codex_effort : Reasoning → Text → Reasoning × Bool
unfolding raise_over effort_of
apply_codex_effort r policy = raise_over r policy (effort_of r)

-- The effort of a request after the policy.
abbrev pub effort_after : Reasoning → Text → Option Text
effort_after r policy = effort_of (apply_codex_effort r policy).0

effort_of-set : (r : Reasoning) (e : Text) → effort_of (set_effort r e) ≡ some e
unfolding effort_of set_effort
effort_of-set r e = rw (
  lookup-upsert (codes "effort") (codes "effort") (string e) (fields_of r),
  text_eq_refl (codes "effort"),
)

-- A request that names an effort keeps it, and its fields stay as they are, unless the policy's effort
-- ranks strictly higher: then the effort is the policy's. It is marked as raised then, and only then. So
-- the rank of its effort never falls, and is no lower than the policy's.
pub apply_codex_effort-raises :
    (r : Reasoning) (policy current : Text)
    → effort_of r ≡ some current
    → current ≢ []
    → ((ltb_ℤ (effort_rank current) (effort_rank policy) ≡ true)
        × (effort_after r policy ≡ some policy)
        × ((apply_codex_effort r policy).1 ≡ true))
      ⊎ ((effort_rank policy ≤ℤ effort_rank current) × (apply_codex_effort r policy ≡ (r, false)))
unfolding apply_codex_effort
apply_codex_effort-raises r policy [] e ne = absurd (ne refl)
apply_codex_effort-raises r policy (c ∷ cs) e ne =
    elim (Bool-cases (ltb_ℤ (effort_rank (c ∷ cs)) (effort_rank policy))) [
      | inl higher ↦ inl (
        higher,
        rw e (unfold raise_over in rw higher (effort_of-set r policy)),
        rw e (unfold raise_over in rw higher),
      )
      | inr not_higher ↦ inr (ground arith, rw e (unfold raise_over in rw not_higher))
    ]
