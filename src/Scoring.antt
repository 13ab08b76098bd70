-- ===== src/Scoring.antt =====
-- src/scoring.ts: which gauges count for a model, and the score of an account by Rule S.
-- A discount or a factor is a number of tenths, so a term is a number of units of 10⁻¹² %, and
-- the product is exact; the source's floats round it.
pub mod Terms
pub mod Laws
pub mod Ceiling
pub mod Models
pub mod Tests
use qlb.Base.{
  ℕ, suc, ◌+◌, ◌*◌, ◌/◌, ◌==◌, Bool, true, false, ◌||◌, Option, none, some, List, [], ◌∷◌, map, ℤ,
  pos, negsuc, sub_ℕ, min_ℤ, Text, codes, text_eq, starts_with, includes, ends_with, to_lower_case,
  if◌then◌else◌,
}
use qlb.Types.{Confidence, authoritative, advisory, stale, unknown, BucketReading, AccountSnapshot}

-- 1 %, in units of 10⁻¹⁰ %.
abbrev pub percent : ℕ
percent = 10000000000

abbrev pub unknown_score : ℤ
unknown_score = pos percent

-- In tenths.
abbrev pub stale_discount : ℕ
stale_discount = 5

abbrev pub weekly_scarcity : ℕ
weekly_scarcity = 6

abbrev pub five_h_scarcity : ℕ
five_h_scarcity = 10

abbrev pub default_ceiling : ℕ
default_ceiling = 80 * percent

abbrev pub all_in_ceiling : ℕ
all_in_ceiling = 100 * percent

abbrev pub spread_margin : ℕ
spread_margin = 10 * percent

pub data Strategy : Type 0 where
  headroom spread round_robin failover : Strategy

pub data BucketClass : Type 0 where
  five_h weekly balance other : BucketClass

-- The chain of tests on the lowered model id.
provider_for_lower : Text → Option Text
unfolding starts_with includes
provider_for_lower m =
    if starts_with m (codes "openrouter/")
      || starts_with m (codes "z-ai/")
      || includes m (codes "glm")
    then some (codes "openrouter")
    else if starts_with m (codes "claude-") || starts_with m (codes "claude")
    then some (codes "anthropic")
    else if starts_with m (codes "gpt-")
        || includes m (codes "sol")
        || includes m (codes "astra")
        || includes m (codes "luna")
        || includes m (codes "terra")
    then some (codes "openai-codex")
    else if includes m (codes "grok")
    then some (codes "xai")
    else if includes m (codes "k3") || includes m (codes "kimi")
    then some (codes "kimi-coding")
    else none

unfoldable pub provider_for_model : Text → Option Text
unfolding provider_for_lower to_lower_case
provider_for_model model_id = provider_for_lower (to_lower_case model_id)

abbrev pub keys {ℓ} : {V : Type ℓ} → List (Text × V) → List Text
keys = map λ e. e.0

unfoldable pub relevant_buckets : AccountSnapshot → Text → List Text
unfolding text_eq includes to_lower_case
relevant_buckets snapshot requested_model =
    let m = to_lower_case requested_model in
    let p = snapshot.provider in
    if text_eq p (codes "anthropic")
    then codes "5h"
      ∷ codes "7d"
      ∷ (if includes m (codes "fable")
          then codes "7d:Fable" ∷ []
          else if includes m (codes "opus")
          then codes "7d:Opus" ∷ []
          else if includes m (codes "sonnet")
          then codes "7d:Sonnet" ∷ []
          else if includes m (codes "haiku")
          then codes "7d:Haiku" ∷ []
          else [])
    else if text_eq p (codes "openai-codex")
    then codes "secondary" ∷ codes "primary" ∷ []
    else if text_eq p (codes "kimi-coding")
    then codes "5h" ∷ codes "weekly" ∷ []
    else if text_eq p (codes "xai")
    then codes "tokens" ∷ codes "requests" ∷ []
    else if text_eq p (codes "openrouter")
    then codes "credits" ∷ []
    else keys snapshot.buckets

-- `windowMin === minutes`, where the reading may have no window.
window_is : Option ℕ → ℕ → Bool
window_is none minutes = false
window_is (some w) minutes = w == minutes

unfoldable pub bucket_class : Text → Option ℕ → BucketClass
unfolding window_is text_eq starts_with ends_with
bucket_class bucket window_min =
    if window_is window_min 300
    then five_h
    else if window_is window_min 10080 || window_is window_min (7 * 24 * 60)
    then weekly
    else if text_eq bucket (codes "credits")
    then balance
    else if text_eq bucket (codes "5h")
        || text_eq bucket (codes "primary")
        || ends_with bucket (codes ":primary")
    then five_h
    else if text_eq bucket (codes "7d")
        || starts_with bucket (codes "7d:")
        || text_eq bucket (codes "secondary")
        || text_eq bucket (codes "weekly")
        || ends_with bucket (codes ":secondary")
    then weekly
    else other

unfoldable pub scarcity_discount : BucketClass → ℕ
scarcity_discount five_h = five_h_scarcity
scarcity_discount balance = five_h_scarcity
scarcity_discount weekly = weekly_scarcity
scarcity_discount other = 0

unfoldable pub confidence_factor : Confidence → Option ℕ
confidence_factor authoritative = some 10
confidence_factor stale = some stale_discount
confidence_factor advisory = none
confidence_factor unknown = none

-- `snapshot.buckets[key]`.
unfoldable pub bucket_at {ℓ} : {V : Type ℓ} → List (Text × V) → Text → Option V
bucket_at [] key = none
bucket_at ((k, v) ∷ rest) key = if text_eq k key then some v else bucket_at rest key

-- The term of a known reading, and `none` for each `continue`. `ceiling - used` may be negative;
-- the discount and the factor are not, so they go into both of its parts.
scaled_headroom : Option ℕ → Option ℕ → BucketClass → ℕ → Option ℤ
scaled_headroom none factor klass ceiling = none
scaled_headroom (some used) none klass ceiling = none
scaled_headroom (some used) (some f) other ceiling = none
scaled_headroom (some used) (some f) klass ceiling =
    let d = scarcity_discount klass in some (sub_ℕ (d * f * ceiling) (d * f * used))

-- What one pass of the loop pushes for a reading.
unfoldable pub reading_term : Text → BucketReading → ℕ → Option ℤ
unfolding confidence_factor scaled_headroom scarcity_discount
reading_term key bucket ceiling =
    scaled_headroom bucket.used_pct (confidence_factor bucket.confidence)
      (bucket_class key bucket.window_min) ceiling

term_at : Text → ℕ → Option BucketReading → Option ℤ
term_at key ceiling none = none
term_at key ceiling (some bucket) = reading_term key bucket ceiling

-- One pass of the loop.
unfoldable pub bucket_term : AccountSnapshot → Text → ℕ → Option ℤ
unfolding term_at
bucket_term snapshot key ceiling = term_at key ceiling (bucket_at snapshot.buckets key)

-- `terms.push`, or the `continue`.
collect {ℓ} : {A : Type ℓ} → Option A → List A → List A
collect none more = more
collect (some t) more = t ∷ more

-- The `for` over the relevant keys.
unfoldable pub terms : AccountSnapshot → ℕ → List Text → List ℤ
unfolding collect
terms snapshot ceiling [] = []
terms snapshot ceiling (key ∷ rest) =
    collect (bucket_term snapshot key ceiling) (terms snapshot ceiling rest)

-- `Math.min(...terms)` of at least one term.
unfoldable pub least : ℤ → List ℤ → ℤ
least t [] = t
least t (u ∷ rest) = least (min_ℤ t u) rest

-- `Math.round`, a half upwards, from units of 10⁻¹² to units of 10⁻¹⁰.
unfoldable pub round : ℤ → ℤ
round (pos n) = pos ((n + 50) / 100)
round (negsuc n) = sub_ℕ 0 ((n + 50) / 100)

unfoldable pub score_terms : List ℤ → ℤ
unfolding least round
score_terms [] = unknown_score
score_terms (t ∷ rest) = round (least t rest)

unfoldable pub score_account : AccountSnapshot → Text → ℕ → ℤ
unfolding score_terms terms
score_account snapshot requested_model ceiling =
    score_terms (terms snapshot ceiling (relevant_buckets snapshot requested_model))
