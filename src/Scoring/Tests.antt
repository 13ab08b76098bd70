-- ===== src/Scoring/Tests.antt =====
-- The worked examples of docs/ARCHITECTURE.md, and the theorems at them.
use qlb.Base.{
  ℕ, ◌*◌, ◌≡◌, refl, ◌⊎◌, ◌↔◌, true, false, none, some, List, [], ◌∷◌, Memᴰ, ℤ, pos, ◌≤ℤ◌, is_pos,
  Text, codes, All, arith, to_lower_case,
}
use qlb.Types.{
  Confidence, authoritative, stale, advisory, unknown, BucketReading, AccountSnapshot, poll,
}
use qlb.Scoring.{
  bucket_class, bucket_at, reading_term, percent, default_ceiling, all_in_ceiling,
  provider_for_model, relevant_buckets, bucket_term, round, score_account, terms,
}
use qlb.Scoring.Laws.{score_account-le, score_account-attained, score_account-pos_iff, HasRoom}
use qlb.Scoring.Ceiling.{score_account-mono, score-without_unproven, without_unproven}
use qlb.Scoring.Models.{provider_for_model-lower}

abbrev pub gauge : Confidence → ℕ → BucketReading
gauge c used = record {
  used_pct = some (used * percent);
  used = none;
  limit = none;
  remaining = none;
  reset_at = none;
  window_min = none;
  source = poll;
  confidence = c;
  fetched_at = 0;
  detail = none;
}

abbrev pub claude : Text → List (Text × BucketReading) → AccountSnapshot
claude name bs = record {
  account_id = name;
  provider = codes "anthropic";
  label = name;
  buckets = bs;
  error = none;
  failed = false;
}

abbrev sonnet : Text
sonnet = codes "claude-sonnet-5"

-- Worked example 1: swapped headrooms.
abbrev account_a : AccountSnapshot
account_a =
    claude (codes "A")
      ((codes "5h", gauge authoritative 70) ∷ (codes "7d", gauge authoritative 20) ∷ [])

abbrev account_b : AccountSnapshot
account_b =
    claude (codes "B")
      ((codes "5h", gauge authoritative 40) ∷ (codes "7d", gauge authoritative 65) ∷ [])

a_scores_10 : score_account account_a sonnet default_ceiling ≡ pos (10 * percent)
unfolding score_account relevant_buckets bucket_class bucket_at bucket_term reading_term
a_scores_10 = refl

b_scores_9 : score_account account_b sonnet default_ceiling ≡ pos (9 * percent)
unfolding score_account relevant_buckets bucket_class bucket_at bucket_term reading_term
b_scores_9 = refl

-- Worked example 2: a stale reading at half its discounted headroom, and an unproven one.
abbrev account_g : AccountSnapshot
account_g = claude (codes "G") (
    (codes "5h", gauge authoritative 50)
    ∷ (codes "7d", gauge stale 40)
    ∷ (codes "7d:Sonnet", gauge unknown 0)
    ∷ [])

g_scores_12 : score_account account_g sonnet default_ceiling ≡ pos (12 * percent)
unfolding score_account relevant_buckets bucket_class bucket_at bucket_term reading_term
g_scores_12 = refl

abbrev account_i : AccountSnapshot
account_i = claude (codes "I") ((codes "7d:Sonnet", gauge advisory 40) ∷ [])

i_scores_1 : score_account account_i sonnet default_ceiling ≡ pos percent
unfolding score_account relevant_buckets bucket_class bucket_at bucket_term reading_term
i_scores_1 = refl

a_first : Memᴰ (codes "5h") (relevant_buckets account_a sonnet)
unfolding relevant_buckets
a_first = Memᴰ.head refl

score_account-le_test :
    score_account account_a sonnet default_ceiling ≤ℤ round (pos (1000 * percent))
unfolding bucket_term reading_term bucket_at bucket_class
score_account-le_test =
    score_account-le account_a sonnet default_ceiling (codes "5h") (pos (1000 * percent)) a_first
      refl

score_account-attained_test :
    ((terms account_i default_ceiling (relevant_buckets account_i sonnet) ≡ [])
      × (score_account account_i sonnet default_ceiling ≡ pos percent))
    ⊎ ((k : Text) × (t : ℤ) × Memᴰ k (relevant_buckets account_i sonnet)
        × (bucket_term account_i k default_ceiling ≡ some t)
        × (score_account account_i sonnet default_ceiling ≡ round t))
score_account-attained_test = score_account-attained account_i sonnet default_ceiling

score_account-pos_iff_example :
    (is_pos (score_account account_b sonnet default_ceiling) ≡ true)
    ↔ All (HasRoom account_b default_ceiling) (relevant_buckets account_b sonnet)
score_account-pos_iff_example = score_account-pos_iff account_b sonnet default_ceiling

score_account-mono_example :
    score_account account_g sonnet default_ceiling ≤ℤ score_account account_g sonnet all_in_ceiling
score_account-mono_example =
    score_account-mono account_g sonnet default_ceiling all_in_ceiling (omega arith)

score-without_unproven_example :
    score_account (without_unproven account_i) sonnet default_ceiling
    ≡ score_account account_i sonnet default_ceiling
score-without_unproven_example = score-without_unproven account_i sonnet default_ceiling

provider_for_model-lower_test :
    provider_for_model (to_lower_case (codes "GPT-5")) ≡ provider_for_model (codes "GPT-5")
provider_for_model-lower_test = provider_for_model-lower (codes "GPT-5")
