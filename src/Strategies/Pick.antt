-- ===== src/Strategies/Pick.antt =====
-- src/strategies.ts: what a strategy is given and returns, and the legacy ids of Codex accounts.
use qlb.Base.{
  ℕ, ◌≡◌, Bool, false, not, ◌&&◌, Option, none, some, List, [], ◌∷◌, ℤ, is_pos, Text, codes,
  text_eq, text_lt, after_first, truthy, if◌then◌else◌, filter, is_some,
}
use qlb.Types.{AccountSnapshot}
use qlb.Store.{Store, DecisionRow}
use qlb.Scoring.{Strategy, default_ceiling, all_in_ceiling, score_account}

pub data CeilingMode : Type 0 where
  headroom_mode all_in : CeilingMode

pub record Scored : Type 0 where
  pub snapshot : AccountSnapshot
  pub score : ℤ

pub record StrategyPick : Type 0 where
  pub snapshot : AccountSnapshot
  pub score : ℤ
  pub mode : CeilingMode
  pub ceiling : ℕ
  pub strategy : Strategy

pub record StrategyContext : Type 0 where
  pub snapshots : List AccountSnapshot
  pub model : Text
  pub session : Option Text
  pub drain_first_ids : List Text
  pub persist : Bool
  pub alias_snapshots : Option (List AccountSnapshot)

-- `!snapshot.error`.
unfoldable pub not_errored : AccountSnapshot → Bool
not_errored snapshot = not (truthy snapshot.error)

unfoldable pub by_account_id : AccountSnapshot → AccountSnapshot → Bool
by_account_id a b = text_lt a.account_id b.account_id

has_colon : Text → Bool
has_colon s = is_some (after_first b':' s)

bare_id_is : Text → AccountSnapshot → Bool
bare_id_is stored_id snapshot =
    text_eq snapshot.provider (codes "openai-codex")
    && elim (after_first b':' snapshot.account_id) [
      | none ↦ false
      | some bare ↦ text_eq bare stored_id
    ]

only {ℓ} : {A : Type ℓ} → List A → Option A
only [] = none
only (x ∷ []) = some x
only (x ∷ y ∷ xs) = none

unfoldable pub find_unique_codex_alias : Text → List AccountSnapshot → Option AccountSnapshot
unfolding has_colon bare_id_is only
find_unique_codex_alias stored_id snapshots =
    if has_colon stored_id then none else only (filter (bare_id_is stored_id) snapshots)

unfoldable pub as_pick : CeilingMode → ℕ → Strategy → Scored → StrategyPick
as_pick mode ceiling strategy best = record {
  snapshot = best.snapshot;
  score = best.score;
  mode = mode;
  ceiling = ceiling;
  strategy = strategy;
}

-- The score that a rotating strategy reports: at the default ceiling where that is positive.
unfoldable pub reported : Strategy → AccountSnapshot → Text → StrategyPick
reported strategy snapshot model =
    let score = score_account snapshot model default_ceiling in
    let positive = is_pos score in
    record {
      snapshot = snapshot;
      score = if positive then score else score_account snapshot model all_in_ceiling;
      mode = if positive then headroom_mode else all_in;
      ceiling = if positive then default_ceiling else all_in_ceiling;
      strategy = strategy;
    }

-- A result that writes nothing where it picks nothing.
abbrev pub Quiet : Option Store → Option Store × Option StrategyPick → Type 0
Quiet store r = r.1 ≡ none → r.0 ≡ store

-- The log of decisions, and the number of the next one.
unfoldable pub logged : Option Store → Option (List DecisionRow × ℕ)
logged none = none
logged (some store) = some (store.decisions, store.next_decision_id)
