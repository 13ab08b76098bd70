-- ===== src/Policy/Tests.antt =====
-- A request of low effort under a policy of high effort.
use qlb.Base.{◌≡◌, ◌≢◌, refl, some, [], ◌∷◌, true, false, ltb_ℤ, ◌≤ℤ◌, ◌⊎◌, codes, text_eq}
use qlb.Store.Config.{lookup}
use qlb.Policy.{
  Reasoning, Field, effort_of, effort_rank, effort_after, apply_codex_effort,
  apply_codex_effort-raises,
}

abbrev low_request : Reasoning
low_request = some ((codes "effort", Field.string (codes "low")) ∷ [])

asks_low : effort_of low_request ≡ some (codes "low")
unfolding effort_of lookup text_eq
asks_low = refl

low_ne : codes "low" ≢ []
low_ne e = cc

apply_codex_effort-raises_example :
    ((ltb_ℤ (effort_rank (codes "low")) (effort_rank (codes "high")) ≡ true)
      × (effort_after low_request (codes "high") ≡ some (codes "high"))
      × ((apply_codex_effort low_request (codes "high")).1 ≡ true))
    ⊎ ((effort_rank (codes "high") ≤ℤ effort_rank (codes "low"))
        × (apply_codex_effort low_request (codes "high") ≡ (low_request, false)))
apply_codex_effort-raises_example =
    apply_codex_effort-raises low_request (codes "high") (codes "low") asks_low low_ne
