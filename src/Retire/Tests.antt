-- ===== src/Retire/Tests.antt =====
-- A retirement at a concrete world.
use qlb.Base.{
  ℕ, ◌≡◌, refl, true, false, none, some, List, [], ◌∷◌, ◌++◌, Text, codes, suc, zero, text_eq,
}
use qlb.Store.Config.{lookup}
use qlb.Retire.{
  RetireHarness, claude_code, RetireDecision, MigrationRow, Node, RetireWorld, Paths, RetireResult,
  unsafe_file_path, has_auth_flag, retire_native_store,
}
use qlb.Retire.Laws.{Soaked, Kept, retire_native_store-Kept}

flagged : has_auth_flag (codes "got AUTH_revoked") ≡ true
unfolding has_auth_flag qlb.Base.starts_with qlb.Base.to_lower_case
flagged = refl

not_flagged : has_auth_flag (codes "oauth_x auth_ ") ≡ false
unfolding has_auth_flag qlb.Base.starts_with qlb.Base.to_lower_case
not_flagged = refl

abbrev plain_paths : Paths
plain_paths = record {
  resolve = λ path. path;
  root = λ path. codes "/";
  home = codes "/h/q";
  home_parent = codes "/h";
  sha256 = λ text. text;
  sidecar_text = λ harness path backup digest now. digest;
}

abbrev clean_decision : RetireDecision
clean_decision = record {
  ts = 20;
  harness = some (codes "claude-code");
  mode = codes "proxy";
  reason = [];
  outcome = none;
}

abbrev repeat : ℕ → List RetireDecision
repeat zero = []
repeat (suc n) = clean_decision ∷ repeat n

-- Migrated at 10, with twenty clean decisions.
abbrev soaked_world : RetireWorld
soaked_world = record {
  decisions = repeat 20;
  migrations =
      (
        codes "claude-code",
        record {
          state = codes "QLB_OWNED";
          updated_at = 10;
          committed_at = none;
          retired_at = none;
          backup_path = none;
        },
      )
      ∷ [];
  gate_is_no_go = true;
  files = (codes "/c", Node.file (codes "key")) ∷ [];
}

result_world : RetireResult → RetireWorld
result_world (RetireResult.refused r) = soaked_world
result_world (RetireResult.retired w path) = w

abbrev after_week : RetireResult
after_week =
    retire_native_store plain_paths claude_code 604800010 (codes "/c") true true (λ w. w)
      soaked_world

retires : after_week ≡ RetireResult.retired (result_world after_week) (codes "/c")
unfolding retire_native_store result_world qlb.Retire.check_retirement_eligibility lookup text_eq
    qlb.Retire.harness_name qlb.Retire.committed_at_of qlb.Retire.ok_count
    qlb.Retire.decisions_since qlb.Retire.classify_decision_outcome has_auth_flag
    qlb.Base.starts_with qlb.Base.to_lower_case qlb.Retire.failed_count unsafe_file_path
retires = refl

retire_native_store-Kept_example :
    Soaked soaked_world claude_code 604800010
    × (true ≡ true)
    × (true ≡ true)
    × (codes "/c" ≡ codes "/c")
    × (unsafe_file_path plain_paths (codes "/c") ≡ false)
    × Kept (codes "/c") soaked_world (result_world after_week)
retire_native_store-Kept_example =
    retire_native_store-Kept plain_paths claude_code 604800010 (codes "/c") true true (λ w. w)
      soaked_world (result_world after_week) (codes "/c") retires
