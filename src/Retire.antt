-- ===== src/Retire.antt =====
-- src/retire.ts: retiring the credential file of Claude Code or the Codex CLI. Its world has the
-- decisions, the migrations, the verdict of the Codex gate and the files. What JSON.parse finds in a
-- text of the store stands in the row; the paths of node, SHA-256 and the text of the sidecar are
-- parameters. From the look at the path to the new rows is one step, while the source makes separate calls
-- on the file system: for Codex it holds the auth lock over them, for Claude Code it holds none. That the
-- lock is found compromised, which may throw after the rename, is left out.
pub mod Laws
pub mod Tests
use qlb.Base.{
  ℕ, ◌+◌, ◌==◌, Bool, true, false, not, ◌&&◌, ◌||◌, Option, none, some, List, [], ◌∷◌, ◌++◌, filter,
  length, Text, codes, text_eq, starts_with, to_lower_case, if◌then◌else◌, ltb, leb, is_some,
  or_else,
}
use qlb.Store.Config.{lookup, upsert}

pub data RetireHarness : Type 0 where
  claude_code codex_cli : RetireHarness

abbrev pub soak_ms : ℕ
soak_ms = 604800000

abbrev pub min_ok_decisions : ℕ
min_ok_decisions = 20

-- `outcome` is `snapshot_json.outcome`, where it is a text.
pub record RetireDecision : Type 0 where
  pub ts : ℕ
  pub harness : Option Text
  pub mode : Text
  pub reason : Text
  pub outcome : Option Text

-- `committed_at` is that of `detail_json`, where it is a number; `retired_at` and `backup_path` are
-- of what a retirement adds to it.
pub record MigrationRow : Type 0 where
  pub state : Text
  pub updated_at : ℕ
  pub committed_at : Option ℕ
  pub retired_at : Option ℕ
  pub backup_path : Option Text

pub data Node : Type 0 where
  file : Text → Node
  directory : Node

pub record RetireWorld : Type 0 where
  pub decisions : List RetireDecision
  pub migrations : List (Text × MigrationRow)
  pub gate_is_no_go : Bool
  pub files : List (Text × Node)

-- Paths, digests and the sidecar, which come from outside.
pub record Paths : Type 0 where
  pub resolve : Text → Text
  pub root : Text → Text
  pub home : Text
  pub home_parent : Text
  pub sha256 : Text → Text
  pub sidecar_text : Text → Text → Text → Text → ℕ → Text

unfoldable pub harness_name : RetireHarness → Text
harness_name claude_code = codes "claude-code"
harness_name codex_cli = codes "codex-cli"

is_word : ℕ → Bool
is_word c =
    (leb 97 c && leb c 122) || ((leb 65 c && leb c 90) || ((leb 48 c && leb c 57) || c == 95))

starts_with_word : Text → Bool
unfolding is_word
starts_with_word [] = false
starts_with_word (c ∷ s) = is_word c

drop_5 : Text → Text
drop_5 (a ∷ b ∷ c ∷ d ∷ e ∷ s) = s
drop_5 s = []

-- `auth_` and a word character, in any case.
flag_here : Text → Bool
unfolding starts_with_word drop_5
flag_here s = starts_with (to_lower_case s) (codes "auth_") && starts_with_word (drop_5 s)

flag_after : Bool → Text → Bool
unfolding flag_here is_word
flag_after after_word [] = false
flag_after after_word (c ∷ s) = (not after_word && flag_here (c ∷ s)) || flag_after (is_word c) s

-- `/\bauth_[a-z0-9_]+/i.test(s)`.
unfoldable pub has_auth_flag : Text → Bool
unfolding flag_after
has_auth_flag s = flag_after false s

pub data Outcome : Type 0 where
  ok failed other : Outcome

-- `OK_MODES`.
ok_mode : Text → Bool
ok_mode mode =
    text_eq mode (codes "proxy")
    || (text_eq mode (codes "headroom")
        || (text_eq mode (codes "all-in")
            || (text_eq mode (codes "fallback")
                || (text_eq mode (codes "fallback-all-in")
                    || (text_eq mode (codes "pin")
                        || (text_eq mode (codes "spread")
                            || (text_eq mode (codes "round-robin")
                                || text_eq mode (codes "failover"))))))))

is_outcome : Option Text → Text → Bool
is_outcome none value = false
is_outcome (some outcome) value = text_eq outcome value

unfoldable pub classify_decision_outcome : RetireDecision → Outcome
unfolding ok_mode is_outcome
classify_decision_outcome row =
    if is_outcome row.outcome (codes "failed")
      || ((has_auth_flag row.reason || has_auth_flag row.mode) || text_eq row.mode (codes "failed"))
    then failed
    else if is_outcome row.outcome (codes "ok") || ok_mode row.mode
    then ok
    else other

-- `decisionHarnessNames(harness).includes(h)`.
is_harness : RetireHarness → Option Text → Bool
is_harness harness none = false
is_harness claude_code (some h) = text_eq h (codes "claude-code")
is_harness codex_cli (some h) = text_eq h (codes "codex-cli") || text_eq h (codes "codex")

-- `listDecisions`; the order plays no part.
unfoldable pub decisions_since : RetireWorld → RetireHarness → ℕ → List RetireDecision
unfolding is_harness
decisions_since w harness since =
    filter (λ d. leb since d.ts && is_harness harness d.harness) w.decisions

is_ok : Outcome → Bool
is_ok ok = true
is_ok failed = false
is_ok other = false

is_failed : Outcome → Bool
is_failed ok = false
is_failed failed = true
is_failed other = false

unfoldable pub ok_count : List RetireDecision → ℕ
unfolding is_ok
ok_count ds = length (filter (λ d. is_ok (classify_decision_outcome d)) ds)

unfoldable pub failed_count : List RetireDecision → ℕ
unfolding is_failed
failed_count ds = length (filter (λ d. is_failed (classify_decision_outcome d)) ds)

committed_or_updated : MigrationRow → Option ℕ → Option ℕ
committed_or_updated row (some at) = some at
committed_or_updated row none = if row.updated_at == 0 then none else some row.updated_at

unfoldable pub committed_at_of : Option MigrationRow → Option ℕ
unfolding committed_or_updated
committed_at_of none = none
committed_at_of (some row) = committed_or_updated row row.committed_at

pub data RetireReason : Type 0 where
  no_migration not_owned no_commit_time soaking few_ok some_failed gate_no_go : RetireReason

unfoldable pub is_owned : Text → Bool
is_owned state = text_eq state (codes "QLB_OWNED") || text_eq state (codes "RETIRED")

migration_reasons : Option MigrationRow → List RetireReason
unfolding is_owned
migration_reasons none = no_migration ∷ not_owned ∷ []
migration_reasons (some row) = if is_owned row.state then [] else not_owned ∷ []

-- `now - committedAt < SOAK_MS`.
soak_reasons : Option ℕ → ℕ → List RetireReason
soak_reasons none now = no_commit_time ∷ []
soak_reasons (some at) now = if ltb now (at + soak_ms) then soaking ∷ [] else []

count_reasons : ℕ → ℕ → List RetireReason
count_reasons ok_decisions failed_decisions =
    (if ltb ok_decisions min_ok_decisions then few_ok ∷ [] else [])
    ++ (if failed_decisions == 0 then [] else some_failed ∷ [])

pub gate_reasons : RetireHarness → Bool → List RetireReason
gate_reasons claude_code no_go = []
gate_reasons codex_cli no_go = if no_go then gate_no_go ∷ [] else []

-- `checkRetirementEligibility`: the reasons against; none is eligible.
unfoldable pub check_retirement_eligibility : RetireWorld → RetireHarness → ℕ → List RetireReason
unfolding migration_reasons soak_reasons count_reasons gate_reasons
check_retirement_eligibility w harness now =
    let row = lookup (harness_name harness) w.migrations in
    let committed_at = committed_at_of row in
    let decisions = decisions_since w harness (or_else committed_at 0) in
    migration_reasons row
    ++ (soak_reasons committed_at now
        ++ (count_reasons (ok_count decisions) (failed_count decisions)
            ++ gate_reasons harness w.gate_is_no_go))

pub data Refusal : Type 0 where
  not_eligible : List RetireReason → Refusal
  not_confirmed ping_failed no_path unsafe_path missing_path is_directory backup_exists : Refusal

ends_with_slash : Text → Bool
ends_with_slash [] = false
ends_with_slash (c ∷ []) = c == 47
ends_with_slash (c ∷ d ∷ s) = ends_with_slash (d ∷ s)

-- `resolved` is a root, the home directory or its parent, or ends in a slash.
unfoldable pub unsafe_file_path : Paths → Text → Bool
unfolding ends_with_slash
unsafe_file_path env resolved =
    text_eq resolved (env.root resolved)
    || (text_eq resolved env.home || (text_eq resolved env.home_parent || ends_with_slash resolved))

-- `preQlbPath` and `sidecarPath` of src/migration.ts.
unfoldable pub pre_qlb_path : Text → Text
pre_qlb_path path = path ++ codes ".pre-qlb"

unfoldable pub sidecar_path : Text → Text
sidecar_path path = path ++ codes ".pre-qlb.sidecar.json"

unfoldable pub remove_key {ℓ} : {V : Type ℓ} → Text → List (Text × V) → List (Text × V)
remove_key key entries = filter (λ entry. not (text_eq entry.0 key)) entries

-- `renameSync`.
unfoldable pub rename : Text → Text → Node → List (Text × Node) → List (Text × Node)
rename from to node files = upsert to node (remove_key from files)

retired_row : Option MigrationRow → ℕ → Text → MigrationRow
retired_row none now backup = record {
  state = codes "RETIRED";
  updated_at = now;
  committed_at = none;
  retired_at = some now;
  backup_path = some backup;
}
retired_row (some row) now backup = record row {
  state = codes "RETIRED";
  updated_at = now;
  retired_at = some now;
  backup_path = some backup;
}

-- The rename, the sidecar and the row of the migration.
publish : Paths → RetireHarness → ℕ → Text → Text → RetireWorld → RetireWorld
unfolding rename sidecar_path retired_row pre_qlb_path
publish env harness now path bytes w =
    let backup = pre_qlb_path path in
    let renamed = rename path backup (Node.file bytes) w.files in
    let sidecar = env.sidecar_text (harness_name harness) path backup (env.sha256 bytes) now in
    record w {
      files = upsert (sidecar_path path) (Node.file sidecar) renamed;
      migrations =
          upsert (harness_name harness)
            (retired_row (lookup (harness_name harness) w.migrations) now backup) w.migrations;
    }

pub data RetireResult : Type 0 where
  refused : Refusal → RetireResult
  retired : RetireWorld → Text → RetireResult

retire_node : Paths → RetireHarness → ℕ → Text → RetireWorld → Option Node → RetireResult
unfolding publish pre_qlb_path
retire_node env harness now path w none = RetireResult.refused missing_path
retire_node env harness now path w (some Node.directory) = RetireResult.refused is_directory
retire_node env harness now path w (some (Node.file bytes)) =
    if is_some (lookup (pre_qlb_path path) w.files)
    then RetireResult.refused backup_exists
    else RetireResult.retired (publish env harness now path bytes w) path

-- `retire`, under the lock.
retire_path : Paths → RetireHarness → ℕ → Text → RetireWorld → RetireResult
unfolding retire_node
retire_path env harness now [] w = RetireResult.refused no_path
retire_path env harness now (c ∷ s) w =
    let path = env.resolve (c ∷ s) in
    if unsafe_file_path env path
    then RetireResult.refused unsafe_path
    else retire_node env harness now path w (lookup path w.files)

-- After the check of eligibility: the confirmation and the ping, during which the world may change.
confirmed : Paths → RetireHarness → ℕ → Text → Bool → Bool → RetireWorld → RetireResult
unfolding retire_path
confirmed env harness now native confirm ping w =
    if confirm
    then (if ping then retire_path env harness now native w else RetireResult.refused ping_failed)
    else RetireResult.refused not_confirmed

unless_reasons : List RetireReason → RetireResult → RetireResult
unless_reasons [] result = result
unless_reasons (r ∷ rs) result = RetireResult.refused (not_eligible (r ∷ rs))

-- `retireNativeStore`.
unfoldable pub retire_native_store :
    Paths
    → RetireHarness
    → ℕ
    → Text
    → Bool
    → Bool
    → (RetireWorld → RetireWorld)
    → RetireWorld
    → RetireResult
unfolding confirmed unless_reasons
retire_native_store env harness now native confirm ping meanwhile w =
    unless_reasons (check_retirement_eligibility w harness now)
      (confirmed env harness now native confirm ping (meanwhile w))
