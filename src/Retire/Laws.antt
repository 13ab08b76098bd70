-- ===== src/Retire/Laws.antt =====
-- src/retire.ts: what a retirement required, and that the credential is kept.
use mathlib.Core.List.{nil≢cons}
use qlb.Base.{
  ℕ, ◌+◌, ◌≤◌, ◌==◌, ==_iff, ◌≡◌, refl, sym, ap, inl, inr, Bool, true, false, Option, none, some,
  List, [], ◌∷◌, ◌++◌, Text, text_eq, text_eq_refl, codes, ltb, is_some, or_else, Bool-cases, arith,
}
use qlb.Store.Config.{lookup, upsert, lookup-upsert}
use qlb.Retire.{
  RetireHarness, MigrationRow, Node, RetireWorld, Paths, harness_name, soak_ms, min_ok_decisions,
  decisions_since, ok_count, failed_count, committed_at_of, RetireReason, is_owned,
  migration_reasons, soak_reasons, count_reasons, gate_reasons, check_retirement_eligibility,
  unsafe_file_path, pre_qlb_path, sidecar_path, remove_key, rename, publish, RetireResult,
  retire_node, retire_path, confirmed, unless_reasons, retire_native_store,
}

-- What an eligible harness has: an owned migration, a week since its commit, twenty clean decisions
-- and no failed one since, and no NO-GO of the gate.
pub record Soaked (w : RetireWorld) (harness : RetireHarness) (now : ℕ) : Type 0 where
  pub row : MigrationRow
  pub migrated : lookup (harness_name harness) w.migrations ≡ some row
  pub owned : is_owned row.state ≡ true
  pub at : ℕ
  pub committed : committed_at_of (some row) ≡ some at
  pub soaked : at + soak_ms ≤ now
  pub clean : min_ok_decisions ≤ ok_count (decisions_since w harness at)
  pub none_failed : failed_count (decisions_since w harness at) ≡ 0
  pub gate : gate_reasons harness w.gate_is_no_go ≡ []

++-nil : {A : Type 0} (xs ys : List A) → xs ++ ys ≡ [] → (xs ≡ []) × (ys ≡ [])
++-nil [] ys e = (refl, e)
++-nil (x ∷ xs) ys e = absurd (nil≢cons (sym e))

migration_reasons-nil :
    (o : Option MigrationRow)
    → migration_reasons o ≡ []
    → (row : MigrationRow) × (o ≡ some row) × (is_owned row.state ≡ true)
unfolding migration_reasons
migration_reasons-nil none e = absurd (nil≢cons (sym e))
migration_reasons-nil (some row) e = elim (Bool-cases (is_owned row.state)) [
  | inl owned ↦ (row, refl, owned)
  | inr foreign ↦ absurd (nil≢cons (sym (rw foreign at e)))
]

soak_reasons-nil :
    (o : Option ℕ) (now : ℕ)
    → soak_reasons o now ≡ []
    → (at : ℕ) × (o ≡ some at) × (at + soak_ms ≤ now)
unfolding soak_reasons
soak_reasons-nil none now e = absurd (nil≢cons (sym e))
soak_reasons-nil (some at) now e = elim (Bool-cases (ltb now (at + soak_ms))) [
  | inl early ↦ absurd (nil≢cons (sym (rw early at e)))
  | inr past ↦ (at, refl, reached now (at + soak_ms) past)
]
  where
    reached : (a b : ℕ) → ltb a b ≡ false → b ≤ a
    reached a b e = ground arith

count_reasons-nil :
    (oks fails : ℕ) → count_reasons oks fails ≡ [] → (min_ok_decisions ≤ oks) × (fails ≡ 0)
unfolding count_reasons
count_reasons-nil oks fails e = elim (Bool-cases (ltb oks min_ok_decisions)) [
  | inl few ↦ absurd (nil≢cons (sym (rw few at e)))
  | inr many ↦ elim (Bool-cases (fails == 0)) [
    | inl clean ↦ (enough oks many, (==_iff fails 0).0 clean)
    | inr failing ↦ absurd (nil≢cons (sym (rw (many, failing) at e)))
  ]
]
  where
    enough : (n : ℕ) → ltb n min_ok_decisions ≡ false → min_ok_decisions ≤ n
    enough n e = ground arith

-- Where nothing speaks against it, the harness is eligible.
pub eligible-Soaked :
    (w : RetireWorld) (harness : RetireHarness) (now : ℕ)
    → check_retirement_eligibility w harness now ≡ []
    → Soaked w harness now
unfolding check_retirement_eligibility
eligible-Soaked w harness now e =
    let o = lookup (harness_name harness) w.migrations in
    let committed_at = committed_at_of o in
    let decisions = decisions_since w harness (or_else committed_at 0) in
    let counts = count_reasons (ok_count decisions) (failed_count decisions) in
    let gate = gate_reasons harness w.gate_is_no_go in
    let (no_migration_reason, later) =
      ++-nil (migration_reasons o) (soak_reasons committed_at now ++ (counts ++ gate)) e in
    let (no_soak_reason, rest) = ++-nil (soak_reasons committed_at now) (counts ++ gate) later in
    let (no_count_reason, no_gate_reason) = ++-nil counts gate rest in
    let (row, migrated, owned) = migration_reasons-nil o no_migration_reason in
    let (at, committed, soaked) = soak_reasons-nil committed_at now no_soak_reason in
    let (clean, none_failed) =
      count_reasons-nil (ok_count decisions) (failed_count decisions) no_count_reason in
    record {
      row = row;
      migrated = migrated;
      owned = owned;
      at = at;
      committed = rw (← migrated) committed;
      soaked = soaked;
      clean = rw committed at clean;
      none_failed = rw committed at none_failed;
      gate = no_gate_reason;
    }

text_eq-append : (p a b : Text) → text_eq (p ++ a) (p ++ b) ≡ text_eq a b
unfolding text_eq
text_eq-append [] a b = refl
text_eq-append (c ∷ p) a b = rw ((==_iff c c).1 refl) (text_eq-append p a b)

-- The backup is not the sidecar.
sidecar-differs : (path : Text) → text_eq (sidecar_path path) (pre_qlb_path path) ≡ false
unfolding sidecar_path pre_qlb_path text_eq
sidecar-differs path = text_eq-append path (codes ".pre-qlb.sidecar.json") (codes ".pre-qlb")

-- The bytes of the credential stand at the path of the backup.
publish-backup :
    (env : Paths) (harness : RetireHarness) (now : ℕ) (path bytes : Text) (w : RetireWorld)
    → lookup (pre_qlb_path path) (publish env harness now path bytes w).files
      ≡ some (Node.file bytes)
unfolding publish rename
publish-backup env harness now path bytes w =
    let backup = pre_qlb_path path in
    let sidecar = env.sidecar_text (harness_name harness) path backup (env.sha256 bytes) now in
    rw
      (
        lookup-upsert (sidecar_path path) backup (Node.file sidecar)
            (upsert backup (Node.file bytes) (remove_key path w.files)),
        sidecar-differs path,
      )
      (rw
        (
          lookup-upsert backup backup (Node.file bytes) (remove_key path w.files),
          text_eq_refl backup,
        )
        refl)

-- The credential stood at the path, and stands at the path of the backup afterwards.
pub record Kept (path : Text) (before after : RetireWorld) : Type 0 where
  pub bytes : Text
  pub stood : lookup path before.files ≡ some (Node.file bytes)
  pub stands : lookup (pre_qlb_path path) after.files ≡ some (Node.file bytes)

world_of : RetireWorld → RetireResult → RetireWorld
world_of w (RetireResult.refused r) = w
world_of w (RetireResult.retired w' path) = w'

path_of : RetireResult → Text
path_of (RetireResult.refused r) = []
path_of (RetireResult.retired w' path) = path

retired-injective :
    (v w : RetireWorld) (p q : Text)
    → RetireResult.retired v p ≡ RetireResult.retired w q
    → (v ≡ w) × (p ≡ q)
unfolding world_of path_of
retired-injective v w p q e = (ap (world_of v) e, ap path_of e)

retire_node-Kept :
    (env : Paths) (harness : RetireHarness) (now : ℕ) (path : Text) (w w' : RetireWorld)
    (o : Option Node) (path' : Text)
    → lookup path w.files ≡ o
    → retire_node env harness now path w o ≡ RetireResult.retired w' path'
    → (path' ≡ path) × Kept path w w'
unfolding retire_node
retire_node-Kept env harness now path w w' none path' is e = cc
retire_node-Kept env harness now path w w' (some Node.directory) path' is e = cc
retire_node-Kept env harness now path w w' (some (Node.file bytes)) path' is e =
    elim (Bool-cases (is_some (lookup (pre_qlb_path path) w.files))) [
      | inl there ↦ cc (rw there at e)
      | inr free ↦
          let (world, same) =
            retired-injective (publish env harness now path bytes w) w' path path' (rw free at e) in
          (
            sym same,
            record {
              bytes = bytes;
              stood = is;
              stands = rw (← world) (publish-backup env harness now path bytes w);
            },
          )
    ]

retire_path-Kept :
    (env : Paths) (harness : RetireHarness) (now : ℕ) (native : Text) (w w' : RetireWorld)
    (path : Text)
    → retire_path env harness now native w ≡ RetireResult.retired w' path
    → (path ≡ env.resolve native) × (unsafe_file_path env path ≡ false) × Kept path w w'
unfolding retire_path
retire_path-Kept env harness now [] w w' path e = cc
retire_path-Kept env harness now (c ∷ s) w w' path e =
    let resolved = env.resolve (c ∷ s) in
    elim (Bool-cases (unsafe_file_path env resolved)) [
      | inl unsafe ↦ cc (rw unsafe at e)
      | inr safe ↦
          let (same, kept) =
            retire_node-Kept env harness now resolved w w' (lookup resolved w.files) path refl
              (rw safe at e) in
          (same, rw same safe, rw same kept)
    ]

confirmed-Kept :
    (env : Paths) (harness : RetireHarness) (now : ℕ) (native : Text) (confirm ping : Bool)
    (w w' : RetireWorld) (path : Text)
    → confirmed env harness now native confirm ping w ≡ RetireResult.retired w' path
    → (confirm ≡ true)
      × (ping ≡ true)
      × (path ≡ env.resolve native)
      × (unsafe_file_path env path ≡ false)
      × Kept path w w'
unfolding confirmed
confirmed-Kept env harness now native false ping w w' path e = cc
confirmed-Kept env harness now native true false w w' path e = cc
confirmed-Kept env harness now native true true w w' path e =
    let (same, safe, kept) = retire_path-Kept env harness now native w w' path e in
    (refl, refl, same, safe, kept)

-- A credential file is retired only for a harness that has soaked (an owned migration, a week since
-- its commit, twenty clean decisions and no failed one since, no NO-GO of the gate), on a confirmation
-- and a ping that succeeded, at a path that is not unsafe; and it is kept: the bytes that stood at the
-- path stand at the path of the backup.
pub retire_native_store-Kept :
    (env : Paths) (harness : RetireHarness) (now : ℕ) (native : Text) (confirm ping : Bool)
    (meanwhile : RetireWorld → RetireWorld) (w w' : RetireWorld) (path : Text)
    → retire_native_store env harness now native confirm ping meanwhile w
      ≡ RetireResult.retired w' path
    → Soaked w harness now
      × (confirm ≡ true)
      × (ping ≡ true)
      × (path ≡ env.resolve native)
      × (unsafe_file_path env path ≡ false)
      × Kept path (meanwhile w) w'
unfolding retire_native_store confirmed unless_reasons
retire_native_store-Kept env harness now native confirm ping meanwhile w w' path e =
    past_reasons (check_retirement_eligibility w harness now) refl e
  where
    past_reasons :
        (reasons : List RetireReason)
        → check_retirement_eligibility w harness now ≡ reasons
        → unless_reasons reasons (confirmed env harness now native confirm ping (meanwhile w))
          ≡ RetireResult.retired w' path
        → Soaked w harness now
          × (confirm ≡ true)
          × (ping ≡ true)
          × (path ≡ env.resolve native)
          × (unsafe_file_path env path ≡ false)
          × Kept path (meanwhile w) w'
    past_reasons [] is e =
        let (agreed, pinged, same, safe, kept) =
          confirmed-Kept env harness now native confirm ping (meanwhile w) w' path e in
        (eligible-Soaked w harness now is, agreed, pinged, same, safe, kept)
    past_reasons (r ∷ rs) is e = cc
