-- ===== src/Store/Deletes.antt =====
-- src/store.ts: deleting an account with every row that names it.
use qlb.Base.{
  ◌≡◌, ◌≢◌, refl, inl, inr, not, List, [], ◌∷◌, Text, text_eq, text_eq_iff, Bool-cases, filter,
}
use qlb.Store.{Store}
use qlb.Store.Config.{lookup}
use qlb.Store.Leases.{refresh_lease_name}

-- `DELETE FROM snapshots WHERE account_id = ?`.
unfoldable pub delete_key {ℓ} : {V : Type ℓ} → Text → List (Text × V) → List (Text × V)
delete_key key rows = filter (λ row. not (text_eq row.0 key)) rows

-- `deleteAccountCascade`: five statements, one transaction.
unfoldable pub delete_account_cascade : Store → Text → Store
unfolding delete_key
delete_account_cascade store id = record store {
  snapshots = delete_key id store.snapshots;
  overrides = filter (λ row. not (text_eq row.account_id id)) store.overrides;
  poll_claims = filter (λ row. not (text_eq row.account_id id)) store.poll_claims;
  leases = filter (λ row. not (text_eq row.name (refresh_lease_name id))) store.leases;
  accounts = filter (λ row. not (text_eq row.id id)) store.accounts;
}

pub lookup-delete_key {ℓ} :
    {V : Type ℓ} (key other : Text) (rows : List (Text × V))
    → key ≢ other
    → lookup other (delete_key key rows) ≡ lookup other rows
unfolding lookup delete_key
lookup-delete_key key other [] ne = refl
lookup-delete_key key other ((k, v) ∷ rest) ne = elim (Bool-cases (text_eq k key)) [
  | inr kept ↦ rw kept (rw (lookup-delete_key key other rest ne))
  | inl dropped ↦
      let is = (text_eq_iff k key).0 dropped in
      elim (Bool-cases (text_eq k other)) [
        | inl mine ↦ absurd (ne (cc (is, (text_eq_iff k other).0 mine)))
        | inr differs ↦ rw (dropped, differs) (lookup-delete_key key other rest ne)
      ]
]
