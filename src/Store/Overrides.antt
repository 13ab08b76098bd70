-- ===== src/Store/Overrides.antt =====
-- src/store.ts: the `overrides` table. An SQL comparison with NULL is not true.
pub mod Laws
use qlb.Base.{
  ℕ, ◌≡◌, refl, Bool, true, false, not, ◌&&◌, ◌||◌, Option, none, some, List, [], ◌∷◌, ◌++◌, Text,
  codes, text_eq, text_lt, if◌then◌else◌, ltb, filter, sort, length, ◌-◌,
}
use qlb.Store.{Store, OverrideRow}

-- `column = ?`.
unfoldable pub sql_eq : Option Text → Option Text → Bool
sql_eq (some a) (some b) = text_eq a b
sql_eq _ _ = false

is_null {ℓ} : {A : Type ℓ} → Option A → Bool
is_null none = true
is_null (some a) = false

-- `until IS NULL OR until > ?`.
unfoldable pub is_active : ℕ → OverrideRow → Bool
is_active now row = elim row.until [ none ↦ true | some u ↦ ltb now u ]

later_or {ℓ} : {A : Type ℓ} → Option A → Bool → A → Option A
later_or (some y) b x = some y
later_or none b x = if b then some x else none

-- `ORDER BY rowid DESC LIMIT 1`.
unfoldable pub find_last {ℓ} : {A : Type ℓ} → (A → Bool) → List A → Option A
unfolding later_or
find_last p [] = none
find_last p (x ∷ xs) = later_or (find_last p xs) (p x) x

unfoldable pub is_pin_of : Text → OverrideRow → Bool
unfolding sql_eq
is_pin_of session row = text_eq row.kind (codes "pin") && sql_eq row.session (some session)

unfoldable pub get_pin_override : Store → Text → ℕ → Option OverrideRow
unfolding find_last
get_pin_override store session now =
    find_last (λ row. is_pin_of session row && is_active now row) store.overrides

-- NULL comes first.
session_lt : Option Text → Option Text → Bool
session_lt none none = false
session_lt none (some b) = true
session_lt (some a) none = false
session_lt (some a) (some b) = text_lt a b

session_eq : Option Text → Option Text → Bool
session_eq none none = true
session_eq (some a) (some b) = text_eq a b
session_eq _ _ = false

-- `ORDER BY kind, account_id, session`.
row_before : OverrideRow → OverrideRow → Bool
unfolding session_lt
row_before a b =
    text_lt a.kind b.kind
    || (text_eq a.kind b.kind
        && (text_lt a.account_id b.account_id
            || (text_eq a.account_id b.account_id && session_lt a.session b.session)))

unfoldable pub list_active_overrides : Store → ℕ → List OverrideRow
unfolding row_before
list_active_overrides store now = sort row_before (filter (is_active now) store.overrides)

-- The rows that `upsertOverride` deletes.
unfoldable pub replaced_by : OverrideRow → OverrideRow → Bool
unfolding sql_eq is_null
replaced_by new row =
    if text_eq new.kind (codes "pin")
    then text_eq row.kind (codes "pin") && sql_eq row.session new.session
    else text_eq row.kind new.kind
      && text_eq row.account_id new.account_id
      && (is_null row.session || sql_eq row.session new.session)

-- `upsertOverride`: one transaction, which deletes and inserts.
unfoldable pub upsert_override : Store → OverrideRow → Store
unfolding replaced_by
upsert_override store new = record store {
  overrides = filter (λ row. not (replaced_by new row)) store.overrides ++ new ∷ [];
}

-- What `clearOverrides` is asked to delete.
pub record ClearOverrides : Type 0 where
  pub session : Option Text
  pub account_id : Option Text
  pub all : Bool

is_given : Option Text → Bool
is_given none = false
is_given (some []) = false
is_given (some (c ∷ s)) = true

-- The rows that `clearOverrides` deletes.
unfoldable pub cleared_by : ClearOverrides → OverrideRow → Bool
unfolding sql_eq is_given
cleared_by opts row =
    if opts.all
    then true
    else if is_given opts.session
    then sql_eq row.session opts.session
    else if is_given opts.account_id
    then sql_eq (some row.account_id) opts.account_id
    else false

-- `clearOverrides`, with the number of rows deleted.
unfoldable pub clear_overrides : Store → ClearOverrides → Store × ℕ
clear_overrides store opts =
    let rest = filter (λ row. not (cleared_by opts row)) store.overrides in
    (record store { overrides = rest }, length store.overrides - length rest)
