-- ===== src/Metadata/Tables/Siblings.antt =====
-- The columns of table entries below one parent, and rows that describe different columns.
pub mod Placed
pub mod Order
use mathlib.Core.List.{reverse, reverse-cons, append-nil, append_assoc}
use pg_ducklake_next.Base.{
  ℕ, ◌≡◌, refl, sym, ap, ◌∙◌, subst, Bool, true, false, ◌&&◌, ◌||◌, ◌==◌, if◌then◌else◌, Option,
  none, some, List, [], ◌∷◌, ◌++◌, map, All, All-map, All-append, All-split, Any, Any-All,
  Any-append_left, Any-append_right, Bool-cases, Option-cases, inl, inr, ==_iff, ==_refl, arith,
}
use pg_ducklake_next.Base.Result.{ok, ◌>>=◌, >>=-eq-ok, ok-injective, fold_result, fold_result_inv}
use pg_ducklake_next.Metadata.Columns.{ColumnInfo, Columns, nil, push_back, add_child_column}
use pg_ducklake_next.Metadata.Columns.Entries.{
  Entry, entries, has_id, entries-push_back, found-add_child_column, has_id-push_back,
  has_id-add_child_column,
}
use pg_ducklake_next.Metadata.Columns.Distinct.{
  IsDistinct, push_back-IsDistinct, add_child_column-IsDistinct,
}
use pg_ducklake_next.Metadata.Columns.Siblings.{
  same_parent, children_in, children_in-append, children_in-add_child_column,
}
use pg_ducklake_next.Metadata.Values.{DuckDb}
use pg_ducklake_next.Metadata.Schemas.{Schemas}
use pg_ducklake_next.Metadata.Tables.{
  TableRow, TableInfo, starts_table, place_column, column_of_row, add_column, begin_table,
  add_table_row, load_tables,
}
use pg_ducklake_next.Metadata.Tables.Collected.{TableEntry, table_entries, all_entries}
use pg_ducklake_next.Metadata.Tables.Lossless.{
  entry_of_row, row_entries, row_entries-append, all_entries-append, begin_table-new,
  begin_table-old, column_of_row-id,
}
use pg_ducklake_next.Metadata.Tables.Parents.{IsColumn}
use pg_ducklake_next.Metadata.Tables.Success.{last_table}

-- The columns below one parent in one table, in order.
abbrev pub children_of : ℕ → Option ℕ → List TableEntry → List ColumnInfo
children_of id q [] = []
children_of id q ((table_id, (parent, c)) ∷ es) =
    let rest = children_of id q es in
    if table_id == id && same_parent q parent then c ∷ rest else rest

pub children_of-append :
    (id : ℕ) (q : Option ℕ) (xs ys : List TableEntry)
    → children_of id q (xs ++ ys) ≡ children_of id q xs ++ children_of id q ys
children_of-append id q [] ys = refl
children_of-append id q ((table_id, (parent, c)) ∷ xs) ys =
    elim (Bool-cases (table_id == id && same_parent q parent)) [
      | inl here ↦ rw here (ap (λ (l : List ColumnInfo). c ∷ l) (children_of-append id q xs ys))
      | inr elsewhere ↦ rw elsewhere (children_of-append id q xs ys)
    ]

-- The entries of one table.
pub children_of-table :
    (id : ℕ) (q : Option ℕ) (table_id : ℕ) (es : List Entry)
    → children_of id q (map (λ e. (table_id, e)) es)
      ≡ (if table_id == id then children_in q es else [])
children_of-table id q table_id [] = ground arith
children_of-table id q table_id ((parent, c) ∷ es) =
    ground (arith, children_of-table id q table_id es)

-- No column of a table has two rows.
abbrev pub Differ : {V : Type 0} → TableRow V → TableRow V → Type 0
Differ r q = (id : ℕ) → r.column_id ≡ some id → IsColumn r.table_id id q → ⊥

abbrev pub IsUnique : {V : Type 0} → List (TableRow V) → Type 0
IsUnique [] = Unit
IsUnique (r ∷ rows) = All (Differ r) rows × IsUnique rows

pub IsUnique-last :
    {V : Type 0}
    → (rows : List (TableRow V)) (row : TableRow V) → IsUnique (rows ++ row ∷ [])
    → IsUnique rows × All (λ r. Differ r row) rows
IsUnique-last [] row u = (tt, tt)
IsUnique-last {V} (r ∷ rows) row u =
    let (unique, last) = IsUnique-last rows row u.1 in
    let (before, here) = All-split (Differ r) rows (row ∷ []) u.0 in
    ((before, unique), (here.0, last))
