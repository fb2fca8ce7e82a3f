-- ===== src/Metadata/Columns.antt =====
-- The column tree of a table, and `AddChildColumn` of src/pgducklake_metadata_manager.cpp.
pub mod Entries
pub mod Distinct
pub mod Siblings
use pg_ducklake_next.Base.{
  ℕ, ◌+◌, String, Bool, true, false, ◌||◌, Option, some, List, [], ◌∷◌, ◌++◌, ◌==◌, if◌then◌else◌,
}

-- `duckdb::DuckLakeTag`
pub record Tag : Type 0 where
  pub key : String
  pub value : String

-- `duckdb::DuckLakeColumnInfo` without its children.
pub record ColumnInfo : Type 0 where
  pub id : ℕ
  pub name : String
  pub column_type : String
  pub initial_default : Option String
  pub default_value : Option String
  pub nulls_allowed : Bool
  pub tags : List Tag

-- `vector<DuckLakeColumnInfo>`: the first column with its `children` vector, then the columns
-- behind it.
pub data Columns : Type 0 where
  nil : Columns
  column : ColumnInfo → Columns → Columns → Columns

-- `push_back` of a column that has no children.
unfoldable pub push_back : Columns → ColumnInfo → Columns
push_back nil c = column c nil nil
push_back (column i kids rest) c = column i kids (push_back rest c)

-- The vector after the call, and the call's result.
unfoldable pub add_child_column : Columns → ℕ → ColumnInfo → Columns × Bool
unfolding push_back
add_child_column nil parent_id column_info = (nil, false)
add_child_column (column col children rest) parent_id column_info =
    let below = add_child_column children parent_id column_info in
    let behind = add_child_column rest parent_id column_info in
    if col.id == parent_id
    then (column col (push_back children column_info) rest, true)
    else if below.1
    then (column col below.0 rest, true)
    else (column col below.0 behind.0, behind.1)
