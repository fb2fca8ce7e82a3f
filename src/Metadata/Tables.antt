-- ===== src/Metadata/Tables.antt =====
-- The table part of `GetCatalogForSnapshot` (src/pgducklake_metadata_manager.cpp): the loop over
-- the rows of `ducklake_table` joined with `ducklake_column`. The vector `catalog.tables` is kept
-- in reverse here, so that its first element is `tables.back()`; `load_tables` turns it round.
pub mod Collected
pub mod Lossless
pub mod Groups
pub mod Parents
pub mod Success
pub mod Headers
pub mod Siblings
use mathlib.Core.List.{reverse}
use pg_ducklake_next.Base.{
  ℕ, String, Bool, true, false, Option, none, some, List, [], ◌∷◌, ◌==◌, if◌then◌else◌,
}
use pg_ducklake_next.Base.Result.{Result, ok, err, ◌>>=◌, fold_result}
use pg_ducklake_next.Metadata.Columns.{Tag, ColumnInfo, Columns, nil, push_back, add_child_column}
use pg_ducklake_next.Metadata.Values.{
  Exception, no_columns, no_parent_column, from_duckdb, DuckLakePath, DuckDb, InlinedTableInfo,
  load_tags, load_inlined_data_tables,
}
use pg_ducklake_next.Metadata.Schemas.{SchemaInfo, Schemas, find_schema}

-- A row of the table query, its columns read at their types; an option is none where the column
-- is NULL.
pub record TableRow (Value : Type 0) : Type 0 where
  pub schema_id : ℕ
  pub table_id : ℕ
  pub table_uuid : String
  pub table_name : String
  pub tag : Option Value
  pub inlined_data_tables : Option Value
  pub path : Option String
  pub path_is_relative : Bool
  pub column_id : Option ℕ
  pub column_name : String
  pub column_type : String
  pub initial_default : Option String
  pub default_value : Option String
  pub nulls_allowed : Bool
  pub parent_column : Option ℕ
  pub column_tags : Option Value

-- `duckdb::DuckLakeTableInfo`
pub record TableInfo : Type 0 where
  pub id : ℕ
  pub schema_id : ℕ
  pub uuid : String
  pub name : String
  pub tags : List Tag
  pub inlined_data_tables : List InlinedTableInfo
  pub path : String
  pub columns : Columns

-- `if (!row.IsNull(i)) x = load(row.GetValue<Value>(i))`, where `x` is empty before.
unfoldable pub load_unless_null :
    {V A : Type 0} → (V → Result Exception (List A)) → Option V → Result Exception (List A)
load_unless_null load none = ok []
load_unless_null load (some v) = load v

-- `tables.empty() || tables.back().id != table_id`
unfoldable pub starts_table : List TableInfo → ℕ → Bool
starts_table [] table_id = true
starts_table (back ∷ older) table_id = if back.id == table_id then false else true

-- The column goes to the top of the table, or below its parent.
unfoldable pub place_column : TableInfo → Option ℕ → ColumnInfo → Result Exception TableInfo
place_column table none column_info =
    ok (record table { columns = push_back table.columns column_info })
place_column table (some parent_id) column_info =
    let (columns, found) = add_child_column table.columns parent_id column_info in
    if found
    then ok (record table { columns = columns })
    else err (no_parent_column column_info.name)

module _ (D : DuckDb) where
  -- The `column_info` of a row whose column id is `id`.
  unfoldable pub column_of_row : TableRow D.Value → ℕ → Result Exception ColumnInfo
  unfolding load_unless_null
  column_of_row row id = do
    tags ← load_unless_null (load_tags D) row.column_tags
    ok (record {
      id = id;
      name = row.column_name;
      column_type = row.column_type;
      initial_default = row.initial_default;
      default_value = row.default_value;
      nulls_allowed = row.nulls_allowed;
      tags = tags;
    })

  unfoldable pub table_path : TableRow D.Value → SchemaInfo → String
  table_path row schema = elim row.path [
    | none ↦ schema.path
    | some p ↦
        D.from_relative_path_in (record { path = p; path_is_relative = row.path_is_relative })
          schema.path
  ]

  -- The `table_info` of the first row of a table.
  unfoldable pub new_table : Schemas → TableRow D.Value → Result Exception TableInfo
  unfolding load_unless_null table_path
  new_table schemas row = do
    tags ← load_unless_null (load_tags D) row.tag
    inlined ← load_unless_null (load_inlined_data_tables D) row.inlined_data_tables
    schema ← find_schema schemas row.table_id row.schema_id
    ok (record {
      id = row.table_id;
      schema_id = row.schema_id;
      uuid = row.table_uuid;
      name = row.table_name;
      tags = tags;
      inlined_data_tables = inlined;
      path = table_path row schema;
      columns = nil;
    })

  -- The second half of a round, on `tables.back()`.
  unfoldable pub add_column : List TableInfo → TableRow D.Value → Result Exception (List TableInfo)
  unfolding place_column column_of_row
  add_column [] row = err (from_duckdb "back() of an empty vector")
  add_column (back ∷ older) row = elim row.column_id [
    | none ↦ err (no_columns back.name)
    | some id ↦ (do
      column_info ← column_of_row row id
      back' ← place_column back row.parent_column column_info
      ok (back' ∷ older))
  ]

  -- The first half of a round: a row of another table than `tables.back()` begins a new one.
  unfoldable pub begin_table :
      Schemas → List TableInfo → TableRow D.Value → Result Exception (List TableInfo)
  unfolding starts_table new_table
  begin_table schemas tables row =
      let pushed : Result Exception (List TableInfo) = (do
        table_info ← new_table schemas row
        ok (table_info ∷ tables)) in
      if starts_table tables row.table_id then pushed else ok tables

  -- One round of the loop.
  unfoldable pub add_table_row :
      Schemas → List TableInfo → TableRow D.Value → Result Exception (List TableInfo)
  unfolding begin_table add_column
  add_table_row schemas tables row = do
    tables' ← begin_table schemas tables row
    add_column tables' row

  -- The whole loop, from an empty `catalog.tables`.
  unfoldable pub load_tables : Schemas → List (TableRow D.Value) → Result Exception (List TableInfo)
  unfolding add_table_row
  load_tables schemas rows = do
    tables ← fold_result (add_table_row schemas) [] rows
    ok (reverse tables)
