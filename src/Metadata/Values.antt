-- ===== src/Metadata/Values.antt =====
-- What src/pgducklake_metadata_manager.cpp calls of DuckDB and DuckLake, as the record of
-- parameters `DuckDb`, and the two readers of list values: `LoadTags` and `LoadInlinedDataTables`.
pub mod Tags
use pg_ducklake_next.Base.{
  ℕ, zero, suc, String, Bool, Option, none, some, List, [], ◌∷◌, get_elem?, if◌then◌else◌,
}
use pg_ducklake_next.Base.Result.{Result, ok, err, ◌>>=◌}
use pg_ducklake_next.Metadata.Columns.{Tag}

-- What the manager throws (`query_failed` is `GetErrorObject().Throw(prefix)`), and `from_duckdb`
-- for an exception that a call of DuckDB or DuckLake throws.
pub data Exception : Type 0 where
  query_failed : String → String → Exception
  missing_schema : ℕ → ℕ → Exception
  no_columns : String → Exception
  no_parent_column : String → Exception
  from_duckdb : String → Exception

-- The two struct types that the manager casts to.
pub data StructType : Type 0 where
  tags_type inlined_table_type : StructType

-- `duckdb::DuckLakePath`
pub record DuckLakePath : Type 0 where
  pub path : String
  pub path_is_relative : Bool

-- `duckdb::Value` with the calls on it, and DuckLake's helpers.
pub record DuckDb : Type 1 where
  pub Value : Type 0
  -- `ListValue::GetChildren`
  pub list_children : Value → Result Exception (List Value)
  -- `StructValue::GetChildren`
  pub struct_children : Value → Result Exception (List Value)
  pub default_cast_as : Value → StructType → Result Exception Value
  pub is_null : Value → Bool
  pub to_string : Value → String
  -- `StringValue::Get` and `GetValue<idx_t>`
  pub get_string : Value → Result Exception String
  pub get_index : Value → Result Exception ℕ
  -- `FromRelativePath` with one argument, and with a base path
  pub from_relative_path : DuckLakePath → String
  pub from_relative_path_in : DuckLakePath → String → String
  -- `DuckLakeUtil::ParseQuotedList`
  pub parse_quoted_list : String → Result Exception (List String)

-- `duckdb::DuckLakeInlinedTableInfo`
pub record InlinedTableInfo : Type 0 where
  pub table_name : String
  pub schema_version : ℕ

-- `v[i]` of a `duckdb::vector`, which throws where the index is out of range.
unfoldable pub at : {A : Type 0} → List A → ℕ → Result Exception A
at xs i = elim (get_elem? xs i) [ none ↦ err (from_duckdb "index out of range") | some x ↦ ok x ]

module _ (D : DuckDb) where
  open D use {
    Value, list_children, struct_children, default_cast_as, is_null, to_string, get_string,
    get_index,
  }

  -- The end of one round of `LoadTags`, before the rounds `later`.
  unfoldable pub push_tag :
      List Value → Value → Result Exception (List Tag) → Result Exception (List Tag)
  unfolding at
  push_tag children value later =
      let pushed : Result Exception (List Tag) = (do
        key ← at children 0
        result ← later
        ok (record { key = to_string key; value = to_string value } ∷ result)) in
      if is_null value then later else pushed

  -- The loop of `LoadTags`. The cast value is not used: the children are those of `tag` itself.
  unfoldable pub tags_of : List Value → Result Exception (List Tag)
  unfolding push_tag
  tags_of [] = ok []
  tags_of (tag ∷ rest) = do
    tag_struct ← default_cast_as tag tags_type
    children ← struct_children tag
    value ← at children 1
    push_tag children value (tags_of rest)

  unfoldable pub load_tags : Value → Result Exception (List Tag)
  unfolding tags_of
  load_tags tag_map = do children ← list_children tag_map; tags_of children

  -- The loop of `LoadInlinedDataTables`.
  unfoldable pub inlined_tables_of : List Value → Result Exception (List InlinedTableInfo)
  unfolding at
  inlined_tables_of [] = ok []
  inlined_tables_of (val ∷ rest) =
      let later = inlined_tables_of rest in
      do
        val_struct ← default_cast_as val inlined_table_type
        children ← struct_children val_struct
        name ← at children 0
        table_name ← get_string name
        version ← at children 1
        schema_version ← get_index version
        result ← later
        ok (record { table_name = table_name; schema_version = schema_version } ∷ result)

  unfoldable pub load_inlined_data_tables : Value → Result Exception (List InlinedTableInfo)
  unfolding inlined_tables_of
  load_inlined_data_tables list = do children ← list_children list; inlined_tables_of children
