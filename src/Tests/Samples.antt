-- ===== src/Tests/Samples.antt =====
-- Values, rows and calls for the tests: two tables in one schema, one of them with a nested column.
use pg_ducklake_next.Base.{ℕ, String, ◌<>◌, Bool, true, false, Option, none, some, List, [], ◌∷◌}
use pg_ducklake_next.Base.Result.{Result, ok, err}
use pg_ducklake_next.Metadata.Columns.{ColumnInfo, Columns, nil, column}
use pg_ducklake_next.Metadata.Values.{Exception, from_duckdb, StructType, DuckDb}
use pg_ducklake_next.Metadata.Schemas.{SchemaRow, Schemas, no_schemas, load_schemas}
use pg_ducklake_next.Metadata.Tables.{TableRow, TableInfo}
use pg_ducklake_next.Metadata.Views.{ViewRow, ViewInfo}
use pg_ducklake_next.Metadata.Partitions.{PartitionRow}

-- A value: NULL, a text, a number, a struct of two, a list.
pub data Sample : Type 0 where
  null : Sample
  text : String → Sample
  number : ℕ → Sample
  pair : Sample → Sample → Sample
  no_items : Sample
  item : Sample → Sample → Sample

abbrev pub items_of : Sample → Result Exception (List Sample)
items_of no_items = ok []
items_of (item v rest) = elim (items_of rest) [ ok vs ↦ ok (v ∷ vs) | err e ↦ err e ]
items_of null = err (from_duckdb "not a list")
items_of (text s) = err (from_duckdb "not a list")
items_of (number n) = err (from_duckdb "not a list")
items_of (pair a b) = err (from_duckdb "not a list")

abbrev pub pair_of : Sample → Result Exception (List Sample)
pair_of (pair a b) = ok (a ∷ b ∷ [])
pair_of null = err (from_duckdb "not a struct")
pair_of (text s) = err (from_duckdb "not a struct")
pair_of (number n) = err (from_duckdb "not a struct")
pair_of no_items = err (from_duckdb "not a struct")
pair_of (item a b) = err (from_duckdb "not a struct")

-- A text casts to a struct, too.
abbrev pub cast_of : Sample → StructType → Result Exception Sample
cast_of (pair a b) t = ok (pair a b)
cast_of (text s) t = ok (pair (text s) (text s))
cast_of null t = err (from_duckdb "cannot cast")
cast_of (number n) t = err (from_duckdb "cannot cast")
cast_of no_items t = err (from_duckdb "cannot cast")
cast_of (item a b) t = err (from_duckdb "cannot cast")

abbrev pub text_of : Sample → String
text_of (text s) = s
text_of null = "NULL"
text_of (number n) = "number"
text_of (pair a b) = "pair"
text_of no_items = "list"
text_of (item a b) = "list"

abbrev pub is_null_sample : Sample → Bool
is_null_sample null = true
is_null_sample (text s) = false
is_null_sample (number n) = false
is_null_sample (pair a b) = false
is_null_sample no_items = false
is_null_sample (item a b) = false

abbrev pub number_of : Sample → Result Exception ℕ
number_of (number n) = ok n
number_of null = err (from_duckdb "not a number")
number_of (text s) = err (from_duckdb "not a number")
number_of (pair a b) = err (from_duckdb "not a number")
number_of no_items = err (from_duckdb "not a number")
number_of (item a b) = err (from_duckdb "not a number")

abbrev pub duckdb : DuckDb
duckdb = record {
  Value = Sample;
  list_children = items_of;
  struct_children = pair_of;
  default_cast_as = cast_of;
  is_null = is_null_sample;
  to_string = text_of;
  get_string = λ v. ok (text_of v);
  get_index = number_of;
  from_relative_path = λ p. "data/" <> p.path;
  from_relative_path_in = λ p base. base <> p.path;
  parse_quoted_list = λ s. ok [];
}

abbrev pub schema_rows : List SchemaRow
schema_rows =
    record {
      schema_id = 1;
      schema_uuid = "u1";
      schema_name = "public";
      path = none;
      path_is_relative = true;
    }
    ∷ []

abbrev pub row_of : ℕ → ℕ → Option ℕ → TableRow Sample
row_of table_id column_id parent_column = record {
  schema_id = 1;
  table_id = table_id;
  table_uuid = "u2";
  table_name = "t";
  tag = none;
  inlined_data_tables = none;
  path = some "t/";
  path_is_relative = true;
  column_id = some column_id;
  column_name = "c";
  column_type = "int32";
  initial_default = none;
  default_value = none;
  nulls_allowed = true;
  parent_column = parent_column;
  column_tags = none;
}

abbrev pub table_rows : List (TableRow Sample)
table_rows = row_of 7 1 none ∷ row_of 7 2 (some 1) ∷ row_of 9 1 none ∷ []

abbrev pub column_of : ℕ → ColumnInfo
column_of id = record {
  id = id;
  name = "c";
  column_type = "int32";
  initial_default = none;
  default_value = none;
  nulls_allowed = true;
  tags = [];
}

abbrev pub table_of : ℕ → Columns → TableInfo
table_of id columns = record {
  id = id;
  schema_id = 1;
  uuid = "u2";
  name = "t";
  tags = [];
  inlined_data_tables = [];
  path = "data/t/";
  columns = columns;
}

abbrev pub tables : List TableInfo
tables =
    table_of 7 (column (column_of 1) (column (column_of 2) nil nil) nil)
    ∷ table_of 9 (column (column_of 1) nil nil)
    ∷ []

abbrev pub schemas : Schemas
schemas = load_schemas duckdb "data/" no_schemas schema_rows

abbrev pub view_row : ViewRow Sample
view_row = record {
  view_id = 3;
  view_uuid = "u3";
  schema_id = 1;
  view_name = "v";
  dialect = "duckdb";
  sql = "SELECT 1";
  column_aliases = "";
  tag = some (item (pair (text "k") (text "x")) no_items);
}

abbrev pub view_info : ViewInfo
view_info = record {
  id = 3;
  uuid = "u3";
  schema_id = 1;
  name = "v";
  dialect = "duckdb";
  sql = "SELECT 1";
  column_aliases = [];
  tags = record { key = "k"; value = "x" } ∷ [];
}

abbrev pub partition_row : ℕ → ℕ → ℕ → PartitionRow
partition_row partition_id table_id index = record {
  partition_id = partition_id;
  table_id = table_id;
  partition_key_index = index;
  column_id = 1;
  transform = "identity";
}
