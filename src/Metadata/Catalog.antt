-- ===== src/Metadata/Catalog.antt =====
-- `GetCatalogForSnapshot` of src/pgducklake_metadata_manager.cpp as a whole: the four queries and
-- the loops over their rows, in order.
pub mod Loaded
pub mod References
pub mod Total
use pg_ducklake_next.Base.{ℕ, String, List}
use pg_ducklake_next.Base.Result.{Result, ok, err, ◌>>=◌}
use pg_ducklake_next.Metadata.Values.{Exception, query_failed, DuckDb}
use pg_ducklake_next.Metadata.Schemas.{SchemaRow, SchemaInfo, no_schemas, load_schemas}
use pg_ducklake_next.Metadata.Tables.{TableRow, TableInfo, load_tables}
use pg_ducklake_next.Metadata.Views.{ViewRow, ViewInfo, load_views}
use pg_ducklake_next.Metadata.Partitions.{PartitionRow, PartitionInfo, load_partitions}

-- `duckdb::DuckLakeCatalogInfo`
pub record CatalogInfo : Type 0 where
  pub schemas : List SchemaInfo
  pub tables : List TableInfo
  pub views : List ViewInfo
  pub partitions : List PartitionInfo

-- What PostgreSQL answers to the four queries of a snapshot: rows, or the text of an error.
pub record Answers (Value : Type 0) : Type 0 where
  pub schema_rows : Result String (List SchemaRow)
  pub table_rows : Result String (List (TableRow Value))
  pub view_rows : Result String (List (ViewRow Value))
  pub partition_rows : Result String (List PartitionRow)

-- `if (result->HasError()) result->GetErrorObject().Throw(prefix)`
abbrev pub rows_or_throw : {A : Type 0} → String → Result String A → Result Exception A
rows_or_throw prefix (ok rows) = ok rows
rows_or_throw prefix (err message) = err (query_failed prefix message)

abbrev pub schema_prefix : String
schema_prefix = "Failed to get schema information from DuckLake: "

abbrev pub table_prefix : String
table_prefix = "Failed to get table information from DuckLake: "

-- The text for a failed view query too.
abbrev pub partition_prefix : String
partition_prefix = "Failed to get partition information from DuckLake: "

module _ (D : DuckDb) where
  unfoldable pub get_catalog_for_snapshot : String → Answers D.Value → Result Exception CatalogInfo
  get_catalog_for_snapshot base_data_path answers = do
    schema_rows ← rows_or_throw schema_prefix answers.schema_rows
    let schemas = load_schemas D base_data_path no_schemas schema_rows
    table_rows ← rows_or_throw table_prefix answers.table_rows
    tables ← load_tables D schemas table_rows
    view_rows ← rows_or_throw partition_prefix answers.view_rows
    views ← load_views D view_rows
    partition_rows ← rows_or_throw partition_prefix answers.partition_rows
    ok (record {
      schemas = schemas.schemas;
      tables = tables;
      views = views;
      partitions = load_partitions partition_rows;
    })
