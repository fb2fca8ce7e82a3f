-- ===== src/Metadata/Fetch.antt =====
-- `GetCatalogForSnapshot` of src/pgducklake_metadata_manager.cpp as the calls that it makes: the
-- four queries through `Query` and `CreateSPIResult`, with the loops over their rows between them.
pub mod Simulation
pub mod Refinement
use pg_ducklake_next.Base.{ℕ, String, ◌<>◌, Option, none, some, List}
use pg_ducklake_next.Base.Result.{Result, ok, err}
use pg_ducklake_next.Backend.{duckdb_exception, Run, pure, raise, ◌>>=◌}
use pg_ducklake_next.Spi.Execution.{SpiBackend, QueryResult, create_spi_result}
use pg_ducklake_next.Metadata.Values.{Exception, DuckDb}
use pg_ducklake_next.Metadata.Schemas.{SchemaRow, Schemas, no_schemas, load_schemas}
use pg_ducklake_next.Metadata.Tables.{TableRow, load_tables}
use pg_ducklake_next.Metadata.Views.{ViewRow, load_views}
use pg_ducklake_next.Metadata.Partitions.{PartitionRow, load_partitions}
use pg_ducklake_next.Metadata.Catalog.{
  CatalogInfo, rows_or_throw, schema_prefix, table_prefix, partition_prefix,
}
use pg_ducklake_next.Metadata.Sql.{Fillers, query_at}

abbrev pub schema_sql : String
schema_sql =
    "SELECT schema_id, schema_uuid::VARCHAR, schema_name, path, path_is_relative FROM {METADATA_CATALOG}.ducklake_schema WHERE {SNAPSHOT_ID} >= begin_snapshot AND ({SNAPSHOT_ID} < end_snapshot OR end_snapshot IS NULL)"

abbrev pub table_sql : String
table_sql =
    "SELECT schema_id, tbl.table_id, table_uuid::VARCHAR, table_name, ( SELECT array_agg(jsonb_build_object('key', key, 'value', value)) FROM {METADATA_CATALOG}.ducklake_tag tag WHERE object_id=table_id AND {SNAPSHOT_ID} >= tag.begin_snapshot AND ({SNAPSHOT_ID} < tag.end_snapshot OR tag.end_snapshot IS NULL) ) AS tag, ( SELECT array_agg(jsonb_build_object('name', table_name, 'schema_version', schema_version)) FROM {METADATA_CATALOG}.ducklake_inlined_data_tables inlined_data_tables WHERE inlined_data_tables.table_id = tbl.table_id ) AS inlined_data_tables, path, path_is_relative, col.column_id, column_name, column_type, initial_default, default_value, nulls_allowed, parent_column, ( SELECT array_agg(jsonb_build_object('key', key, 'value', value)) FROM {METADATA_CATALOG}.ducklake_column_tag col_tag WHERE col_tag.table_id=tbl.table_id AND col_tag.column_id=col.column_id AND {SNAPSHOT_ID} >= col_tag.begin_snapshot AND ({SNAPSHOT_ID} < col_tag.end_snapshot OR col_tag.end_snapshot IS NULL) ) AS column_tags FROM {METADATA_CATALOG}.ducklake_table tbl LEFT JOIN {METADATA_CATALOG}.ducklake_column col USING (table_id) WHERE {SNAPSHOT_ID} >= tbl.begin_snapshot AND ({SNAPSHOT_ID} < tbl.end_snapshot OR tbl.end_snapshot IS NULL) AND (({SNAPSHOT_ID} >= col.begin_snapshot AND ({SNAPSHOT_ID} < col.end_snapshot OR col.end_snapshot IS NULL)) OR column_id IS NULL) ORDER BY table_id, parent_column NULLS FIRST, column_order"

abbrev pub view_sql : String
view_sql =
    "SELECT view_id, view_uuid, schema_id, view_name, dialect, sql, column_aliases, ( SELECT ARRAY_AGG(JSONB_BUILD_OBJECT('key', key, 'value', value)) FROM {METADATA_CATALOG}.ducklake_tag tag WHERE object_id=view_id AND {SNAPSHOT_ID} >= tag.begin_snapshot AND ({SNAPSHOT_ID} < tag.end_snapshot OR tag.end_snapshot IS NULL) ) AS tag FROM {METADATA_CATALOG}.ducklake_view view WHERE {SNAPSHOT_ID} >= begin_snapshot AND ({SNAPSHOT_ID} < view.end_snapshot OR view.end_snapshot IS NULL)"

abbrev pub partition_sql : String
partition_sql =
    "SELECT partition_id, part.table_id, partition_key_index, column_id, transform FROM {METADATA_CATALOG}.ducklake_partition_info part JOIN {METADATA_CATALOG}.ducklake_partition_column part_col USING (partition_id) WHERE {SNAPSHOT_ID} >= part.begin_snapshot AND ({SNAPSHOT_ID} < part.end_snapshot OR part.end_snapshot IS NULL) ORDER BY part.table_id, partition_id, partition_key_index"

-- DuckDB's reading of a result: its error, if it holds one, the rows of each query, at the types
-- that `GetValue` is called with, and the text of an exception.
pub record ResultReader (S : SpiBackend) (V : Type 0) : Type 0 where
  pub error_of : QueryResult S → Option String
  pub schema_rows : QueryResult S → List SchemaRow
  pub table_rows : QueryResult S → List (TableRow V)
  pub view_rows : QueryResult S → List (ViewRow V)
  pub partition_rows : QueryResult S → List PartitionRow
  pub what : Exception → String

module _ (S : SpiBackend) (D : DuckDb) (F : Fillers) (R : ResultReader S D.Value) where
  -- What `throw` does, in a run.
  abbrev pub or_throw : {A : Type 0} → Result Exception A → Run A
  or_throw (ok a) = pure a
  or_throw (err e) = raise (duckdb_exception (R.what e))

  -- `HasError()`, or the rows.
  abbrev pub rows_of :
      {A : Type 0} → (QueryResult S → List A) → QueryResult S → Result String (List A)
  rows_of rows result = elim (R.error_of result) [
    | none ↦ ok (rows result)
    | some message ↦ err message
  ]

  -- A query, and the test of its result.
  unfoldable pub fetch_rows :
      {A : Type 0} → F.Snapshot → String → String → (QueryResult S → List A) → Run (List A)
  unfolding query_at create_spi_result
  fetch_rows snapshot text prefix rows = do
    result ← query_at F (create_spi_result S) snapshot text
    or_throw (rows_or_throw prefix (rows_of rows result))

  unfoldable pub fetch_catalog : String → F.Snapshot → Run CatalogInfo
  unfolding fetch_rows load_schemas load_tables load_views load_partitions
  fetch_catalog base_data_path snapshot = do
    schema_rows ← fetch_rows snapshot schema_sql schema_prefix R.schema_rows
    let schemas = load_schemas D base_data_path no_schemas schema_rows
    table_rows ← fetch_rows snapshot table_sql table_prefix R.table_rows
    tables ← or_throw (load_tables D schemas table_rows)
    view_rows ← fetch_rows snapshot view_sql partition_prefix R.view_rows
    views ← or_throw (load_views D view_rows)
    partition_rows ← fetch_rows snapshot partition_sql partition_prefix R.partition_rows
    pure (record {
      schemas = schemas.schemas;
      tables = tables;
      views = views;
      partitions = load_partitions partition_rows;
    })
