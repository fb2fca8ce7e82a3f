-- ===== src/Metadata/Catalog/Loaded.antt =====
-- Where the tables of a catalog come from.
use pg_ducklake_next.Base.{◌≡◌, ap, String, List}
use pg_ducklake_next.Base.Result.{ok, >>=-eq-ok, ok-injective}
use pg_ducklake_next.Metadata.Values.{DuckDb}
use pg_ducklake_next.Metadata.Schemas.{Schemas, no_schemas, load_schemas}
use pg_ducklake_next.Metadata.Tables.{TableRow, TableInfo, load_tables}
use pg_ducklake_next.Metadata.Catalog.{
  Answers, CatalogInfo, rows_or_throw, schema_prefix, partition_prefix, get_catalog_for_snapshot,
}
use pg_ducklake_next.Metadata.Views.{load_views}

-- The tables of a catalog come out of the loop over the table rows.
pub loaded_tables :
    (D : DuckDb) (base_data_path : String) (answers : Answers D.Value) (catalog : CatalogInfo)
    (rows : List (TableRow D.Value))
    → answers.table_rows ≡ ok rows
    → get_catalog_for_snapshot D base_data_path answers ≡ ok catalog
    → (schemas : Schemas) × (tables : List TableInfo) × (load_tables D schemas rows ≡ ok tables)
      × (tables ≡ catalog.tables)
unfolding get_catalog_for_snapshot
loaded_tables D base_data_path answers catalog rows e h =
    let (schema_rows, _, e1) = >>=-eq-ok (rows_or_throw schema_prefix answers.schema_rows) _ h in
    let schemas = load_schemas D base_data_path no_schemas schema_rows in
    let (tables, loaded, e3) = >>=-eq-ok (load_tables D schemas rows) _ (rw e at e1) in
    let (view_rows, _, e4) = >>=-eq-ok (rows_or_throw partition_prefix answers.view_rows) _ e3 in
    let (views, _, e5) = >>=-eq-ok (load_views D view_rows) _ e4 in
    let (partition_rows, _, e6) =
      >>=-eq-ok (rows_or_throw partition_prefix answers.partition_rows) _ e5 in
    (schemas, tables, loaded, ap (λ (c : CatalogInfo). c.tables) (ok-injective e6))
