-- ===== src/Tests/Catalog.antt =====
-- The catalog of the sample rows.
use mathlib.Core.List.{Perm}
use pg_ducklake_next.Base.{
  ℕ, ◌≡◌, refl, String, Option, none, some, List, [], ◌∷◌, map, All, inl, inr, arith,
}
use pg_ducklake_next.Base.Result.{Result, ok, err}
use pg_ducklake_next.Metadata.Schemas.{no_schemas, load_schemas, find_schema}
use pg_ducklake_next.Metadata.Schemas.Lookup.{find_schema-load_schemas, expected_schema}
use pg_ducklake_next.Metadata.Tables.{TableInfo, new_table, column_of_row, load_tables}
use pg_ducklake_next.Metadata.Tables.Collected.{TableEntry, all_entries}
use pg_ducklake_next.Metadata.Tables.Lossless.{row_entries, load_tables-lossless}
use pg_ducklake_next.Metadata.Tables.Groups.{IsOrdered, Ascending}
use pg_ducklake_next.Metadata.Tables.Parents.{HasParents, IsBelowParent}
use pg_ducklake_next.Metadata.Tables.Success.{Loads, load_tables-succeeds}
use pg_ducklake_next.Metadata.Columns.{nil}
use pg_ducklake_next.Metadata.Values.{load_tags}
use pg_ducklake_next.Metadata.Views.{ViewRow, ViewInfo, view_of_row, load_views}
use pg_ducklake_next.Metadata.Partitions.{PartitionRow, partition_field, load_partitions}
use pg_ducklake_next.Metadata.Partitions.Fields.{partition_tables, load_partitions-Ascending}
use pg_ducklake_next.Metadata.Catalog.References.{HasSchema, get_catalog_for_snapshot-HasSchema}
use pg_ducklake_next.Metadata.Catalog.{Answers, CatalogInfo, get_catalog_for_snapshot}
use pg_ducklake_next.Metadata.Catalog.Total.{
  IsWellFormed, Describes, get_catalog_for_snapshot-total,
}
use pg_ducklake_next.Tests.Samples.{
  Sample, column_of, table_of, duckdb, schema_rows, table_rows, tables, schemas, view_row,
  view_info, partition_row,
}

tables-loaded : load_tables duckdb schemas table_rows ≡ ok tables
unfolding load_tables pg_ducklake_next.Base.Result.fold_result find_schema load_schemas
    pg_ducklake_next.Metadata.Columns.add_child_column
tables-loaded = refl

load_tables-lossless_example :
    (es : List TableEntry) × (row_entries duckdb table_rows ≡ ok es) × Perm (all_entries tables) es
load_tables-lossless_example = load_tables-lossless duckdb schemas table_rows tables tables-loaded

rows-IsOrdered : IsOrdered table_rows
rows-IsOrdered = ((inr (refl, tt), (inl (omega arith), tt)), ((inl (omega arith), tt), (tt, tt)))

rows-Loads : All (Loads duckdb schemas) table_rows
unfolding new_table column_of_row find_schema load_schemas
rows-Loads = (
  (table_of 7 nil, 1, column_of 1, refl, refl, refl),
  (
    (table_of 7 nil, 2, column_of 2, refl, refl, refl),
    ((table_of 9 nil, 1, column_of 1, refl, refl, refl), tt),
  ),
)

rows-HasParents : All (HasParents table_rows) table_rows
rows-HasParents = (
  λ p e. absurd (ground arith),
  (λ p e. inl (refl, ground arith), (λ p e. absurd (ground arith), tt)),
)

rows-IsBelowParent : All IsBelowParent table_rows
rows-IsBelowParent = (
  λ p id e f. absurd (ground arith),
  (λ p id e f. ground arith, (λ p id e f. absurd (ground arith), tt)),
)

load_tables-succeeds_example :
    (ts : List TableInfo) × (load_tables duckdb schemas table_rows ≡ ok ts)
load_tables-succeeds_example =
    load_tables-succeeds duckdb schemas table_rows rows-IsOrdered rows-Loads rows-HasParents
      rows-IsBelowParent

view-Reads : view_of_row duckdb view_row ≡ ok view_info
unfolding view_of_row load_tags
view-Reads = refl

abbrev views : List (ViewRow Sample × ViewInfo)
views = (view_row, view_info) ∷ []

abbrev partition_rows : List PartitionRow
partition_rows = partition_row 4 7 0 ∷ partition_row 4 7 1 ∷ partition_row 5 9 0 ∷ []

abbrev answers : Answers Sample
answers = record {
  schema_rows = ok schema_rows;
  table_rows = ok table_rows;
  view_rows = ok (map (λ p. p.0) views);
  partition_rows = ok partition_rows;
}

rows-IsWellFormed : IsWellFormed duckdb "data/" schema_rows table_rows views
rows-IsWellFormed = record {
  ordered = rows-IsOrdered;
  loads = rows-Loads;
  parents = rows-HasParents;
  below = rows-IsBelowParent;
  reads = (view-Reads, tt);
}

get_catalog_for_snapshot-total_example :
    (catalog : CatalogInfo) × (get_catalog_for_snapshot duckdb "data/" answers ≡ ok catalog)
    × Describes duckdb "data/" schema_rows table_rows views partition_rows catalog
get_catalog_for_snapshot-total_example =
    get_catalog_for_snapshot-total duckdb "data/" schema_rows table_rows views partition_rows
      rows-IsWellFormed

abbrev catalog : CatalogInfo
catalog = record {
  schemas = record { id = 1; uuid = "u1"; name = "public"; path = "data/" } ∷ [];
  tables = tables;
  views = view_info ∷ [];
  partitions =
      (record {
        id = 4;
        table_id = 7;
        fields = map partition_field (partition_row 4 7 0 ∷ partition_row 4 7 1 ∷ []);
      })
      ∷ (record { id = 5; table_id = 9; fields = map partition_field (partition_row 5 9 0 ∷ []) })
      ∷ [];
}

catalog-loaded : get_catalog_for_snapshot duckdb "data/" answers ≡ ok catalog
unfolding get_catalog_for_snapshot load_tables pg_ducklake_next.Base.Result.fold_result find_schema
    load_schemas pg_ducklake_next.Metadata.Columns.add_child_column load_views load_tags
    load_partitions
catalog-loaded = refl

get_catalog_for_snapshot-HasSchema_example :
    All (HasSchema duckdb "data/" catalog.schemas) catalog.tables
get_catalog_for_snapshot-HasSchema_example =
    get_catalog_for_snapshot-HasSchema duckdb "data/" answers catalog catalog-loaded

find_schema-load_schemas_example :
    find_schema (load_schemas duckdb "data/" no_schemas schema_rows) 7 1
    ≡ expected_schema duckdb "data/" schema_rows 7 1
find_schema-load_schemas_example = find_schema-load_schemas duckdb "data/" schema_rows 7 1

load_partitions-Ascending_example : Ascending (partition_tables (load_partitions partition_rows))
load_partitions-Ascending_example =
    load_partitions-Ascending partition_rows
      ((omega arith, (omega arith, tt)), ((omega arith, tt), (tt, tt)))
