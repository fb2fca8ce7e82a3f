-- ===== src/Metadata/Catalog/Total.antt =====
-- `GetCatalogForSnapshot` of well-formed metadata, from the answers to the returned catalog.
use mathlib.Core.List.{Perm}
use pg_ducklake_next.Base.{◌≡◌, refl, String, List, map, All, Any}
use pg_ducklake_next.Base.Result.{ok}
use pg_ducklake_next.Metadata.Values.{DuckDb}
use pg_ducklake_next.Metadata.Schemas.{SchemaRow, schema_of_row, no_schemas, load_schemas}
use pg_ducklake_next.Metadata.Schemas.Lookup.{load_schemas-map}
use pg_ducklake_next.Metadata.Tables.{TableRow}
use pg_ducklake_next.Metadata.Tables.Collected.{TableEntry, all_entries}
use pg_ducklake_next.Metadata.Tables.Lossless.{row_entries, load_tables-lossless}
use pg_ducklake_next.Metadata.Tables.Groups.{IsOrdered, Ascending, table_ids, load_tables-Ascending}
use pg_ducklake_next.Metadata.Tables.Parents.{HasParents, IsBelowParent}
use pg_ducklake_next.Metadata.Tables.Success.{Loads, load_tables-succeeds}
use pg_ducklake_next.Metadata.Tables.Headers.{IsNamedBy, load_tables-Named}
use pg_ducklake_next.Metadata.Views.{ViewRow, ViewInfo}
use pg_ducklake_next.Metadata.Views.Order.{Reads, load_views-order}
use pg_ducklake_next.Metadata.Partitions.{PartitionRow, load_partitions}
use pg_ducklake_next.Metadata.Partitions.Fields.{all_fields, row_field, load_partitions-fields}
use pg_ducklake_next.Metadata.Catalog.{CatalogInfo, get_catalog_for_snapshot}

module _ (D : DuckDb) (base_data_path : String) where
  -- Answers that are rows, as well-formed metadata gives them: table rows in the order of ORDER BY,
  -- which can be loaded one by one, whose parents are there and have smaller ids; readable views.
  pub record IsWellFormed (schema_rows : List SchemaRow) (table_rows : List (TableRow D.Value))
      (views : List (ViewRow D.Value × ViewInfo)) : Type 0 where
    pub ordered : IsOrdered table_rows
    pub loads : All (Loads D (load_schemas D base_data_path no_schemas schema_rows)) table_rows
    pub parents : All (HasParents table_rows) table_rows
    pub below : All IsBelowParent table_rows
    pub reads : All (Reads D) views

  -- The catalog holds what the rows say: the schemas in row order, tables with ascending ids, named
  -- by rows, whose columns are those of the rows, up to order, the views in row order, and the
  -- partition fields in row order.
  pub record Describes (schema_rows : List SchemaRow) (table_rows : List (TableRow D.Value))
      (views : List (ViewRow D.Value × ViewInfo)) (partition_rows : List PartitionRow)
      (catalog : CatalogInfo) : Type 0 where
    pub schemas_kept : catalog.schemas ≡ map (schema_of_row D base_data_path) schema_rows
    pub named : All (λ t. Any (IsNamedBy D t) table_rows) catalog.tables
    pub ascending : Ascending (table_ids catalog.tables)
    pub columns :
        (es : List TableEntry) × (row_entries D table_rows ≡ ok es)
        × Perm (all_entries catalog.tables) es
    pub views_kept : catalog.views ≡ map (λ p. p.1) views
    pub fields : all_fields catalog.partitions ≡ map row_field partition_rows

  -- If the four queries answer with rows, the table rows in the order of ORDER BY, each of which
  -- can be loaded by itself, with every parent's row in the same table and of a smaller column id,
  -- and if every view row can be read, then `GetCatalogForSnapshot` returns a catalog. Its schemas
  -- are those of the rows in order, each table has the id, schema, UUID and name of one of its rows
  -- and the tags and inlined tables that are read from it, the table ids are strictly ascending,
  -- its columns are, up to order, those of the rows, each in its table and below its parent, its
  -- views are those of the rows in order, and its partition fields, with the tables of their
  -- partitions, are those of the rows in order.
  pub get_catalog_for_snapshot-total :
      (schema_rows : List SchemaRow) (table_rows : List (TableRow D.Value))
      (views : List (ViewRow D.Value × ViewInfo)) (partition_rows : List PartitionRow)
      → IsWellFormed schema_rows table_rows views
      → (catalog : CatalogInfo) × (get_catalog_for_snapshot D base_data_path (record {
        schema_rows = ok schema_rows;
        table_rows = ok table_rows;
        view_rows = ok (map (λ p. p.0) views);
        partition_rows = ok partition_rows;
      })
          ≡ ok catalog)
        × Describes schema_rows table_rows views partition_rows catalog
  unfolding get_catalog_for_snapshot
  get_catalog_for_snapshot-total schema_rows table_rows views partition_rows w =
      let schemas = load_schemas D base_data_path no_schemas schema_rows in
      let (tables, loaded) =
        load_tables-succeeds D schemas table_rows w.ordered w.loads w.parents w.below in
      let catalog : CatalogInfo = record {
        schemas = schemas.schemas;
        tables = tables;
        views = map (λ p. p.1) views;
        partitions = load_partitions partition_rows;
      } in
      (
        catalog,
        rw (loaded, load_views-order D views w.reads) refl,
        record {
          schemas_kept = load_schemas-map D base_data_path no_schemas schema_rows;
          named = load_tables-Named D schemas table_rows tables loaded;
          ascending = load_tables-Ascending D schemas table_rows tables w.ordered loaded;
          columns = load_tables-lossless D schemas table_rows tables loaded;
          views_kept = refl;
          fields = load_partitions-fields partition_rows;
        },
      )
