-- ===== src/Metadata/Store/Answer.antt =====
-- What PostgreSQL may answer to the four queries, and the metadata that can be loaded.
use mathlib.Core.List.{Permᴰ}
use pg_ducklake_next.Base.{ℕ, ◌<◌, ◌≡◌, ◌≢◌, String, Option, some, List, [], All, Any}
use pg_ducklake_next.Base.Result.{ok}
use pg_ducklake_next.Metadata.Columns.{Tag}
use pg_ducklake_next.Metadata.Values.{DuckDb, InlinedTableInfo, load_tags, load_inlined_data_tables}
use pg_ducklake_next.Metadata.Schemas.{SchemaRow}
use pg_ducklake_next.Metadata.Tables.{TableRow, load_unless_null}
use pg_ducklake_next.Metadata.Tables.Groups.{IsOrdered}
use pg_ducklake_next.Metadata.Views.{ViewRow}
use pg_ducklake_next.Metadata.Partitions.{PartitionRow}
use pg_ducklake_next.Metadata.Partitions.Fields.{IsByTable}
use pg_ducklake_next.Metadata.Records.{Store, TableRecord, ColumnRecord, ViewRecord}
use pg_ducklake_next.Metadata.Store.{
  Aggregates, visible_schemas, columns_of, visible_tables, visible_views, tags_of_object,
  inlined_of_table, tags_of_column, schema_query, table_query, view_query, partition_query,
}
use pg_ducklake_next.Metadata.Store.Joins.{visible_columns}

module _ (D : DuckDb) (G : Aggregates D.Value) (store : Store) (snapshot : ℕ) where
  -- The rows of each query in an order that its ORDER BY allows.
  pub record IsAnswer (schema_rows : List SchemaRow) (table_rows : List (TableRow D.Value))
      (view_rows : List (ViewRow D.Value)) (partition_rows : List PartitionRow) : Type 0 where
    pub schemas : Permᴰ (schema_query store snapshot) schema_rows
    pub tables : Permᴰ (table_query D.Value G store snapshot) table_rows
    pub tables_ordered : IsOrdered table_rows
    pub views : Permᴰ (view_query D.Value G store snapshot) view_rows
    pub partitions : Permᴰ (partition_query store snapshot) partition_rows
    pub partitions_ordered : IsByTable partition_rows

  abbrev pub HasTags : Option D.Value → Type 0
  HasTags v = (ts : List Tag) × (load_unless_null (load_tags D) v ≡ ok ts)

  abbrev pub HasInlined : Option D.Value → Type 0
  HasInlined v =
      (ts : List InlinedTableInfo) × (load_unless_null (load_inlined_data_tables D) v ≡ ok ts)

  -- A visible column: its tags can be read, and its parent is a visible column of the same table
  -- with a smaller id.
  pub record IsColumnOk (t : TableRecord) (c : ColumnRecord) : Type 0 where
    pub tags : HasTags (tags_of_column D.Value G store snapshot t.table_id c.column_id)
    pub parent :
        (p : ℕ)
        → c.parent_column ≡ some p
        → Any (λ (d : ColumnRecord). d.column_id ≡ p) (visible_columns store snapshot t)
          × (p < c.column_id)

  -- A visible table: its schema is visible, its tags and inlined tables can be read, it has had a
  -- column at some snapshot, and its visible columns are as above.
  pub record IsTableOk (t : TableRecord) : Type 0 where
    pub schema : Any (λ s. s.row.schema_id ≡ t.schema_id) (visible_schemas store snapshot)
    pub tags : HasTags (tags_of_object D.Value G store snapshot t.table_id)
    pub inlined : HasInlined (inlined_of_table D.Value G store snapshot t.table_id)
    pub has_columns : columns_of store t ≢ []
    pub columns : All (IsColumnOk t) (visible_columns store snapshot t)

  pub record IsViewOk (v : ViewRecord) : Type 0 where
    pub tags : HasTags (tags_of_object D.Value G store snapshot v.view_id)
    pub aliases : (names : List String) × (D.parse_quoted_list v.column_aliases ≡ ok names)

  pub record IsStoreOk : Type 0 where
    pub tables : All IsTableOk (visible_tables store snapshot)
    pub views : All IsViewOk (visible_views store snapshot)
