-- ===== src/Metadata/Store.antt =====
-- The rows that the four queries of `GetCatalogForSnapshot` (src/pgducklake_metadata_manager.cpp)
-- select from the metadata tables, without an order.
pub mod Answer
pub mod Joins
pub mod Keys
pub mod Rows
pub mod ViewRows
pub mod Refinement
pub mod ColumnOrder
pub mod Needs
use pg_ducklake_next.Base.{
  ℕ, String, Bool, true, false, ◌&&◌, ◌==◌, ltb, leb, Option, none, some, List, [], ◌∷◌, map,
  select, concat_map,
}
use pg_ducklake_next.Metadata.Schemas.{SchemaRow}
use pg_ducklake_next.Metadata.Tables.{TableRow}
use pg_ducklake_next.Metadata.Views.{ViewRow}
use pg_ducklake_next.Metadata.Partitions.{PartitionRow}
use pg_ducklake_next.Metadata.Records.{
  Lifetime, SchemaRecord, TableRecord, ColumnRecord, TagRecord, ColumnTagRecord, InlinedRecord,
  ViewRecord, PartitionInfoRecord, PartitionColumnRecord, Store,
}

-- `SNAPSHOT_ID < end_snapshot OR end_snapshot IS NULL`
unfoldable pub not_ended : ℕ → Option ℕ → Bool
not_ended snapshot none = true
not_ended snapshot (some e) = ltb snapshot e

-- `SNAPSHOT_ID >= begin_snapshot AND (...)`, which is not true where `begin_snapshot` is NULL.
unfoldable pub has_begun : ℕ → Option ℕ → Bool
has_begun snapshot none = false
has_begun snapshot (some b) = leb b snapshot

unfoldable pub is_visible : ℕ → Lifetime → Bool
unfolding has_begun not_ended
is_visible snapshot l = has_begun snapshot l.begin_snapshot && not_ended snapshot l.end_snapshot

-- The values that the two `array_agg(jsonb_build_object(...))` of a list of rows reach DuckDB as.
pub record Aggregates (Value : Type 0) : Type 0 where
  pub tag_array : List (Option String × Option String) → Value
  pub inlined_array : List (String × ℕ) → Value

-- An aggregate of no rows is NULL.
unfoldable pub array_agg : {A V : Type 0} → (List A → V) → List A → Option V
array_agg aggregate [] = none
array_agg aggregate (x ∷ xs) = some (aggregate (x ∷ xs))

-- The right side of a LEFT JOIN: the matches, or one row of NULLs.
unfoldable pub or_null : {A : Type 0} → List A → List (Option A)
or_null [] = none ∷ []
or_null (x ∷ xs) = map some (x ∷ xs)

-- The part of the WHERE clause on the column: visible, or `column_id IS NULL`.
unfoldable pub keeps_column : ℕ → Option ColumnRecord → Bool
unfolding is_visible
keeps_column snapshot none = true
keeps_column snapshot (some c) = is_visible snapshot c.lifetime

-- The columns of a table, at any snapshot.
abbrev pub columns_of : Store → TableRecord → List ColumnRecord
columns_of store t = select (λ c. c.table_id == t.table_id) store.columns

module _ (store : Store) (snapshot : ℕ) where
  abbrev pub visible_schemas : List SchemaRecord
  visible_schemas = select (λ s. is_visible snapshot s.lifetime) store.schemas

  -- The first query.
  unfoldable pub schema_query : List SchemaRow
  unfolding is_visible
  schema_query = map (λ s. s.row) visible_schemas

  abbrev pub visible_tables : List TableRecord
  visible_tables = select (λ t. is_visible snapshot t.lifetime) store.tables

  abbrev pub visible_views : List ViewRecord
  visible_views = select (λ v. is_visible snapshot v.lifetime) store.views

  unfoldable pub rows_of_partition : PartitionInfoRecord → List PartitionRow
  rows_of_partition p =
      map
        (λ c. record {
          partition_id = p.partition_id;
          table_id = p.table_id;
          partition_key_index = c.partition_key_index;
          column_id = c.column_id;
          transform = c.transform;
        })
        (select (λ c. c.partition_id == p.partition_id) store.partition_columns)

  -- The fourth query.
  unfoldable pub partition_query : List PartitionRow
  unfolding rows_of_partition is_visible
  partition_query =
      concat_map rows_of_partition
        (select (λ p. is_visible snapshot p.lifetime) store.partition_infos)

module _ (V : Type 0) (G : Aggregates V) (store : Store) (snapshot : ℕ) where
  -- The subquery for the tags of a table or a view.
  unfoldable pub tags_of_object : ℕ → Option V
  unfolding array_agg is_visible
  tags_of_object id = array_agg G.tag_array (
      map (λ t. (t.key, t.value))
        (select (λ t. t.object_id == id && is_visible snapshot t.lifetime) store.tags))

  unfoldable pub inlined_of_table : ℕ → Option V
  unfolding array_agg
  inlined_of_table id = array_agg G.inlined_array (
      map (λ t. (t.table_name, t.schema_version))
        (select (λ t. t.table_id == id) store.inlined_data_tables))

  unfoldable pub tags_of_column : ℕ → ℕ → Option V
  unfolding array_agg is_visible
  tags_of_column table_id column_id = array_agg G.tag_array (
      map (λ t. (t.key, t.value))
        (select
          (λ t.
            t.table_id == table_id && (t.column_id == column_id && is_visible snapshot t.lifetime))
          store.column_tags))

  -- A row of the second query; where the columns are NULL, those that are not tested for NULL are
  -- not read.
  unfoldable pub row_of_join : TableRecord → Option ColumnRecord → TableRow V
  unfolding tags_of_object inlined_of_table tags_of_column
  row_of_join t none = record {
    schema_id = t.schema_id;
    table_id = t.table_id;
    table_uuid = t.table_uuid;
    table_name = t.table_name;
    tag = tags_of_object t.table_id;
    inlined_data_tables = inlined_of_table t.table_id;
    path = t.path;
    path_is_relative = t.path_is_relative;
    column_id = none;
    column_name = "";
    column_type = "";
    initial_default = none;
    default_value = none;
    nulls_allowed = false;
    parent_column = none;
    column_tags = none;
  }
  row_of_join t (some c) = record {
    schema_id = t.schema_id;
    table_id = t.table_id;
    table_uuid = t.table_uuid;
    table_name = t.table_name;
    tag = tags_of_object t.table_id;
    inlined_data_tables = inlined_of_table t.table_id;
    path = t.path;
    path_is_relative = t.path_is_relative;
    column_id = some c.column_id;
    column_name = c.column_name;
    column_type = c.column_type;
    initial_default = c.initial_default;
    default_value = c.default_value;
    nulls_allowed = c.nulls_allowed;
    parent_column = c.parent_column;
    column_tags = tags_of_column t.table_id c.column_id;
  }

  unfoldable pub join_of_table : TableRecord → List (TableRow V)
  unfolding row_of_join keeps_column or_null
  join_of_table t =
      map (row_of_join t) (select (keeps_column snapshot) (or_null (columns_of store t)))

  -- The second query.
  unfoldable pub table_query : List (TableRow V)
  unfolding join_of_table is_visible
  table_query = concat_map join_of_table (visible_tables store snapshot)

  unfoldable pub row_of_view : ViewRecord → ViewRow V
  unfolding tags_of_object
  row_of_view v = record {
    view_id = v.view_id;
    view_uuid = v.view_uuid;
    schema_id = v.schema_id;
    view_name = v.view_name;
    dialect = v.dialect;
    sql = v.sql;
    column_aliases = v.column_aliases;
    tag = tags_of_object v.view_id;
  }

  -- The third query.
  unfoldable pub view_query : List (ViewRow V)
  unfolding row_of_view is_visible
  view_query = map row_of_view (visible_views store snapshot)
