-- ===== src/Metadata/Store/Needs.antt =====
-- What `GetCatalogForSnapshot` needs of the metadata tables in order to return.
use mathlib.Core.List.{Permᴰ}
use mathlib.Core.List.Permᴰ
use pg_ducklake_next.Base.{
  ℕ, ◌≡◌, ◌≢◌, subst, String, some, List, [], ◌∷◌, map, All, All-map, All-perm, All-from_map,
  All-from_concat_map, select,
}
use pg_ducklake_next.Base.Result.{ok, err, >>=-eq-ok}
use pg_ducklake_next.Metadata.Values.{no_columns, DuckDb, load_tags}
use pg_ducklake_next.Metadata.Tables.{TableRow, load_unless_null, column_of_row}
use pg_ducklake_next.Metadata.Tables.Collected.{TableEntry}
use pg_ducklake_next.Metadata.Tables.Lossless.{entry_of_row, row_entries, load_tables-lossless}
use pg_ducklake_next.Metadata.Catalog.{Answers, CatalogInfo, get_catalog_for_snapshot}
use pg_ducklake_next.Metadata.Catalog.Loaded.{loaded_tables}
use pg_ducklake_next.Metadata.Records.{Store, TableRecord, ColumnRecord}
use pg_ducklake_next.Metadata.Store.{
  Aggregates, columns_of, visible_tables, or_null, keeps_column, row_of_join, join_of_table,
  table_query, tags_of_column,
}
use pg_ducklake_next.Metadata.Store.Joins.{visible_columns, join_of_table-visible}
use pg_ducklake_next.Metadata.Store.Answer.{HasTags}

-- The row describes a column by itself.
abbrev HasEntry : (D : DuckDb) → TableRow D.Value → Type 0
HasEntry D r = (e : TableEntry) × (entry_of_row D r ≡ ok e)

row_entries-HasEntry :
    (D : DuckDb) (rows : List (TableRow D.Value)) (es : List TableEntry)
    → row_entries D rows ≡ ok es
    → All (HasEntry D) rows
row_entries-HasEntry D [] es h = tt
row_entries-HasEntry D (r ∷ rows) es h =
    let (e, one, more) = >>=-eq-ok (entry_of_row D r) _ h in
    let (others, rest, _) = >>=-eq-ok (row_entries D rows) _ more in
    ((e, one), row_entries-HasEntry D rows others rest)

module _ (D : DuckDb) (G : Aggregates D.Value) (store : Store) (snapshot : ℕ) where
  -- The table has had a column at some snapshot, and the tags of its visible columns can be read.
  pub record IsLoadable (t : TableRecord) : Type 0 where
    pub has_columns : columns_of store t ≢ []
    pub columns :
        All
          (λ (c : ColumnRecord).
            HasTags D G store snapshot
              (tags_of_column D.Value G store snapshot t.table_id c.column_id))
          (visible_columns store snapshot t)

  join_of_table-has_columns :
      (t : TableRecord)
      → All (HasEntry D) (join_of_table D.Value G store snapshot t)
      → columns_of store t ≢ []
  unfolding join_of_table row_of_join or_null keeps_column
  join_of_table-has_columns t h empty =
      let row = row_of_join D.Value G store snapshot t in
      let alone : All (HasEntry D) (map row (select (keeps_column snapshot) (or_null []))) =
        subst (λ cs. All (HasEntry D) (map row (select (keeps_column snapshot) (or_null cs)))) empty
          h in
      let (e, said) = alone.0 in let never : err (no_columns t.table_name) ≡ ok e = said in cc

  row_of_join-HasTags :
      (t : TableRecord) (c : ColumnRecord)
      → HasEntry D (row_of_join D.Value G store snapshot t (some c))
      → HasTags D G store snapshot (tags_of_column D.Value G store snapshot t.table_id c.column_id)
  unfolding row_of_join column_of_row
  row_of_join-HasTags t c (e, h) =
      let (info, read, _) =
        >>=-eq-ok (column_of_row D (row_of_join D.Value G store snapshot t (some c)) c.column_id) _
          h in
      let (tags, loaded, _) =
        >>=-eq-ok
          (load_unless_null (load_tags D)
            (tags_of_column D.Value G store snapshot t.table_id c.column_id))
          _ read in
      (tags, loaded)

  join_of_table-IsLoadable :
      (t : TableRecord) → All (HasEntry D) (join_of_table D.Value G store snapshot t) → IsLoadable t
  join_of_table-IsLoadable t h =
      let some_column = join_of_table-has_columns t h in
      let row = λ (c : ColumnRecord). row_of_join D.Value G store snapshot t (some c) in
      let columns = visible_columns store snapshot t in
      record {
        has_columns = some_column;
        columns = All-map columns (row_of_join-HasTags t) (
            All-from_map (HasEntry D) row columns (
              subst (All (HasEntry D))
                (join_of_table-visible D.Value G store snapshot t some_column) h));
      }

  -- If the table query answers in any order and `GetCatalogForSnapshot` returns a catalog, then
  -- every visible table has had a column at some snapshot, and the tags of each of its visible
  -- columns can be read: else the whole load fails.
  pub get_catalog_for_snapshot-IsLoadable :
      (rows : List (TableRow D.Value))
      → Permᴰ (table_query D.Value G store snapshot) rows
      → (base_data_path : String) (answers : Answers D.Value) (catalog : CatalogInfo)
      → answers.table_rows ≡ ok rows
      → get_catalog_for_snapshot D base_data_path answers ≡ ok catalog
      → All IsLoadable (visible_tables store snapshot)
  unfolding table_query
  get_catalog_for_snapshot-IsLoadable rows p base_data_path answers catalog e h =
      let (schemas, tables, loaded, _) = loaded_tables D base_data_path answers catalog rows e h in
      let (es, read, _) = load_tables-lossless D schemas rows tables loaded in
      let described = All-perm (HasEntry D) (Permᴰ.symm p) (row_entries-HasEntry D rows es read) in
      All-map (visible_tables store snapshot) join_of_table-IsLoadable (
        All-from_concat_map (HasEntry D) (join_of_table D.Value G store snapshot)
          (visible_tables store snapshot) described)
