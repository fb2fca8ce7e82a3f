-- ===== src/Metadata/Store/Refinement.antt =====
-- `GetCatalogForSnapshot` against the metadata tables: from the tables through the four queries to
-- the catalog.
use mathlib.Core.List.{Perm, Permᴰ}
use mathlib.Core.List.Perm
use pg_ducklake_next.Base.{
  ℕ, ◌≡◌, refl, ap, sym, ◌∙◌, subst, String, Option, none, some, List, [], ◌∷◌, map, All, All-map,
  All-perm, All-of-map, All-every, All-append, Any-All, inl, inr, Any, concat_map,
}
use pg_ducklake_next.Base.Result.{ok, >>=-eq-ok, ok-injective}
use pg_ducklake_next.Metadata.Values.{DuckDb, load_tags, load_inlined_data_tables}
use pg_ducklake_next.Metadata.Schemas.{SchemaRow, schema_of_row}
use pg_ducklake_next.Metadata.Tables.{TableRow, TableInfo, load_unless_null}
use pg_ducklake_next.Metadata.Tables.Collected.{TableEntry, all_entries}
use pg_ducklake_next.Metadata.Tables.Lossless.{entry_of_row, row_entries}
use pg_ducklake_next.Metadata.Tables.Groups.{Ascending, table_ids}
use pg_ducklake_next.Metadata.Tables.Headers.{IsNamedBy}
use pg_ducklake_next.Metadata.Views.{ViewRow, ViewInfo, view_of_row}
use pg_ducklake_next.Metadata.Views.Order.{Reads}
use pg_ducklake_next.Metadata.Partitions.{PartitionRow}
use pg_ducklake_next.Metadata.Partitions.Fields.{all_fields, row_field}
use pg_ducklake_next.Metadata.Catalog.{CatalogInfo, get_catalog_for_snapshot}
use pg_ducklake_next.Metadata.Catalog.Total.{Describes, get_catalog_for_snapshot-total}
use pg_ducklake_next.Metadata.Records.{Store, TableRecord, ColumnRecord}
use pg_ducklake_next.Metadata.Store.{
  tags_of_object, inlined_of_table, Aggregates, visible_tables, visible_views, schema_query,
  row_of_join, join_of_table, table_query, view_query, partition_query,
}
use pg_ducklake_next.Metadata.Store.Answer.{IsAnswer, IsStoreOk}
use pg_ducklake_next.Metadata.Store.Keys.{untagged, columns_at, row_entries-columns_at}
use pg_ducklake_next.Metadata.Store.Rows.{table_query-Loads}
use pg_ducklake_next.Metadata.Store.ViewRows.{plain_view, view_key, view_query-Reads}

row_entries-ok :
    (D : DuckDb) (rows : List (TableRow D.Value)) (es : List TableEntry)
    → row_entries D rows ≡ ok es
    → map ok es ≡ map (entry_of_row D) rows
row_entries-ok D [] es h = ap (map ok) (sym (ok-injective h))
row_entries-ok D (r ∷ rows) es h =
    let (e, one, more) = >>=-eq-ok (entry_of_row D r) _ h in
    let (others, rest, all) = >>=-eq-ok (row_entries D rows) _ more in
    ap (map ok) (sym (ok-injective all)) ∙ rw (one, row_entries-ok D rows others rest) refl

Reads-ok :
    (D : DuckDb) (ps : List (ViewRow D.Value × ViewInfo))
    → All (Reads D) ps
    → map ok (map (λ p. p.1) ps) ≡ map (view_of_row D) (map (λ p. p.0) ps)
Reads-ok D [] h = refl
Reads-ok D ((r, info) ∷ ps) h = rw (h.0, Reads-ok D ps h.1) refl

module _ (D : DuckDb) (G : Aggregates D.Value) (store : Store) (snapshot : ℕ)
    (base_data_path : String) where
  -- The table is the one of the record, with the tags of the object that are visible and its
  -- inlined data tables, as far as they can be read.
  pub record IsTableOf (t : TableInfo) (r : TableRecord) : Type 0 where
    pub id : t.id ≡ r.table_id
    pub schema_id : t.schema_id ≡ r.schema_id
    pub uuid : t.uuid ≡ r.table_uuid
    pub name : t.name ≡ r.table_name
    pub tags :
        load_unless_null (load_tags D) (tags_of_object D.Value G store snapshot r.table_id)
        ≡ ok t.tags
    pub inlined :
        load_unless_null
          (load_inlined_data_tables D)
          (inlined_of_table D.Value G store snapshot r.table_id)
        ≡ ok t.inlined_data_tables

  -- The catalog of the metadata tables at the snapshot: what is visible, each time as often as it
  -- stands in the tables, in any order, but for the tables' own ascending one; columns and views
  -- with what is read of their rows, tags included.
  pub record IsCatalogAt (catalog : CatalogInfo) : Type 0 where
    pub schemas :
        Perm catalog.schemas (map (schema_of_row D base_data_path) (schema_query store snapshot))
    pub tables : All (λ t. Any (IsTableOf t) (visible_tables store snapshot)) catalog.tables
    pub ascending : Ascending (table_ids catalog.tables)
    pub columns : Perm (map untagged (all_entries catalog.tables)) (columns_at store snapshot)
    pub views : Perm (map plain_view catalog.views) (map view_key (visible_views store snapshot))
    pub columns_read :
        Perm
          (map ok (all_entries catalog.tables))
          (map (entry_of_row D) (table_query D.Value G store snapshot))
    pub views_read :
        Perm (map ok catalog.views) (map (view_of_row D) (view_query D.Value G store snapshot))
    pub fields :
        Perm (all_fields catalog.partitions) (map row_field (partition_query store snapshot))

  -- A row of the second query is of a visible table.
  abbrev IsOfTable : List TableRecord → TableRow D.Value → Type 0
  IsOfTable ts r = (t : TableInfo) → IsNamedBy D t r → Any (IsTableOf t) ts

  row_of_join-IsOfTable :
      (ts : List TableRecord) (t : TableRecord)
      → ((x : TableInfo) → IsTableOf x t → Any (IsTableOf x) ts)
      → (c : Option ColumnRecord) → IsOfTable ts (row_of_join D.Value G store snapshot t c)
  unfolding row_of_join
  row_of_join-IsOfTable ts t h none x n = h x (record {
    id = n.id;
    schema_id = n.schema_id;
    uuid = n.uuid;
    name = n.name;
    tags = n.tags;
    inlined = n.inlined;
  })
  row_of_join-IsOfTable ts t h (some c) x n = h x (record {
    id = n.id;
    schema_id = n.schema_id;
    uuid = n.uuid;
    name = n.name;
    tags = n.tags;
    inlined = n.inlined;
  })

  concat_map-IsOfTable :
      (all ts : List TableRecord)
      → ((x : TableInfo) → Any (IsTableOf x) ts → Any (IsTableOf x) all)
      → All (IsOfTable all) (concat_map (join_of_table D.Value G store snapshot) ts)
  unfolding join_of_table
  concat_map-IsOfTable all [] h = tt
  concat_map-IsOfTable all (t ∷ ts) h =
      All-append (IsOfTable all) (join_of_table D.Value G store snapshot t) _
        (All-of-map (IsOfTable all) (row_of_join D.Value G store snapshot t) _
          (All-every _ (row_of_join-IsOfTable all t (λ x e. h x (inl e))) _))
        (concat_map-IsOfTable all ts (λ x a. h x (inr a)))

  -- The named tables are visible ones.
  named-IsTableOf :
      (rows : List (TableRow D.Value))
      → Permᴰ (table_query D.Value G store snapshot) rows
      → (tables : List TableInfo) → All (λ t. Any (IsNamedBy D t) rows) tables
      → All (λ t. Any (IsTableOf t) (visible_tables store snapshot)) tables
  unfolding table_query
  named-IsTableOf rows p tables named =
      let records = visible_tables store snapshot in
      let of_table =
        All-perm (IsOfTable records) p (concat_map-IsOfTable records records (λ x a. a)) in
      All-map tables (λ t n. let (r, is, has) = Any-All rows n of_table in has t is) named

  Describes-IsCatalogAt :
      IsStoreOk D G store snapshot
      → (schema_rows : List SchemaRow) (table_rows : List (TableRow D.Value))
        (view_rows : List (ViewRow D.Value)) (partition_rows : List PartitionRow)
      → IsAnswer D G store snapshot schema_rows table_rows view_rows partition_rows
      → (ps : List (ViewRow D.Value × ViewInfo)) → map (λ p. p.0) ps ≡ view_rows
      → All (Reads D) ps
      → Perm (map plain_view (map (λ p. p.1) ps)) (map view_key (visible_views store snapshot))
      → (catalog : CatalogInfo)
      → Describes D base_data_path schema_rows table_rows ps partition_rows catalog
      → IsCatalogAt catalog
  Describes-IsCatalogAt o schema_rows table_rows view_rows partition_rows a ps same reads views
        catalog d =
      let (es, entries_read, kept) = d.columns in
      record {
        schemas =
            subst (λ l. Perm l (map (schema_of_row D base_data_path) (schema_query store snapshot)))
              (sym d.schemas_kept)
              (Perm.map (schema_of_row D base_data_path) (Perm.symm ∣ a.schemas ∣₁));
        tables = named-IsTableOf table_rows a.tables catalog.tables d.named;
        ascending = d.ascending;
        columns = Perm.trans (Perm.map untagged kept) (
            row_entries-columns_at D G store snapshot o.tables table_rows a.tables es entries_read);
        columns_read = Perm.trans (Perm.map ok kept) (
            subst (λ l. Perm l (map (entry_of_row D) (table_query D.Value G store snapshot)))
              (sym (row_entries-ok D table_rows es entries_read))
              (Perm.map (entry_of_row D) (Perm.symm ∣ a.tables ∣₁)));
        views_read =
            subst (λ l. Perm (map ok l) (map (view_of_row D) (view_query D.Value G store snapshot)))
              (sym d.views_kept)
              (subst (λ l. Perm l (map (view_of_row D) (view_query D.Value G store snapshot)))
                (sym (Reads-ok D ps reads ∙ ap (map (view_of_row D)) same))
                (Perm.map (view_of_row D) (Perm.symm ∣ a.views ∣₁)));
        views =
            subst (λ l. Perm (map plain_view l) (map view_key (visible_views store snapshot)))
              (sym d.views_kept) views;
        fields =
            subst (λ l. Perm l (map row_field (partition_query store snapshot))) (sym d.fields)
              (Perm.map row_field (Perm.symm ∣ a.partitions ∣₁));
      }

  -- If every visible table has had a column at some snapshot, names a visible schema and can have
  -- its tags and inlined tables read, if every visible column of it can have its tags read and has
  -- a parent, if any, that is a visible column of the table with a smaller id, and if the tags and
  -- aliases of every visible view can be read, then `GetCatalogForSnapshot` returns a catalog
  -- whatever order within the ORDER BY clauses PostgreSQL answers in. The catalog has the visible
  -- schemas; the visible columns of the visible tables, each in its table and below its parent and
  -- with its tags; no table that is not visible or is there twice, and each table with its visible
  -- tags and its inlined tables; the visible views, with their tags and aliases; and the fields of
  -- the visible partitions.
  pub get_catalog_for_snapshot-refines :
      IsStoreOk D G store snapshot
      → (schema_rows : List SchemaRow) (table_rows : List (TableRow D.Value))
        (view_rows : List (ViewRow D.Value)) (partition_rows : List PartitionRow)
      → IsAnswer D G store snapshot schema_rows table_rows view_rows partition_rows
      → (catalog : CatalogInfo) × (get_catalog_for_snapshot D base_data_path (record {
        schema_rows = ok schema_rows;
        table_rows = ok table_rows;
        view_rows = ok view_rows;
        partition_rows = ok partition_rows;
      })
          ≡ ok catalog)
        × IsCatalogAt catalog
  get_catalog_for_snapshot-refines o schema_rows table_rows view_rows partition_rows a =
      let (ps, same, reads, views) =
        view_query-Reads D G store snapshot o.views view_rows a.views in
      let (loads, parents, below) =
        table_query-Loads D G store snapshot base_data_path schema_rows a.schemas table_rows
          a.tables o.tables in
      let (catalog, loaded, d) =
        get_catalog_for_snapshot-total D base_data_path schema_rows table_rows ps partition_rows
          (record {
            ordered = a.tables_ordered;
            loads = loads;
            parents = parents;
            below = below;
            reads = reads;
          }) in
      (
        catalog,
        subst
            (λ rows.
              get_catalog_for_snapshot D base_data_path (record {
                schema_rows = ok schema_rows;
                table_rows = ok table_rows;
                view_rows = ok rows;
                partition_rows = ok partition_rows;
              })
              ≡ ok catalog)
            same loaded,
        Describes-IsCatalogAt o schema_rows table_rows view_rows partition_rows a ps same reads
            views catalog d,
      )
