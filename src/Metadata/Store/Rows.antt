-- ===== src/Metadata/Store/Rows.antt =====
-- The rows of the second query, as the table loop needs them.
use mathlib.Core.List.{Permᴰ}
use pg_ducklake_next.Base.{
  ℕ, ◌<◌, ◌≡◌, refl, sym, ap, ◌∙◌, subst, String, Option, none, some, List, [], ◌∷◌, ◌++◌, map,
  ◌==◌, true, All, All-map, All-append, Any, Any-map, Any-imp, Any-perm, All-perm, All-of-map,
  All-concat_map, Any-append_left, Any-append_right, concat_map, Bool-cases, inl, inr, ==_iff,
  arith,
}
use pg_ducklake_next.Base.Result.{ok}
use pg_ducklake_next.Metadata.Columns.{nil}
use pg_ducklake_next.Metadata.Values.{DuckDb}
use pg_ducklake_next.Metadata.Schemas.{
  SchemaRow, SchemaInfo, no_schemas, load_schemas, schema_of_row, find_schema,
}
use pg_ducklake_next.Metadata.Schemas.Lookup.{
  last_schema, expected_schema, find_schema-load_schemas,
}
use pg_ducklake_next.Metadata.Tables.{TableRow, table_path, new_table, column_of_row}
use pg_ducklake_next.Metadata.Tables.Parents.{IsColumn, HasParents, IsBelowParent}
use pg_ducklake_next.Metadata.Tables.Success.{Loads}
use pg_ducklake_next.Metadata.Records.{Store, TableRecord, ColumnRecord}
use pg_ducklake_next.Metadata.Store.{
  Aggregates, visible_schemas, visible_tables, schema_query, row_of_join, join_of_table,
  table_query,
}
use pg_ducklake_next.Metadata.Store.Joins.{visible_columns, join_of_table-visible}
use pg_ducklake_next.Metadata.Store.Answer.{IsColumnOk, IsTableOk}

module _ (D : DuckDb) (base_data_path : String) where
  last_schema-some :
      (x : SchemaInfo) (rows : List SchemaRow) (id : ℕ)
      → (s : SchemaInfo) × (last_schema D base_data_path (some x) rows id ≡ some s)
  last_schema-some x [] id = (x, refl)
  last_schema-some x (row ∷ rows) id = elim (Bool-cases (id == row.schema_id)) [
    | inl here ↦ rw here (last_schema-some (schema_of_row D base_data_path row) rows id)
    | inr elsewhere ↦ rw elsewhere (last_schema-some x rows id)
  ]

  -- A schema id that a row has is found.
  last_schema-Any :
      (rows : List SchemaRow) (id : ℕ) (before : Option SchemaInfo)
      → Any (λ r. r.schema_id ≡ id) rows
      → (s : SchemaInfo) × (last_schema D base_data_path before rows id ≡ some s)
  last_schema-Any [] id before h = absurd h
  last_schema-Any (row ∷ rows) id before (inl here) =
      let same : (id == row.schema_id) ≡ true = (==_iff id row.schema_id).1 (sym here) in
      rw same (last_schema-some (schema_of_row D base_data_path row) rows id)
  last_schema-Any (row ∷ rows) id before (inr later) = last_schema-Any rows id _ later

module _ (D : DuckDb) (G : Aggregates D.Value) (store : Store) (snapshot : ℕ)
    (base_data_path : String) where
  abbrev row : TableRecord → ColumnRecord → TableRow D.Value
  row t c = row_of_join D.Value G store snapshot t (some c)

  -- The rows of the tables, each by itself.
  row-Loads :
      (schema_rows : List SchemaRow)
      → Permᴰ (schema_query store snapshot) schema_rows
      → (t : TableRecord) (c : ColumnRecord) → IsTableOk D G store snapshot t
      → IsColumnOk D G store snapshot t c
      → Loads D (load_schemas D base_data_path no_schemas schema_rows) (row t c)
  unfolding row_of_join new_table column_of_row schema_query
  row-Loads schema_rows p t c o k =
      let there =
        Any-perm (λ r. r.schema_id ≡ t.schema_id) p
          (Any-map (λ (r : SchemaRow). r.schema_id ≡ t.schema_id) (λ s. s.row)
            (visible_schemas store snapshot) o.schema) in
      let (s, last) = last_schema-Any D base_data_path schema_rows t.schema_id none there in
      let found : find_schema (load_schemas D base_data_path no_schemas schema_rows) t.table_id
            t.schema_id
          ≡ ok s =
        find_schema-load_schemas D base_data_path schema_rows t.table_id t.schema_id
        ∙ rw (last, expected_schema) refl in
      let (ts, read) = o.tags in
      let (is, listed) = o.inlined in
      let (cts, column_read) = k.tags in
      (
        record {
          id = t.table_id;
          schema_id = t.schema_id;
          uuid = t.table_uuid;
          name = t.table_name;
          tags = ts;
          inlined_data_tables = is;
          path = table_path D (row t c) s;
          columns = nil;
        },
        c.column_id,
        record {
          id = c.column_id;
          name = c.column_name;
          column_type = c.column_type;
          initial_default = c.initial_default;
          default_value = c.default_value;
          nulls_allowed = c.nulls_allowed;
          tags = cts;
        },
        rw (read, listed, found) refl,
        refl,
        rw column_read refl,
      )

  row-IsBelowParent :
      (t : TableRecord) (c : ColumnRecord)
      → IsColumnOk D G store snapshot t c
      → IsBelowParent (row t c)
  unfolding row_of_join
  row-IsBelowParent t c k p id above same =
      let (_, lt) = k.parent p above in subst (λ n. p < n) (ground arith) lt

  -- The parents stand among the rows of the same table.
  row-HasParents :
      (t : TableRecord) (c : ColumnRecord)
      → IsColumnOk D G store snapshot t c
      → HasParents (map (row t) (visible_columns store snapshot t)) (row t c)
  unfolding row_of_join
  row-HasParents t c k p above =
      Any-map (IsColumn t.table_id p) (row t) (visible_columns store snapshot t)
        (Any-imp (λ d e. (refl, ap some e)) (visible_columns store snapshot t) (k.parent p above).0)

  HasParents-append_left :
      (xs ys : List (TableRow D.Value)) (r : TableRow D.Value)
      → HasParents xs r
      → HasParents (xs ++ ys) r
  HasParents-append_left xs ys r h p e = Any-append_left (IsColumn r.table_id p) xs ys (h p e)

  HasParents-append_right :
      (xs ys : List (TableRow D.Value)) (r : TableRow D.Value)
      → HasParents ys r
      → HasParents (xs ++ ys) r
  HasParents-append_right xs ys r h p e = Any-append_right (IsColumn r.table_id p) xs ys (h p e)

  -- What the rows of each table have by themselves, those of all tables have together.
  concat_map-HasParents :
      (f : TableRecord → List (TableRow D.Value)) (ts : List TableRecord)
      → All (λ t. All (HasParents (f t)) (f t)) ts
      → All (HasParents (concat_map f ts)) (concat_map f ts)
  concat_map-HasParents f [] h = tt
  concat_map-HasParents f (t ∷ ts) h =
      All-append (HasParents (f t ++ concat_map f ts)) (f t) (concat_map f ts)
        (All-map (f t) (HasParents-append_left (f t) (concat_map f ts)) h.0)
        (All-map (concat_map f ts) (HasParents-append_right (f t) (concat_map f ts))
          (concat_map-HasParents f ts h.1))

  abbrev join : TableRecord → List (TableRow D.Value)
  join = join_of_table D.Value G store snapshot

  -- A property of the rows of each visible column of a table.
  All-join :
      (P : TableRow D.Value → Type 0) (t : TableRecord)
      → IsTableOk D G store snapshot t
      → ((c : ColumnRecord) → IsColumnOk D G store snapshot t c → P (row t c))
      → All P (join t)
  All-join P t o h = rw (join_of_table-visible D.Value G store snapshot t o.has_columns) (
      All-of-map P (row t) (visible_columns store snapshot t)
        (All-map (visible_columns store snapshot t) h o.columns))

  join-HasParents :
      (t : TableRecord) → IsTableOk D G store snapshot t → All (HasParents (join t)) (join t)
  join-HasParents t o =
      let columns = visible_columns store snapshot t in
      rw (join_of_table-visible D.Value G store snapshot t o.has_columns) (
        All-of-map (HasParents (map (row t) columns)) (row t) columns
          (All-map columns (row-HasParents t) o.columns))

  -- What the table loop needs of the rows of the second query, in any order.
  pub table_query-Loads :
      (schema_rows : List SchemaRow)
      → Permᴰ (schema_query store snapshot) schema_rows
      → (table_rows : List (TableRow D.Value))
      → Permᴰ (table_query D.Value G store snapshot) table_rows
      → All (IsTableOk D G store snapshot) (visible_tables store snapshot)
      → All (Loads D (load_schemas D base_data_path no_schemas schema_rows)) table_rows
        × All (HasParents table_rows) table_rows
        × All IsBelowParent table_rows
  unfolding table_query
  table_query-Loads schema_rows p table_rows q ok_tables =
      let tables = visible_tables store snapshot in
      let rows = concat_map join tables in
      let loads =
        λ (P : TableRow D.Value → Type 0)
            (h : (t : TableRecord) (c : ColumnRecord)
              → IsTableOk D G store snapshot t
              → IsColumnOk D G store snapshot t c
              → P (row t c)).
          All-perm P q (
            All-concat_map P join tables
              (All-map tables (λ t o. All-join P t o (λ c k. h t c o k)) ok_tables)) in
      let parents : All (HasParents rows) rows =
        concat_map-HasParents join tables (All-map tables join-HasParents ok_tables) in
      (
        loads _ (row-Loads schema_rows p),
        All-map table_rows (λ r h p' e. Any-perm (IsColumn r.table_id p') q (h p' e))
            (All-perm (HasParents rows) q parents),
        loads _ (λ t c o k. row-IsBelowParent t c k),
      )
