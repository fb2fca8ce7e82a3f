-- ===== src/Metadata/Tables/Headers.antt =====
-- What the loaded tables say but for their path and columns, against the rows.
use pg_ducklake_next.Base.{
  ℕ, ◌≡◌, refl, subst, Option, none, some, List, [], ◌∷◌, ◌++◌, All, All-map, All-reverse, Any,
  Any-imp, Any-append_left, Any-append_right, Bool-cases, Option-cases, inl, inr, arith,
}
use pg_ducklake_next.Base.Result.{ok, >>=-eq-ok, ok-injective, fold_result, fold_result_inv}
use pg_ducklake_next.Metadata.Columns.{ColumnInfo, Columns, add_child_column}
use pg_ducklake_next.Metadata.Values.{DuckDb, load_tags, load_inlined_data_tables}
use pg_ducklake_next.Metadata.Schemas.{Schemas, find_schema}
use pg_ducklake_next.Metadata.Tables.{
  TableRow, TableInfo, load_unless_null, new_table, starts_table, place_column, column_of_row,
  add_column, begin_table, add_table_row, load_tables,
}

-- The table is the one that the row names, with the tags and inlined tables that can be read from
-- the row.
pub record IsNamedBy (D : DuckDb) (t : TableInfo) (r : TableRow D.Value) : Type 0 where
  pub id : t.id ≡ r.table_id
  pub schema_id : t.schema_id ≡ r.schema_id
  pub uuid : t.uuid ≡ r.table_uuid
  pub name : t.name ≡ r.table_name
  pub tags : load_unless_null (load_tags D) r.tag ≡ ok t.tags
  pub inlined :
      load_unless_null (load_inlined_data_tables D) r.inlined_data_tables ≡ ok t.inlined_data_tables

module _ (D : DuckDb) (schemas : Schemas) where
  abbrev Named : List (TableRow D.Value) → TableInfo → Type 0
  Named rows t = Any (IsNamedBy D t) rows

  new_table-IsNamedBy :
      (row : TableRow D.Value) (t : TableInfo) → new_table D schemas row ≡ ok t → IsNamedBy D t row
  unfolding new_table
  new_table-IsNamedBy row t h =
      let (tags, read, h1) = >>=-eq-ok (load_unless_null (load_tags D) row.tag) _ h in
      let (inlined, listed, h2) =
        >>=-eq-ok (load_unless_null (load_inlined_data_tables D) row.inlined_data_tables) _ h1 in
      let (schema, found, h3) = >>=-eq-ok (find_schema schemas row.table_id row.schema_id) _ h2 in
      subst (λ (x : TableInfo). IsNamedBy D x row) (ok-injective h3)
        (record {
          id = refl;
          schema_id = refl;
          uuid = refl;
          name = refl;
          tags = read;
          inlined = listed;
        })

  Named-columns :
      (columns : Columns) (rows : List (TableRow D.Value)) (t : TableInfo)
      → Named rows t
      → Named rows (record t { columns = columns })
  Named-columns columns rows t n =
      Any-imp
        (λ r h. record {
          id = h.id;
          schema_id = h.schema_id;
          uuid = h.uuid;
          name = h.name;
          tags = h.tags;
          inlined = h.inlined;
        })
        rows n

  -- A column changes nothing else of its table.
  place_column-Named :
      (rows : List (TableRow D.Value)) (t t' : TableInfo) (parent : Option ℕ) (c : ColumnInfo)
      → place_column t parent c ≡ ok t'
      → Named rows t
      → Named rows t'
  unfolding place_column
  place_column-Named rows t t' none c h n =
      subst (Named rows) (ok-injective h) (Named-columns _ rows t n)
  place_column-Named rows t t' (some p) c h n =
      elim (Bool-cases (add_child_column t.columns p c).1) [
        | inl found ↦ subst (Named rows) (ok-injective (rw found at h)) (Named-columns _ rows t n)
        | inr absent ↦ ground arith
      ]

  Named-append_left :
      (rows : List (TableRow D.Value)) (row : TableRow D.Value) (t : TableInfo)
      → Named rows t
      → Named (rows ++ row ∷ []) t
  Named-append_left rows row t n = Any-append_left (IsNamedBy D t) rows (row ∷ []) n

  begin_table-Named :
      (done : List (TableRow D.Value)) (row : TableRow D.Value) (tables tables' : List TableInfo)
      → All (Named done) tables
      → begin_table D schemas tables row ≡ ok tables'
      → All (Named (done ++ row ∷ [])) tables'
  unfolding begin_table
  begin_table-Named done row tables tables' h e =
      let kept = All-map tables (Named-append_left done row) h in
      elim (Bool-cases (starts_table tables row.table_id)) [
        | inr old ↦ subst (All (Named (done ++ row ∷ []))) (ok-injective (rw old at e)) kept
        | inl new ↦
            let (t, made, pushed) = >>=-eq-ok (new_table D schemas row) _ (rw new at e) in
            subst (All (Named (done ++ row ∷ []))) (ok-injective pushed) (
              Any-append_right (IsNamedBy D t) done (row ∷ [])
                  (inl (new_table-IsNamedBy row t made)),
              kept,
            )
      ]

  add_column-Named :
      (rows : List (TableRow D.Value)) (row : TableRow D.Value) (tables tables' : List TableInfo)
      → All (Named rows) tables
      → add_column D tables row ≡ ok tables'
      → All (Named rows) tables'
  unfolding add_column
  add_column-Named rows row [] tables' h e = ground arith
  add_column-Named rows row (back ∷ older) tables' h e = elim (Option-cases row.column_id) [
    | inl null ↦ ground arith
    | inr (id, present) ↦
        let (c, loaded, rest) = >>=-eq-ok (column_of_row D row id) _ (rw present at e) in
        let (back', placed, done) = >>=-eq-ok (place_column back row.parent_column c) _ rest in
        subst (All (Named rows)) (ok-injective done)
          (place_column-Named rows back back' row.parent_column c placed h.0, h.1)
  ]

  add_table_row-Named :
      (done : List (TableRow D.Value)) (row : TableRow D.Value) (tables tables' : List TableInfo)
      → All (Named done) tables
      → add_table_row D schemas tables row ≡ ok tables'
      → All (Named (done ++ row ∷ [])) tables'
  unfolding add_table_row
  add_table_row-Named done row tables tables' h e =
      let (begun, began, added) = >>=-eq-ok (begin_table D schemas tables row) _ e in
      add_column-Named (done ++ row ∷ []) row begun tables'
        (begin_table-Named done row tables begun h began) added

  -- Every loaded table has the id, the schema, the uuid and the name of a row, and its tags and
  -- inlined tables.
  pub load_tables-Named :
      (rows : List (TableRow D.Value)) (tables : List TableInfo)
      → load_tables D schemas rows ≡ ok tables
      → All (λ t. Any (IsNamedBy D t) rows) tables
  unfolding load_tables
  load_tables-Named rows tables h =
      let (reversed, loaded, turned) =
        >>=-eq-ok (fold_result (add_table_row D schemas) [] rows) _ h in
      subst (All (Named rows)) (ok-injective turned) (
        All-reverse (Named rows) reversed (
          fold_result_inv (add_table_row D schemas) (λ done ts. All (Named done) ts)
            add_table_row-Named [] rows [] reversed tt loaded))
