-- ===== src/Metadata/Catalog/References.antt =====
-- The schema that a table of a loaded catalog names.
use pg_ducklake_next.Base.{
  ℕ, zero, suc, ◌≡◌, subst, sym, ap, ◌∙◌, String, Option, none, some, List, [], ◌∷◌, All, Any, inl,
  inr, arith, Bool-cases, Option-cases, get_elem?, ◌==◌, if◌then◌else◌,
}
use mathlib.Core.Option.{some-injective}
use pg_ducklake_next.Base.Result.{ok, >>=-eq-ok, ok-injective, fold_result, fold_result_inv}
use pg_ducklake_next.Base.{All-reverse}
use pg_ducklake_next.Metadata.Values.{DuckDb, load_tags, load_inlined_data_tables}
use pg_ducklake_next.Metadata.Columns.{ColumnInfo}
use pg_ducklake_next.Metadata.Schemas.{
  SchemaRow, SchemaInfo, Schemas, no_schemas, schema_of_row, load_schemas, find_schema,
}
use pg_ducklake_next.Metadata.Schemas.Lookup.{last_schema, find_schema-load_schemas}
use pg_ducklake_next.Metadata.Tables.{
  TableRow, TableInfo, load_unless_null, column_of_row, starts_table, new_table, place_column,
  add_column, begin_table, add_table_row, load_tables,
}
use pg_ducklake_next.Metadata.Views.{load_views}
use pg_ducklake_next.Metadata.Catalog.{
  CatalogInfo, Answers, rows_or_throw, schema_prefix, table_prefix, partition_prefix,
  get_catalog_for_snapshot,
}

get_elem?-Any :
    (P : SchemaInfo → Type 0) (xs : List SchemaInfo) (i : ℕ) (x : SchemaInfo)
    → get_elem? xs i ≡ some x
    → P x
    → Any P xs
get_elem?-Any P [] i x e p = cc
get_elem?-Any P (y ∷ xs) zero x e p = inl (rw (some-injective y x e) p)
get_elem?-Any P (y ∷ xs) (suc i) x e p = inr (get_elem?-Any P xs i x e p)

find_schema-Any :
    (P : SchemaInfo → Type 0) (s : Schemas) (table_id id : ℕ) (x : SchemaInfo)
    → find_schema s table_id id ≡ ok x
    → P x
    → Any P s.schemas
unfolding find_schema
find_schema-Any P s table_id id x e p = elim (Option-cases (s.schema_map id)) [
  | inl absent ↦ ground arith
  | inr (i, present) ↦ elim (Option-cases (get_elem? s.schemas i)) [
    | inl out ↦ ground arith
    | inr (y, there) ↦
        let same : y ≡ x = ground arith in get_elem?-Any P s.schemas i y there (rw same p)
  ]
]

module _ (D : DuckDb) (base_data_path : String) where
  last_schema-id :
      (before : Option SchemaInfo) (rows : List SchemaRow) (id : ℕ) (x : SchemaInfo)
      → ((y : SchemaInfo) → before ≡ some y → y.id ≡ id)
      → last_schema D base_data_path before rows id ≡ some x
      → x.id ≡ id
  last_schema-id before [] id x h e = h x e
  last_schema-id before (row ∷ rows) id x h e =
      last_schema-id
        (if id == row.schema_id then some (schema_of_row D base_data_path row) else before) rows id
        x
        (λ (y : SchemaInfo)
            (f : (if id == row.schema_id then some (schema_of_row D base_data_path row) else before)
              ≡ some y).
          elim (Bool-cases (id == row.schema_id)) [
            | inl new ↦ unfold schema_of_row in ground arith
            | inr old ↦ h y (rw old at f)
          ])
        e

  -- The table's schema is one of the loaded schemas.
  abbrev pub HasSchema : List SchemaInfo → TableInfo → Type 0
  HasSchema schemas t = Any (λ s. s.id ≡ t.schema_id) schemas

  module _ (schema_rows : List SchemaRow) where
    abbrev loaded : Schemas
    loaded = load_schemas D base_data_path no_schemas schema_rows

    found-id :
        (table_id id : ℕ) (x : SchemaInfo) → find_schema loaded table_id id ≡ ok x → x.id ≡ id
    found-id table_id id x e =
        let expected =
          sym (find_schema-load_schemas D base_data_path schema_rows table_id id) ∙ e in
        elim (Option-cases (last_schema D base_data_path none schema_rows id)) [
          | inl absent ↦ ground arith
          | inr (y, present) ↦ last_schema-id none schema_rows id x (λ z f. cc) (ground arith)
        ]

    new_table-HasSchema :
        (row : TableRow D.Value) (t : TableInfo)
        → new_table D loaded row ≡ ok t
        → HasSchema loaded.schemas t
    unfolding new_table
    new_table-HasSchema row t e =
        let (tags, _, e1) = >>=-eq-ok (load_unless_null (load_tags D) row.tag) _ e in
        let (inlined, _, e2) =
          >>=-eq-ok (load_unless_null (load_inlined_data_tables D) row.inlined_data_tables) _ e1 in
        let (schema, found, made) =
          >>=-eq-ok (find_schema loaded row.table_id row.schema_id) _ e2 in
        find_schema-Any _ loaded row.table_id row.schema_id schema found (
          found-id row.table_id row.schema_id schema found
          ∙ ap (λ (u : TableInfo). u.schema_id) (ok-injective made))

    place_column-schema :
        (t t' : TableInfo) (parent : Option ℕ) (c : ColumnInfo)
        → place_column t parent c ≡ ok t'
        → t.schema_id ≡ t'.schema_id
    unfolding place_column
    place_column-schema t t' none c h = ground arith
    place_column-schema t t' (some p) c h = ground arith

    add_column-HasSchema :
        (tables tables' : List TableInfo) (row : TableRow D.Value)
        → All (HasSchema loaded.schemas) tables
        → add_column D tables row ≡ ok tables'
        → All (HasSchema loaded.schemas) tables'
    unfolding add_column
    add_column-HasSchema [] tables' row h e = cc
    add_column-HasSchema (back ∷ older) tables' row h e = elim (Option-cases row.column_id) [
      | inl absent ↦ ground arith
      | inr (id, present) ↦
          let (c, _, e1) = >>=-eq-ok (column_of_row D row id) _ (rw present at e) in
          let (back', placed, e2) = >>=-eq-ok (place_column back row.parent_column c) _ e1 in
          let kept = place_column-schema back back' row.parent_column c placed in
          subst (All (HasSchema loaded.schemas)) (ok-injective e2)
            (subst (λ id. Any (λ (s : SchemaInfo). s.id ≡ id) loaded.schemas) kept h.0, h.1)
    ]

    add_table_row-HasSchema :
        (done : List (TableRow D.Value)) (row : TableRow D.Value) (tables tables' : List TableInfo)
        → All (HasSchema loaded.schemas) tables
        → add_table_row D loaded tables row ≡ ok tables'
        → All (HasSchema loaded.schemas) tables'
    unfolding add_table_row begin_table
    add_table_row-HasSchema done row tables tables' h e =
        let (begun, began, added) = >>=-eq-ok (begin_table D loaded tables row) _ e in
        elim (Bool-cases (starts_table tables row.table_id)) [
          | inl new ↦
              let (t, made, pushed) = >>=-eq-ok (new_table D loaded row) _ (rw new at began) in
              add_column-HasSchema (t ∷ tables) tables' row (new_table-HasSchema row t made, h)
                (rw (← ok-injective pushed) at added)
          | inr old ↦
              add_column-HasSchema tables tables' row h
                (rw (← ok-injective (rw old at began)) at added)
        ]

    load_tables-HasSchema :
        (rows : List (TableRow D.Value)) (tables : List TableInfo)
        → load_tables D loaded rows ≡ ok tables
        → All (HasSchema loaded.schemas) tables
    unfolding load_tables
    load_tables-HasSchema rows tables e =
        let (reversed, done, turned) =
          >>=-eq-ok (fold_result (add_table_row D loaded) [] rows) _ e in
        subst (All (HasSchema loaded.schemas)) (ok-injective turned) (
          All-reverse (HasSchema loaded.schemas) reversed (
            fold_result_inv (add_table_row D loaded) (λ _ ts. All (HasSchema loaded.schemas) ts)
              add_table_row-HasSchema [] rows [] reversed tt done))

  -- If `GetCatalogForSnapshot` returns a catalog, every table of it names the id of a schema of it.
  pub get_catalog_for_snapshot-HasSchema :
      (answers : Answers D.Value) (catalog : CatalogInfo)
      → get_catalog_for_snapshot D base_data_path answers ≡ ok catalog
      → All (HasSchema catalog.schemas) catalog.tables
  unfolding get_catalog_for_snapshot
  get_catalog_for_snapshot-HasSchema answers catalog e =
      let (schema_rows, _, e1) = >>=-eq-ok (rows_or_throw schema_prefix answers.schema_rows) _ e in
      let (table_rows, _, e2) = >>=-eq-ok (rows_or_throw table_prefix answers.table_rows) _ e1 in
      let (tables, done, e3) = >>=-eq-ok (load_tables D (loaded schema_rows) table_rows) _ e2 in
      let (view_rows, _, e4) = >>=-eq-ok (rows_or_throw partition_prefix answers.view_rows) _ e3 in
      let (views, _, e5) = >>=-eq-ok (load_views D view_rows) _ e4 in
      let (partition_rows, _, e6) =
        >>=-eq-ok (rows_or_throw partition_prefix answers.partition_rows) _ e5 in
      subst (λ (c : CatalogInfo). All (HasSchema c.schemas) c.tables) (ok-injective e6)
        (load_tables-HasSchema schema_rows table_rows tables done)
