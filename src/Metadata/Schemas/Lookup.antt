-- ===== src/Metadata/Schemas/Lookup.antt =====
-- `schema_map` and the vector of schemas together, as a map from an id to a schema.
use mathlib.Core.List.{append-nil, append_assoc}
use pg_ducklake_next.Base.{
  map, sym, Bool-cases, ap, ◌∙◌, ℕ, ◌≡◌, refl, String, Option, none, some, List, [], ◌∷◌, ◌++◌,
  arith, length, get_elem?, get_elem?-append_last, get_elem?-append_left, ◌==◌, if◌then◌else◌,
  Option-cases, inl, inr,
}
use pg_ducklake_next.Base.Result.{Result, ok, err}
use pg_ducklake_next.Metadata.Values.{Exception, missing_schema, DuckDb}
use pg_ducklake_next.Metadata.Schemas.{
  SchemaRow, SchemaInfo, Schemas, no_schemas, schema_of_row, add_schema, load_schemas, find_schema,
}

-- What the two structures say together of an id.
abbrev entry : Schemas → ℕ → Option SchemaInfo
entry s id = elim (s.schema_map id) [ none ↦ none | some index ↦ get_elem? s.schemas index ]

-- Every index of the map is one of the vector.
abbrev InBounds : Schemas → Type 0
InBounds s =
    (id index : ℕ)
    → s.schema_map id ≡ some index
    → (x : SchemaInfo) × (get_elem? s.schemas index ≡ some x)

module _ (D : DuckDb) (base_data_path : String) where
  -- The schema of the last row with the id, if a row has it.
  abbrev pub last_schema : Option SchemaInfo → List SchemaRow → ℕ → Option SchemaInfo
  last_schema before [] id = before
  last_schema before (row ∷ rows) id =
      last_schema
        (if id == row.schema_id then some (schema_of_row D base_data_path row) else before) rows id

  add_schema-InBounds :
      (s : Schemas) (row : SchemaRow) → InBounds s → InBounds (add_schema D base_data_path s row)
  unfolding add_schema
  add_schema-InBounds s row h id index e = elim (Bool-cases (id == row.schema_id)) [
    | inl new ↦ (
      schema_of_row D base_data_path row,
      let here : length s.schemas ≡ index = ground arith in
          rw (← here) (get_elem?-append_last s.schemas (schema_of_row D base_data_path row)),
    )
    | inr old ↦
        let (x, there) = h id index (ground arith) in
        (x, get_elem?-append_left s.schemas _ index x there)
  ]

  entry-add_schema :
      (s : Schemas) (row : SchemaRow) (id : ℕ)
      → InBounds s
      → entry (add_schema D base_data_path s row) id
        ≡ (if id == row.schema_id then some (schema_of_row D base_data_path row) else entry s id)
  unfolding add_schema
  entry-add_schema s row id h = elim (Bool-cases (id == row.schema_id)) [
    | inl new ↦ ground (arith, get_elem?-append_last s.schemas (schema_of_row D base_data_path row))
    | inr old ↦ elim (Option-cases (s.schema_map id)) [
      | inl absent ↦ ground arith
      | inr (index, present) ↦
          let (x, there) = h id index present in
          let kept : get_elem? (s.schemas ++ schema_of_row D base_data_path row ∷ []) index
              ≡ some x =
            get_elem?-append_left s.schemas _ index x there in
          ground arith
    ]
  ]

  entry-load_schemas :
      (s : Schemas) (rows : List SchemaRow) (id : ℕ)
      → InBounds s
      → (entry (load_schemas D base_data_path s rows) id ≡ last_schema (entry s id) rows id)
        × InBounds (load_schemas D base_data_path s rows)
  unfolding load_schemas
  entry-load_schemas s [] id h = (refl, h)
  entry-load_schemas s (row ∷ rows) id h =
      let (same, bounds) =
        entry-load_schemas (add_schema D base_data_path s row) rows id
          (add_schema-InBounds s row h) in
      (same ∙ ap (λ before. last_schema before rows id) (entry-add_schema s row id h), bounds)

  -- The abstract search: the last schema row of the id, or the throw where no row has it.
  abbrev pub expected_schema : List SchemaRow → ℕ → ℕ → Result Exception SchemaInfo
  expected_schema rows table_id id = elim (last_schema none rows id) [
    | none ↦ err (missing_schema table_id id)
    | some schema ↦ ok schema
  ]

  -- After the loop over the schema rows, the search by `schema_map` and the access to
  -- `catalog.schemas` find the schema of the last row with the id; they throw the exception about a
  -- missing schema exactly where no row has the id, and never reach out of the vector.
  pub find_schema-load_schemas :
      (rows : List SchemaRow) (table_id id : ℕ)
      → find_schema (load_schemas D base_data_path no_schemas rows) table_id id
        ≡ expected_schema rows table_id id
  unfolding find_schema
  find_schema-load_schemas rows table_id id =
      let loaded = load_schemas D base_data_path no_schemas rows in
      let (same, bounds) = entry-load_schemas no_schemas rows id (λ j index e. cc) in
      elim (Option-cases (loaded.schema_map id)) [
        | inl absent ↦
            let none_there : last_schema none rows id ≡ none = ground arith in ground arith
        | inr (index, present) ↦
            let (x, there) = bounds id index present in
            let found : last_schema none rows id ≡ some x = ground arith in ground arith
      ]

  -- The loop loads one schema for each row, in row order.
  pub load_schemas-map :
      (s : Schemas) (rows : List SchemaRow)
      → (load_schemas D base_data_path s rows).schemas
        ≡ s.schemas ++ map (schema_of_row D base_data_path) rows
  unfolding load_schemas add_schema
  load_schemas-map s [] = sym (append-nil s.schemas)
  load_schemas-map s (row ∷ rows) =
      load_schemas-map (add_schema D base_data_path s row) rows
      ∙ append_assoc s.schemas (schema_of_row D base_data_path row ∷ [])
          (map (schema_of_row D base_data_path) rows)
