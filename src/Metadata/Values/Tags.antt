-- ===== src/Metadata/Values/Tags.antt =====
-- What `LoadTags` and `LoadInlinedDataTables` return for lists of well-formed structs.
use pg_ducklake_next.Base.{◌≡◌, refl, List, [], ◌∷◌, ◌++◌, map, arith, if◌then◌else◌}
use pg_ducklake_next.Base.Result.{ok, err}
use pg_ducklake_next.Metadata.Columns.{Tag}
use pg_ducklake_next.Metadata.Values.{
  Exception, DuckDb, tags_type, inlined_table_type, InlinedTableInfo, tags_of, load_tags,
  inlined_tables_of, load_inlined_data_tables,
}

module _ (D : DuckDb) where
  open D use {
    Value, list_children, struct_children, default_cast_as, is_null, to_string, get_string,
    get_index,
  }

  -- A list element with the two values of its struct, as DuckDB gives them to `LoadTags`: the
  -- element casts to the struct type, and has the two children without the cast.
  pub record TagStruct : Type 0 where
    pub element : Value
    pub key : Value
    pub value : Value
    pub cast : Value
    pub casts : default_cast_as element tags_type ≡ ok cast
    pub has_children : struct_children element ≡ ok (key ∷ value ∷ [])

  -- The tags of the structs whose value is not NULL, in order.
  abbrev pub non_null_tags : List TagStruct → List Tag
  non_null_tags [] = []
  non_null_tags (t ∷ ts) =
      if is_null t.value
      then non_null_tags ts
      else (record { key = to_string t.key; value = to_string t.value } ∷ non_null_tags ts)

  pub tags_of-structs :
      (ts : List TagStruct) → tags_of D (map (λ t. t.element) ts) ≡ ok (non_null_tags ts)
  unfolding tags_of
  tags_of-structs [] = refl
  tags_of-structs (t ∷ ts) = rw (t.casts, t.has_children, tags_of-structs ts) (ground arith)

  -- `LoadTags` of a list whose elements cast to the struct type and have, without the cast, a key
  -- and a value as children returns the tags whose value is not NULL, in list order.
  pub load_tags-structs :
      (tag_map : Value) (ts : List TagStruct)
      → list_children tag_map ≡ ok (map (λ t. t.element) ts)
      → load_tags D tag_map ≡ ok (non_null_tags ts)
  unfolding load_tags
  load_tags-structs tag_map ts h = rw h (tags_of-structs ts)

  -- Behind elements that `LoadTags` can read, an element whose children DuckDB does not give ends
  -- the load with DuckDB's exception, although the cast of that element succeeded.
  pub tags_of-not_struct :
      (ts : List TagStruct) (tag cast : Value) (rest : List Value) (e : Exception)
      → default_cast_as tag tags_type ≡ ok cast
      → struct_children tag ≡ err e
      → tags_of D (map (λ t. t.element) ts ++ tag ∷ rest) ≡ err e
  unfolding tags_of
  tags_of-not_struct [] tag cast rest e h k = rw (h, k) refl
  tags_of-not_struct (t ∷ ts) tag cast rest e h k =
      rw (t.casts, t.has_children, tags_of-not_struct ts tag cast rest e h k) (ground arith)

  -- A list element of `LoadInlinedDataTables`: it casts to a struct of a name and a version.
  pub record TableStruct : Type 0 where
    pub element : Value
    pub name : Value
    pub version : Value
    pub cast : Value
    pub info : InlinedTableInfo
    pub casts : default_cast_as element inlined_table_type ≡ ok cast
    pub has_children : struct_children cast ≡ ok (name ∷ version ∷ [])
    pub has_name : get_string name ≡ ok (info.table_name)
    pub has_version : get_index version ≡ ok (info.schema_version)

  inlined_tables_of-structs :
      (ts : List TableStruct)
      → inlined_tables_of D (map (λ t. t.element) ts) ≡ ok (map (λ t. t.info) ts)
  unfolding inlined_tables_of
  inlined_tables_of-structs [] = refl
  inlined_tables_of-structs (t ∷ ts) =
      rw (t.casts, t.has_children, t.has_name, t.has_version, inlined_tables_of-structs ts) refl

  -- `LoadInlinedDataTables` of a list whose elements cast to a struct of a text and an index
  -- returns one entry for each, in order.
  pub load_inlined_data_tables-structs :
      (list : Value) (ts : List TableStruct)
      → list_children list ≡ ok (map (λ t. t.element) ts)
      → load_inlined_data_tables D list ≡ ok (map (λ t. t.info) ts)
  unfolding load_inlined_data_tables
  load_inlined_data_tables-structs list ts h = rw h (inlined_tables_of-structs ts)
