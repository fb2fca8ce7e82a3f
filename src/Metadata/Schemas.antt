-- ===== src/Metadata/Schemas.antt =====
-- The schema part of `GetCatalogForSnapshot` (src/pgducklake_metadata_manager.cpp): the loop over
-- the rows of `ducklake_schema`, and the search in `schema_map` that the table part makes.
pub mod Lookup
use pg_ducklake_next.Base.{
  ℕ, String, Bool, Option, none, some, List, [], ◌∷◌, ◌++◌, length, get_elem?, ◌==◌, if◌then◌else◌,
}
use pg_ducklake_next.Base.Result.{Result, ok, err}
use pg_ducklake_next.Metadata.Values.{Exception, missing_schema, DuckLakePath, DuckDb, at}

-- A row of the schema query, its columns read at their types; `path` is none where it is NULL.
pub record SchemaRow : Type 0 where
  pub schema_id : ℕ
  pub schema_uuid : String
  pub schema_name : String
  pub path : Option String
  pub path_is_relative : Bool

-- `duckdb::DuckLakeSchemaInfo`
pub record SchemaInfo : Type 0 where
  pub id : ℕ
  pub uuid : String
  pub name : String
  pub path : String

-- `map<SchemaIndex, idx_t>`
abbrev pub SchemaMap : Type 0
SchemaMap = ℕ → Option ℕ

-- `catalog.schemas` and `schema_map`
pub record Schemas : Type 0 where
  pub schemas : List SchemaInfo
  pub schema_map : SchemaMap

abbrev pub no_schemas : Schemas
no_schemas = record { schemas = []; schema_map = λ id. none }

-- `schema_map[id] = index`
abbrev pub assign : SchemaMap → ℕ → ℕ → SchemaMap
assign m id index j = if j == id then some index else m j

module _ (D : DuckDb) (base_data_path : String) where
  -- The schema that a row describes.
  unfoldable pub schema_of_row : SchemaRow → SchemaInfo
  schema_of_row row = record {
    id = row.schema_id;
    uuid = row.schema_uuid;
    name = row.schema_name;
    path = elim row.path [
      | none ↦ base_data_path
      | some p ↦ D.from_relative_path (record { path = p; path_is_relative = row.path_is_relative })
    ];
  }

  -- One round of the loop.
  unfoldable pub add_schema : Schemas → SchemaRow → Schemas
  unfolding schema_of_row
  add_schema s row =
      let schema = schema_of_row row in
      record {
        schemas = s.schemas ++ schema ∷ [];
        schema_map = assign s.schema_map schema.id (length s.schemas);
      }

  unfoldable pub load_schemas : Schemas → List SchemaRow → Schemas
  unfolding add_schema
  load_schemas s [] = s
  load_schemas s (row ∷ rows) = load_schemas (add_schema s row) rows

-- `schema_map.find(schema_id)`, the throw where it is at the end, and `catalog.schemas[index]`.
unfoldable pub find_schema : Schemas → ℕ → ℕ → Result Exception SchemaInfo
unfolding at
find_schema s table_id schema_id = elim (s.schema_map schema_id) [
  | none ↦ err (missing_schema table_id schema_id)
  | some index ↦ at s.schemas index
]
