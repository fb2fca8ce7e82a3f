-- ===== src/Metadata/Views.antt =====
-- The view part of `GetCatalogForSnapshot` (src/pgducklake_metadata_manager.cpp).
pub mod Order
use pg_ducklake_next.Base.{ℕ, String, Option, List, [], ◌∷◌, ◌++◌}
use pg_ducklake_next.Base.Result.{Result, ok, ◌>>=◌, fold_result}
use pg_ducklake_next.Metadata.Columns.{Tag}
use pg_ducklake_next.Metadata.Values.{Exception, DuckDb, load_tags}
use pg_ducklake_next.Metadata.Tables.{load_unless_null}

-- A row of the view query, its columns read at their types.
pub record ViewRow (Value : Type 0) : Type 0 where
  pub view_id : ℕ
  pub view_uuid : String
  pub schema_id : ℕ
  pub view_name : String
  pub dialect : String
  pub sql : String
  pub column_aliases : String
  pub tag : Option Value

-- `duckdb::DuckLakeViewInfo`
pub record ViewInfo : Type 0 where
  pub id : ℕ
  pub uuid : String
  pub schema_id : ℕ
  pub name : String
  pub dialect : String
  pub sql : String
  pub column_aliases : List String
  pub tags : List Tag

module _ (D : DuckDb) where
  unfoldable pub view_of_row : ViewRow D.Value → Result Exception ViewInfo
  unfolding load_unless_null
  view_of_row row = do
    column_aliases ← D.parse_quoted_list row.column_aliases
    tags ← load_unless_null (load_tags D) row.tag
    ok (record {
      id = row.view_id;
      uuid = row.view_uuid;
      schema_id = row.schema_id;
      name = row.view_name;
      dialect = row.dialect;
      sql = row.sql;
      column_aliases = column_aliases;
      tags = tags;
    })

  -- One round of the loop.
  unfoldable pub add_view_row : List ViewInfo → ViewRow D.Value → Result Exception (List ViewInfo)
  unfolding view_of_row
  add_view_row views row = do view ← view_of_row row; ok (views ++ view ∷ [])

  unfoldable pub load_views : List (ViewRow D.Value) → Result Exception (List ViewInfo)
  unfolding add_view_row fold_result
  load_views rows = fold_result add_view_row [] rows
