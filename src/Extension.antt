-- ===== src/Extension.antt =====
-- `ducklake_load_extension` of src/pgducklake_duckdb.cpp, which pg_duckdb calls for each DuckDB
-- instance that it creates.
pub mod Attach
pub mod Session
use pg_ducklake_next.Base.{String, ◌<>◌, Bool, true, false, if◌then◌else◌, Option, none, some}
use pg_ducklake_next.Backend.{
  load_ducklake_extension, register_metadata_manager, create_directory, duckdb_query, elog, debug1,
  pg_error, History, Run, pure, raise, call, ask, ◌>>=◌, ◌>>◌,
}

-- `DataDir`, the error of `std::filesystem::create_directory` if it throws one, and the error of
-- the query's result if it has one.
pub record ExtensionEnv : Type 0 where
  pub data_dir : String
  pub directory_error : History → Option String
  pub query_error : History → Option String

module _ (X : ExtensionEnv) where
  open X use {data_dir, directory_error, query_error}

  abbrev pub data_path : String
  data_path = data_dir <> "/pg_ducklake"

  abbrev pub attach_query : String
  attach_query =
      "ATTACH 'ducklake:__pgducklake:' AS pgducklake (METADATA_SCHEMA 'ducklake'" <> ", DATA_PATH '"
      <> data_path <> "'" <> ")"

  -- `ereport(ERROR)` or `elog(ERROR)` if there is an error.
  unfoldable pub fail_on : String → String → Option String → Run (Unit {0})
  fail_on code prefix none = pure tt
  fail_on code prefix (some what) = raise (pg_error code (prefix <> what))

  unfoldable pub make_directory : Run (Unit {0})
  unfolding fail_on
  make_directory = do
    call (create_directory data_path)
    error ← ask directory_error
    fail_on "58030" ("failed to create DuckLake data directory \"" <> data_path <> "\": ") error

  unfoldable pub load_extension : Bool → Run (Unit {0})
  unfolding make_directory fail_on
  load_extension creating_extension = do
    call load_ducklake_extension
    call (register_metadata_manager "__pgducklake")
    if creating_extension then make_directory else pure tt
    call (elog debug1 ("Executing query: " <> attach_query))
    call (duckdb_query attach_query)
    error ← ask query_error
    fail_on "XX000" "Failed to execute query, error: " error
