-- ===== src/Ddl/Nested/CreateExtension.antt =====
-- CREATE EXTENSION: `ducklake_initialize` runs a first DuckDB query, for which pg_duckdb makes its
-- instance and calls `ducklake_load_extension` (src/pgducklake_duckdb.cpp).
use pg_ducklake_next.Base.{◌≡◌, String, ◌<>◌, true, Option, none, some, [], ◌∷◌, ◌++◌, ◌⊎◌}
use pg_ducklake_next.Backend.{
  duckdb_query, elog, debug1, Outcome, returns, raises, pg_error, duckdb_exception, std_exception,
  other_exception, History,
}
use pg_ducklake_next.Extension.{ExtensionEnv, attach_query}
use pg_ducklake_next.Extension.Attach.{effects, before_attach}

module _ (X : ExtensionEnv) where
  -- The ATTACH is the last call, after the directory was made and the query logged, and DuckDB has
  -- answered it so.
  pub record Attached (h h' : History) (failure : Option String) : Type 0 where
    pub calls : effects h' ≡ effects h ++ before_attach X true ++ duckdb_query (attach_query X) ∷ []
    pub made :
        (d : History) × (X.directory_error d ≡ none)
        × (h'
            ≡ (d ++ elog debug1 ("Executing query: " <> attach_query X) ∷ [])
              ++ duckdb_query (attach_query X) ∷ [])
    pub answer : X.query_error h' ≡ failure

  -- The data directory could not be made, and the catalog is not attached.
  pub record NoDirectory (h h' : History) (what : String) : Type 0 where
    pub calls : effects h' ≡ effects h ++ before_attach X true
    pub answer : X.directory_error h' ≡ some what

  abbrev pub Ends : History → Outcome (Unit {0}) × History → Type 0
  Ends h (returns u, h') = Attached h h' none
  Ends h (raises (pg_error code message), h') =
      ((what : String) × Attached h h' (some what)) ⊎ ((what : String) × NoDirectory h h' what)
  Ends h (raises (duckdb_exception what), h') = ⊥
  Ends h (raises (std_exception what), h') = ⊥
  Ends h (raises other_exception, h') = ⊥

  -- The ways in which CREATE EXTENSION may leave the catalog.
  abbrev pub Leaves : History → History → Type 0
  Leaves h h' =
      Attached h h' none
      ⊎ ((what : String) × Attached h h' (some what))
      ⊎ ((what : String) × NoDirectory h h' what)
