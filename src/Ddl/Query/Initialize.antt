-- ===== src/Ddl/Query/Initialize.antt =====
-- When `ducklake_initialize` of src/pgducklake_ddl.cpp succeeds.
use mathlib.Core.List.{append-nil}
use pg_ducklake_next.Base.{
  ◌≡◌, refl, ap, Bool, true, false, ◌&&◌, not, [], ◌∷◌, ◌++◌, inl, inr, Bool-cases,
}
use pg_ducklake_next.Backend.{Outcome, returns, raises, History, raw_queries}
use pg_ducklake_next.Backend.Queries.{raw_queries-append}
use pg_ducklake_next.Metadata.Sql.{is_initialized}
use pg_ducklake_next.Ddl.Query.{DdlEnv, execute_duckdb_query, initialize_with, initialize}

module _ (D : DdlEnv) where
  abbrev pub Initializes : Bool → History → Outcome (Unit {0}) × History → Type 0
  Initializes creating h (returns u, h') =
      (creating ≡ true)
      × (is_initialized D.namespace_oid D.class_scan ≡ false)
      × (raw_queries h' ≡ raw_queries h ++ "SELECT 1" ∷ [])
  Initializes creating h (raises r, h') =
      ((creating && not (is_initialized D.namespace_oid D.class_scan)) ≡ false)
      × (raw_queries h' ≡ raw_queries h)

  -- `ducklake_initialize` returns just during CREATE EXTENSION with no DuckLake table present, and
  -- then has asked DuckDB for one query, whose failure changes nothing; it raises an error
  -- otherwise, and has asked DuckDB for nothing.
  pub initialize-Initializes :
      (creating : Bool) (h : History) → Initializes creating h (initialize D creating h)
  unfolding initialize initialize_with execute_duckdb_query
  initialize-Initializes false h = (refl, simp (raw_queries-append, append-nil))
  initialize-Initializes true h = elim (Bool-cases (is_initialized D.namespace_oid D.class_scan)) [
    | inl there ↦ rw there (ap not there, simp (raw_queries-append, append-nil))
    | inr absent ↦ rw absent (refl, absent, simp (raw_queries-append, append-nil))
  ]
