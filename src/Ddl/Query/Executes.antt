-- ===== src/Ddl/Query/Executes.antt =====
-- What the triggers rely on of `ExecuteDuckDBQuery`.
use pg_ducklake_next.Base.{ℕ, zero, suc, ◌≡◌, String, Option, [], ◌∷◌, ◌++◌}
use pg_ducklake_next.Backend.{raw_query, Outcome, returns, raises, History, raw_queries}
use pg_ducklake_next.Backend.Depth.{depth_of, depth-append}
use pg_ducklake_next.Backend.Queries.{raw_queries-append}
use pg_ducklake_next.Ddl.Query.{
  RawAnswer, raw_done, raw_error, DdlEnv, result_of_raw, execute_duckdb_query,
}

-- It returns; one query is handed to DuckDB, and with the result 0 nothing is left open.
abbrev pub Executes : String → History → Outcome (ℕ × Option String) × History → Type 0
Executes query h (returns (zero, message), h') =
    (depth_of h' ≡ depth_of h) × (raw_queries h' ≡ raw_queries h ++ query ∷ [])
Executes query h (returns (suc n, message), h') = raw_queries h' ≡ raw_queries h ++ query ∷ []
Executes query h (raises r, h') = ⊥

module _ (D : DdlEnv) where
  result_of_raw-Executes :
      (query : String) (h : History) (answer : RawAnswer)
      → Executes query h (returns (result_of_raw D answer), h ++ raw_query query ∷ [])
  unfolding result_of_raw
  result_of_raw-Executes query h raw_done = (simp depth-append, simp raw_queries-append)
  result_of_raw-Executes query h (raw_error message) = simp raw_queries-append

  pub execute_duckdb_query-Executes :
      (query : String) (h : History) → Executes query h (execute_duckdb_query D query h)
  unfolding execute_duckdb_query
  execute_duckdb_query-Executes query h =
      result_of_raw-Executes query h (D.raw_answer (h ++ raw_query query ∷ []))
