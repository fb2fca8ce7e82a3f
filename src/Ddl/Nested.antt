-- ===== src/Ddl/Nested.antt =====
-- `ExecuteDuckDBQuery` of src/pgducklake_ddl.cpp around what `duckdb.raw_query` runs in the same
-- backend: DuckDB, which calls back into this extension.
pub mod Leaks
pub mod CreateExtension
pub mod CreateTable
pub mod DropTable
use pg_ducklake_next.Base.{ℕ, String, Option, none, some, List, [], ◌∷◌}
use pg_ducklake_next.Backend.{
  raw_query, pg_error, duckdb_exception, std_exception, other_exception, Outcome, returns, raises,
  Run, History, pure, raise, call, ask, ◌>>=◌, ◌>>◌,
}
use pg_ducklake_next.Spi.Execution.{SpiBackend, QueryResult, create_spi_result}
use pg_ducklake_next.Metadata.Sql.{Fillers, query, query_at, execute, execute_at}
use pg_ducklake_next.Ddl.Query.{message_or_unknown}

-- The PG_CATCH block: an error of PostgreSQL becomes the result 1 and its message; a C++ exception
-- passes the block by.
unfoldable pub catch_error : Outcome (Unit {0}) → Run (ℕ × Option String)
unfolding message_or_unknown
catch_error (returns u) = pure (0, none)
catch_error (raises (pg_error code message)) = pure (1, some (message_or_unknown (some message)))
catch_error (raises (duckdb_exception what)) = raise (duckdb_exception what)
catch_error (raises (std_exception what)) = raise (std_exception what)
catch_error (raises other_exception) = raise other_exception

-- `ExecuteDuckDBQuery(query, &errmsg)`, where the query makes the run `inner`.
unfoldable pub execute_through : (String → Run (Unit {0})) → String → Run (ℕ × Option String)
unfolding catch_error
execute_through inner query h =
    let (o, h') = (call (raw_query query) >> inner query) h in catch_error o h'

module _ (F : Fillers) where
  -- A call of the metadata manager's `Query` or `Execute`, with a snapshot or without.
  pub data MetadataCall : Type 0 where
    query_call execute_call : String → MetadataCall
    query_at_call execute_at_call : F.Snapshot → String → MetadataCall

  -- What DuckDB and DuckLake do for a query that is handed to them in a state: the calls that they
  -- make of the metadata manager, as long as none is ended by an error, and the error with which
  -- `duckdb.raw_query` then ends by itself, if there is one.
  pub record DuckDbRun : Type 0 where
    pub calls : History → String → List MetadataCall
    pub failure : History → Option (String × String)

  module _ (S : SpiBackend) where
    unfoldable pub run_metadata_call : MetadataCall → Run (QueryResult S)
    unfolding query query_at execute execute_at create_spi_result
    run_metadata_call (query_call text) = query F (create_spi_result S) text
    run_metadata_call (execute_call text) = execute F (create_spi_result S) text
    run_metadata_call (query_at_call snapshot text) = query_at F (create_spi_result S) snapshot text
    run_metadata_call (execute_at_call snapshot text) =
        execute_at F (create_spi_result S) snapshot text

    unfoldable pub run_metadata_calls : List MetadataCall → Run (Unit {0})
    unfolding run_metadata_call
    run_metadata_calls [] = pure tt
    run_metadata_calls (c ∷ calls) = run_metadata_call c >>= λ result. run_metadata_calls calls

    unfoldable pub raise_failure : Option (String × String) → Run (Unit {0})
    raise_failure none = pure tt
    raise_failure (some (code, message)) = raise (pg_error code message)

    unfoldable pub duckdb_run : DuckDbRun → String → Run (Unit {0})
    unfolding run_metadata_calls raise_failure
    duckdb_run Q text h =
        (run_metadata_calls (Q.calls h text) >> (ask Q.failure >>= raise_failure)) h
