-- ===== src/Ddl/Nested/CreateTable.antt =====
-- The trigger of CREATE TABLE, where DuckDB calls back for metadata queries.
use pg_ducklake_next.Base.{
  ℕ, ◌≡◌, refl, sym, ap, ◌∙◌, subst, String, Bool, Option, none, some, List, [], ◌∷◌, ◌++◌, inl,
  inr,
}
use pg_ducklake_next.Backend.{
  raw_query, pg_error, duckdb_exception, std_exception, other_exception, Outcome, returns, raises,
  History, continue, raw_queries,
}
use pg_ducklake_next.Backend.Queries.{raw_queries-append}
use pg_ducklake_next.Spi.Execution.{SpiBackend, QueryResult}
use pg_ducklake_next.Spi.Execution.Cases.{create_spi_result-raw_queries, create_spi_result-cases}
use pg_ducklake_next.Ddl.Query.{DdlEnv}
use pg_ducklake_next.Ddl.Query.Executes.{Executes}
use pg_ducklake_next.Ddl.CreateTable.{NodeTag, create_table_trigger_with}
use pg_ducklake_next.Ddl.CreateTable.Contract.{
  Contract, after_select, create_table_trigger_with-Contract,
}
use pg_ducklake_next.Metadata.Sql.{Fillers}
use pg_ducklake_next.Ddl.Nested.{
  catch_error, execute_through, MetadataCall, DuckDbRun, run_metadata_calls, raise_failure,
  duckdb_run,
}
use pg_ducklake_next.Ddl.Nested.Leaks.{text_of, run_metadata_call-text_of, execute_through-cases}

module _ (F : Fillers) (S : SpiBackend) where
  run_metadata_calls-raw_queries :
      (calls : List (MetadataCall F)) (h : History)
      → raw_queries (run_metadata_calls F S calls h).1 ≡ raw_queries h
  unfolding run_metadata_calls
  run_metadata_calls-raw_queries [] h = refl
  run_metadata_calls-raw_queries (c ∷ calls) h =
      let handed = create_spi_result-raw_queries S (text_of F c) h in
      let queries_of = λ (x : Outcome (QueryResult S) × History). raw_queries x.1 in
      elim (create_spi_result-cases S (text_of F c) h) [
        | inl r ↦
            rw (run_metadata_call-text_of F S c h, r.run)
              (run_metadata_calls-raw_queries calls r.after ∙ ap queries_of (sym r.run) ∙ handed)
        | inr f ↦ rw (run_metadata_call-text_of F S c h, f.run) (ap queries_of (sym f.run) ∙ handed)
      ]

  catch_error-history : (o : Outcome (Unit {0})) (h : History) → (catch_error o h).1 ≡ h
  unfolding catch_error
  catch_error-history (returns u) h = refl
  catch_error-history (raises (pg_error code message)) h = refl
  catch_error-history (raises (duckdb_exception what)) h = refl
  catch_error-history (raises (std_exception what)) h = refl
  catch_error-history (raises other_exception) h = refl

  raise_failure-history :
      (failure : Option (String × String)) (h : History) → (raise_failure F S failure h).1 ≡ h
  unfolding raise_failure
  raise_failure-history none h = refl
  raise_failure-history (some (code, message)) h = refl

  failure-raw_queries :
      (Q : DuckDbRun F) (x : Outcome (Unit {0}) × History)
      → raw_queries (continue x.0 (λ u h. raise_failure F S (Q.failure h) h) x.1).1
        ≡ raw_queries x.1
  failure-raw_queries Q (returns u, k) = ap raw_queries (raise_failure-history (Q.failure k) k)
  failure-raw_queries Q (raises r, k) = refl

  duckdb_run-raw_queries :
      (Q : DuckDbRun F) (text : String) (h : History)
      → raw_queries (duckdb_run F S Q text h).1 ≡ raw_queries h
  unfolding duckdb_run
  duckdb_run-raw_queries Q text h =
      failure-raw_queries Q (run_metadata_calls F S (Q.calls h text) h)
      ∙ run_metadata_calls-raw_queries (Q.calls h text) h

  pub execute_through-raw_queries :
      (Q : DuckDbRun F) (text : String) (h : History)
      → raw_queries (execute_through (duckdb_run F S Q) text h).1 ≡ raw_queries h ++ text ∷ []
  unfolding execute_through
  execute_through-raw_queries Q text h =
      let x = duckdb_run F S Q text (h ++ raw_query text ∷ []) in
      ap raw_queries (catch_error-history x.0 x.1)
      ∙ duckdb_run-raw_queries Q text (h ++ raw_query text ∷ [])
      ∙ simp raw_queries-append

  pub execute_through-Executes :
      (Q : DuckDbRun F) (text : String) (h : History)
      → Executes text h (execute_through (duckdb_run F S Q) text h)
  execute_through-Executes Q text h =
      let handed = execute_through-raw_queries Q text h in
      let queries_of = λ (x : Outcome (ℕ × Option String) × History). raw_queries x.1 in
      elim (execute_through-cases F S Q text h) [
        | inl d ↦
            subst (Executes text h) (sym d.run) (d.all.depth, ap queries_of (sym d.run) ∙ handed)
        | inr (inl r) ↦ subst (Executes text h) (sym r.run) (ap queries_of (sym r.run) ∙ handed)
        | inr (inr b) ↦ subst (Executes text h) (sym b.run) (ap queries_of (sym b.run) ∙ handed)
      ]

  -- Whatever calls of the metadata manager the DDL makes DuckDB make, and whether or not DuckDB
  -- then ends by an error of its own, the trigger of CREATE TABLE still does what its contract
  -- says: it returns only if no DuckLake table was created, and then hands DuckDB nothing, or if
  -- one was, not temporary and by CREATE TABLE or CREATE TABLE AS, and then hands DuckDB the DDL of
  -- that table. SPI connections, snapshots, GUC levels and stack bases are then as deep as before,
  -- so that what an error in a metadata query leaves open is never left behind by a trigger that
  -- returns.
  pub create_table_trigger_with-execute_through-Contract :
      (D : DdlEnv) (Q : DuckDbRun F) (called : Bool) (tree : NodeTag) (skip : Bool) (h : History)
      → Contract D tree h
          (after_select D h)
          (create_table_trigger_with D (execute_through (duckdb_run F S Q)) called tree skip h)
  create_table_trigger_with-execute_through-Contract D Q =
      create_table_trigger_with-Contract D (execute_through (duckdb_run F S Q))
        (execute_through-Executes Q)
