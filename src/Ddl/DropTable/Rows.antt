-- ===== src/Ddl/DropTable/Rows.antt =====
-- The statements that `ducklake_drop_trigger` hands to DuckDB, where `ExecuteDuckDBQuery` is one
-- call.
use mathlib.Core.List.{append-nil}
use pg_ducklake_next.Base.{ℕ, ◌<◌, ◌≡◌, ◌≢◌, refl, String, true, Option, [], ◌∷◌, ◌++◌, map}
use pg_ducklake_next.Backend.{raw_query, Level, elog, returns, History, raw_queries}
use pg_ducklake_next.Backend.Depth.{depth_of, depth-append}
use pg_ducklake_next.Backend.Queries.{raw_queries-append, spi_executes-append}
use pg_ducklake_next.Spi.Execution.{ok_select}
use pg_ducklake_next.Ddl.Query.{exec_returns, DdlEnv, execute_duckdb_query}
use pg_ducklake_next.Ddl.DropTable.{drop_ddl, drop_trigger}
use pg_ducklake_next.Ddl.DropTable.Rounds.{
  rows_from, after_dropped, after_tables, IsKeptByLog, Round, drop_trigger_with-Dropped,
}

module _ (D : DdlEnv) where
  -- A nested SPI connection that is closed again gives the outer result back: `duckdb.raw_query`
  -- and the server log leave `SPI_processed` and `SPI_tuptable` as they were.
  pub record IsKept : Type 0 where
    pub processed-raw_query :
        (h : History) (q : String) → D.spi_processed (h ++ raw_query q ∷ []) ≡ D.spi_processed h
    pub processed-elog :
        (h : History) (l : Level) (m : String)
        → D.spi_processed (h ++ elog l m ∷ []) ≡ D.spi_processed h
    pub row-raw_query :
        (h : History) (q : String) (i : ℕ)
        → D.dropped_row (h ++ raw_query q ∷ []) i ≡ D.dropped_row h i
    pub row-elog :
        (h : History) (l : Level) (m : String) (i : ℕ)
        → D.dropped_row (h ++ elog l m ∷ []) i ≡ D.dropped_row h i

  IsKept-IsKeptByLog : IsKept → IsKeptByLog D
  IsKept-IsKeptByLog K = record { processed = K.processed-elog; row = K.row-elog }

  execute_duckdb_query-Round :
      IsKept
      → (q : String) (h : History)
      → (r : ℕ × Option String) × (h' : History) × (execute_duckdb_query D q h ≡ (returns r, h'))
        × Round D (λ text. []) h h' q
  unfolding execute_duckdb_query
  execute_duckdb_query-Round K q h = (
    _,
    h ++ raw_query q ∷ [],
    refl,
    record {
      depth = simp depth-append;
      queries = simp raw_queries-append;
      executed = simp (spi_executes-append, append-nil);
      processed = K.processed-raw_query h q;
      row = K.row-raw_query h q;
    },
  )

  -- Fired by the event trigger manager, if the result of the second query outlives the calls of the
  -- loop, both queries succeed and a table was dropped, then for every fuel above the number of
  -- rows the trigger returns, at the end of its loop. It has handed DuckDB one DROP TABLE for each
  -- row, in order, whatever DuckDB answered to the earlier ones, and SPI connections and GUC levels
  -- are as deep as before.
  pub drop_trigger-Drops :
      IsKept
      → (fuel : ℕ) (h : History) → D.exec_answer (after_dropped D h) ≡ exec_returns ok_select
      → D.spi_processed (after_dropped D h) ≢ 0
      → D.exec_answer (after_tables D h) ≡ exec_returns ok_select
      → D.spi_processed (after_tables D h) < fuel
      → (h' : History) × (drop_trigger D fuel true h ≡ (returns true, h'))
        × (depth_of h' ≡ depth_of h)
        × (raw_queries h'
            ≡ raw_queries h
              ++ map drop_ddl
                  (rows_from D (after_tables D h) (D.spi_processed (after_tables D h)) 0))
  unfolding drop_trigger
  drop_trigger-Drops K fuel h first dropped second enough =
      let (h', ends, d) =
        drop_trigger_with-Dropped D (λ text. []) (execute_duckdb_query D) (IsKept-IsKeptByLog K)
          (execute_duckdb_query-Round K) fuel h first dropped second enough in
      (h', ends, d.depth, d.queries)
