-- ===== src/Ddl/Nested/DropTable.antt =====
-- The trigger of DROP TABLE, where DuckDB calls back for metadata queries.
pub mod Failures
use mathlib.Core.List.{append-nil}
use pg_ducklake_next.Base.{
  ℕ, ◌<◌, ◌≡◌, ◌≢◌, refl, sym, ap, ◌∙◌, String, true, Option, none, some, inl, inr, Option-cases,
  List, [], ◌∷◌, ◌++◌,
}
use pg_ducklake_next.Backend.{raw_query, returns, Outcome, History, raw_queries, spi_executes}
use pg_ducklake_next.Backend.Depth.{depth_of, depth-append}
use pg_ducklake_next.Backend.Queries.{spi_executes-append}
use pg_ducklake_next.Backend.Executed.{AllRan, AllRan-later}
use pg_ducklake_next.Spi.Execution.{SpiBackend, ok_select}
use pg_ducklake_next.Spi.Execution.Cases.{Succeeds, create_spi_result-Returned}
use pg_ducklake_next.Ddl.Query.{exec_returns, DdlEnv}
use pg_ducklake_next.Ddl.DropTable.{drop_trigger_with}
use pg_ducklake_next.Ddl.DropTable.Rounds.{
  rows_from, after_dropped, after_tables, IsKeptByLog, Round, Dropped, drop_trigger_with-Dropped,
}
use pg_ducklake_next.Metadata.Sql.{Fillers}
use pg_ducklake_next.Ddl.Query.{message_or_unknown}
use pg_ducklake_next.Ddl.Nested.{
  catch_error, execute_through, MetadataCall, DuckDbRun, run_metadata_calls, raise_failure,
  duckdb_run,
}
use pg_ducklake_next.Ddl.Nested.Leaks.{text_of, texts_of, run_metadata_call-text_of}
use pg_ducklake_next.Ddl.Nested.CreateTable.{execute_through-raw_queries}

module _ (F : Fillers) (S : SpiBackend) (D : DdlEnv) (Q : DuckDbRun F) where
  -- `ExecuteDuckDBQuery`, where a query makes DuckDB run so.
  abbrev pub execute : String → History → Outcome (ℕ × Option String) × History
  execute = execute_through (duckdb_run F S Q)

  -- PostgreSQL gives the outer SPI result back where all nested connections are closed again.
  pub record IsRestored : Type 0 where
    pub processed :
        (q : String) (r : ℕ × Option String) (h h' : History)
        → execute q h ≡ (returns r, h')
        → depth_of h' ≡ depth_of h
        → D.spi_processed h' ≡ D.spi_processed h
    pub row :
        (q : String) (r : ℕ × Option String) (h h' : History)
        → execute q h ≡ (returns r, h')
        → depth_of h' ≡ depth_of h
        → (i : ℕ) → D.dropped_row h' i ≡ D.dropped_row h i

  -- A round, from what its metadata queries did.
  Round-from :
      (nested : String → List String)
      → IsRestored
      → (text : String) (r : ℕ × Option String) (h h' : History) → execute text h ≡ (returns r, h')
      → AllRan (h ++ raw_query text ∷ []) (nested text) h'
      → Round D nested h h' text
  Round-from nested restored text r h h' run all =
      let depth : depth_of h' ≡ depth_of h = all.depth ∙ simp depth-append in
      record {
        depth = depth;
        queries =
            ap (λ (x : Outcome (ℕ × Option String) × History). raw_queries x.1) (sym run)
            ∙ execute_through-raw_queries F S Q text h;
        executed = all.executed ∙ simp (spi_executes-append, append-nil);
        processed = restored.processed text r h h' run depth;
        row = restored.row text r h h' run depth;
      }

module _ (F : Fillers) (S : SpiBackend) (D : DdlEnv) (calls : String → List (MetadataCall F))
    (failure : History → Option (String × String))
    (o : (h : History) → Succeeds S (S.spi_answer h)) where
  -- Each drop makes DuckDB make these calls and then end so.
  abbrev pub each : DuckDbRun F
  each = record { calls = λ h text. calls text; failure = failure }

  -- The metadata queries of a drop.
  abbrev pub nested : String → List String
  nested text = texts_of F (calls text)

  run_metadata_calls-AllRan :
      (cs : List (MetadataCall F)) (h : History)
      → (h' : History) × (run_metadata_calls F S cs h ≡ (returns tt, h'))
        × AllRan h (texts_of F cs) h'
  unfolding run_metadata_calls
  run_metadata_calls-AllRan [] h =
      (h, refl, record { depth = refl; executed = sym (append-nil (spi_executes h)) })
  run_metadata_calls-AllRan (c ∷ cs) h =
      let r = create_spi_result-Returned S o (text_of F c) h in
      let (h', ran, all) = run_metadata_calls-AllRan cs r.after in
      (
        h',
        rw (run_metadata_call-text_of F S c h, r.run) ran,
        AllRan-later h r.after h' (text_of F c) (texts_of F cs) r.depth r.executed all,
      )

  execute-Round :
      IsRestored F S D each
      → (text : String) (h : History)
      → (r : ℕ × Option String) × (h' : History) × (execute F S D each text h ≡ (returns r, h'))
        × Round D nested h h' text
  unfolding execute_through catch_error duckdb_run raise_failure message_or_unknown
  execute-Round restored text h =
      let (h', ran, all) = run_metadata_calls-AllRan (calls text) (h ++ raw_query text ∷ []) in
      elim (Option-cases (failure h')) [
        | inl fine ↦
            let run : execute F S D each text h ≡ (returns (0, none), h') = rw (ran, fine) refl in
            (_, h', run, Round-from F S D each nested restored text (0, none) h h' run all)
        | inr ((code, message), failed) ↦
            let run : execute F S D each text h ≡ (returns (1, some message), h') =
              rw (ran, failed) refl in
            (_, h', run, Round-from F S D each nested restored text (1, some message) h h' run all)
      ]

  -- Fired by the event trigger manager, where each drop makes DuckDB make calls of the metadata
  -- manager that depend on its text, and DuckDB then ends by an error of its own or not, no SPI
  -- query ends by an error, PostgreSQL gives an outer SPI result back when the nested connections
  -- are closed and the server log leaves it, both queries of the trigger succeed and a table was
  -- dropped, then for every fuel above the number of rows the trigger returns, at the end of its
  -- loop, with SPI connections, snapshots, GUC levels and stack bases as deep as before. It has
  -- handed DuckDB one DROP TABLE for each row, in order, whatever errors DuckDB ends the earlier
  -- ones by, and all metadata queries of these, in order, have been executed.
  pub drop_trigger_with-execute_through-Dropped :
      IsKeptByLog D
      → IsRestored F S D each
      → (fuel : ℕ) (h : History) → D.exec_answer (after_dropped D h) ≡ exec_returns ok_select
      → D.spi_processed (after_dropped D h) ≢ 0
      → D.exec_answer (after_tables D h) ≡ exec_returns ok_select
      → D.spi_processed (after_tables D h) < fuel
      → (h' : History) × (drop_trigger_with D (execute F S D each) fuel true h ≡ (returns true, h'))
        × Dropped D nested h h'
            (rows_from D (after_tables D h) (D.spi_processed (after_tables D h)) 0)
  drop_trigger_with-execute_through-Dropped kept restored =
      drop_trigger_with-Dropped D nested (execute F S D each) kept (execute-Round restored)
