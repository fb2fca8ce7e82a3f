-- ===== src/Ddl/DropTable/Rounds.antt =====
-- The loop of `ducklake_drop_trigger`, where each of its DuckDB queries returns and gives the outer
-- SPI result back.
use mathlib.Core.List.{append_assoc, append-nil}
use pg_ducklake_next.Base.{
  ℕ, zero, suc, ◌+◌, ◌<◌, ◌==◌, ltb, ◌≡◌, ◌≢◌, refl, sym, ◌∙◌, String, true, false, Option, List,
  [], ◌∷◌, ◌++◌, map, ◌<>◌, concat_map, arith,
}
use pg_ducklake_next.Backend.{
  at_eoxact_guc, spi_finish, spi_connect, spi_exec, new_guc_nest_level, set_config_option, elog,
  debug1, Level, returns, History, Run, raw_queries, spi_executes,
}
use pg_ducklake_next.Backend.Depth.{depth_of, depth-append}
use pg_ducklake_next.Backend.Queries.{raw_queries-append, spi_executes-append}
use pg_ducklake_next.Spi.Execution.{ok_select}
use pg_ducklake_next.Ddl.Query.{exec_returns, DdlEnv}
use pg_ducklake_next.Ddl.CreateTable.{accept_select, exec_select}
use pg_ducklake_next.Ddl.DropTable.{
  dropped_tables_query, ducklake_tables_query, drop_ddl, warn_if_failed, drop_row, drop_rows,
  end_spi, drop_selected, drop_trigger_with,
}

module _ (D : DdlEnv) where
  -- The rows of the result from `proc` on.
  abbrev pub rows_from : History → ℕ → ℕ → List (String × String)
  rows_from h zero proc = []
  rows_from h (suc n) proc = D.dropped_row h proc ∷ rows_from h n (suc proc)

  -- The calls until the first and the second `SPI_exec` returned.
  abbrev pub after_dropped : History → History
  after_dropped h =
      (((h ++ spi_connect ∷ []) ++ new_guc_nest_level ∷ [])
        ++ set_config_option "search_path" "pg_catalog, pg_temp" ∷ [])
      ++ spi_exec dropped_tables_query ∷ []

  abbrev pub after_tables : History → History
  after_tables h = after_dropped h ++ spi_exec ducklake_tables_query ∷ []

  -- The server log leaves `SPI_processed` and `SPI_tuptable` as they were.
  pub record IsKeptByLog : Type 0 where
    pub processed :
        (h : History) (l : Level) (m : String)
        → D.spi_processed (h ++ elog l m ∷ []) ≡ D.spi_processed h
    pub row :
        (h : History) (l : Level) (m : String) (i : ℕ)
        → D.dropped_row (h ++ elog l m ∷ []) i ≡ D.dropped_row h i

  module _ (nested : String → List String) where
    -- What a DuckDB query does that makes these metadata queries.
    pub record Round (h h' : History) (q : String) : Type 0 where
      pub depth : depth_of h' ≡ depth_of h
      pub queries : raw_queries h' ≡ raw_queries h ++ q ∷ []
      pub executed : spi_executes h' ≡ spi_executes h ++ nested q
      pub processed : D.spi_processed h' ≡ D.spi_processed h
      pub row : (i : ℕ) → D.dropped_row h' i ≡ D.dropped_row h i

    -- The metadata queries of the rows' drops, in order.
    abbrev pub nested_of : List (String × String) → List String
    nested_of rows = concat_map (λ row. nested (drop_ddl row)) rows

    -- Every row is dropped, in order, at the same depth.
    pub record Dropped (h h' : History) (rows : List (String × String)) : Type 0 where
      pub depth : depth_of h' ≡ depth_of h
      pub queries : raw_queries h' ≡ raw_queries h ++ map drop_ddl rows
      pub executed : spi_executes h' ≡ spi_executes h ++ nested_of rows

    module _ (execute : String → Run (ℕ × Option String)) (L : IsKeptByLog)
        (executes : (q : String) (h : History)
          → (r : ℕ × Option String) × (h' : History) × (execute q h ≡ (returns r, h'))
            × Round h h' q) where
      Round-log-before :
          (h h' : History) (q : String) (l : Level) (m : String)
          → Round (h ++ elog l m ∷ []) h' q
          → Round h h' q
      Round-log-before h h' q l m r = record {
        depth = r.depth ∙ simp depth-append;
        queries = r.queries ∙ simp (raw_queries-append, append-nil);
        executed = r.executed ∙ simp (spi_executes-append, append-nil);
        processed = r.processed ∙ L.processed h l m;
        row = λ i. r.row i ∙ L.row h l m i;
      }

      warn_if_failed-Round :
          (row : String × String) (q : String) (result : ℕ × Option String) (h k : History)
          → Round h k q
          → (h' : History) × (warn_if_failed D row result k ≡ (returns tt, h')) × Round h h' q
      unfolding warn_if_failed
      warn_if_failed-Round row q (zero, message) h k r = (k, refl, r)
      warn_if_failed-Round (schema_name, table_name) q (suc n, message) h k r = (
        _,
        refl,
        record {
          depth = simp (depth-append, r.depth);
          queries = simp (raw_queries-append, r.queries, append-nil);
          executed = simp (spi_executes-append, r.executed, append-nil);
          processed = L.processed k _ _ ∙ r.processed;
          row = λ i. L.row k _ _ i ∙ r.row i;
        },
      )

      drop_row-Round :
          (row : String × String) (h : History)
          → (h' : History) × (drop_row D execute row h ≡ (returns tt, h'))
            × Round h h' (drop_ddl row)
      unfolding drop_row
      drop_row-Round row h =
          let m = "Dropping DuckLake table: " <> drop_ddl row in
          let (result, k, run, r) = executes (drop_ddl row) (h ++ elog debug1 m ∷ []) in
          let (h', warned, w) =
            warn_if_failed-Round row (drop_ddl row) result h k
              (Round-log-before h k (drop_ddl row) debug1 m r) in
          (h', rw run warned, w)

      rows_from-Kept :
          (h h' : History)
          → ((i : ℕ) → D.dropped_row h' i ≡ D.dropped_row h i)
          → (n proc : ℕ) → rows_from h' n proc ≡ rows_from h n proc
      rows_from-Kept h h' kept zero proc = refl
      rows_from-Kept h h' kept (suc n) proc =
          rw (kept proc, rows_from-Kept h h' kept n (suc proc)) refl

      -- The loop comes to its end and drops the rows in order.
      drop_rows-Dropped :
          (n fuel proc : ℕ) (h : History)
          → n < fuel
          → D.spi_processed h ≡ proc + n
          → (h' : History) × (drop_rows D execute fuel proc h ≡ (returns true, h'))
            × Dropped h h' (rows_from h n proc)
      unfolding drop_rows
      drop_rows-Dropped zero zero proc h lt count = elim lt [ ]
      drop_rows-Dropped (suc n) zero proc h lt count = elim lt [ ]
      drop_rows-Dropped zero (suc fuel) proc h lt count =
          let done : ltb proc (D.spi_processed h) ≡ false = ground arith in
          (
            h,
            rw done refl,
            record {
              depth = refl;
              queries = sym (append-nil (raw_queries h));
              executed = sym (append-nil (spi_executes h));
            },
          )
      drop_rows-Dropped (suc n) (suc fuel) proc h lt count =
          let more : ltb proc (D.spi_processed h) ≡ true = ground arith in
          let (k, dropped, r) = drop_row-Round (D.dropped_row h proc) h in
          let (h', ends, d) =
            drop_rows-Dropped n fuel (suc proc) k (omega arith)
              (r.processed ∙ count ∙ omega arith) in
          let same = rows_from-Kept h k r.row n (suc proc) in
          (
            h',
            rw (more, dropped) ends,
            record {
              depth = d.depth ∙ r.depth;
              queries = rw (d.queries, r.queries, same) (append_assoc (raw_queries h) _ _);
              executed = rw (d.executed, r.executed, same) (append_assoc (spi_executes h) _ _);
            },
          )

      pub drop_trigger_with-Dropped :
          (fuel : ℕ) (h : History)
          → D.exec_answer (after_dropped h) ≡ exec_returns ok_select
          → D.spi_processed (after_dropped h) ≢ 0
          → D.exec_answer (after_tables h) ≡ exec_returns ok_select
          → D.spi_processed (after_tables h) < fuel
          → (h' : History) × (drop_trigger_with D execute fuel true h ≡ (returns true, h'))
            × Dropped h h' (rows_from (after_tables h) (D.spi_processed (after_tables h)) 0)
      unfolding drop_trigger_with drop_selected exec_select accept_select end_spi
      drop_trigger_with-Dropped fuel h first dropped second enough =
          let nonzero : (D.spi_processed (after_dropped h) == 0) ≡ false = ground arith in
          let (k, ends, d) =
            drop_rows-Dropped (D.spi_processed (after_tables h)) fuel 0 (after_tables h) enough
              (omega arith) in
          let level = D.guc_level ((h ++ spi_connect ∷ []) ++ new_guc_nest_level ∷ []) in
          (
            (k ++ at_eoxact_guc level ∷ []) ++ spi_finish ∷ [],
            rw (first, nonzero, second, ends) refl,
            record {
              depth = simp (depth-append, d.depth);
              queries = simp (raw_queries-append, d.queries, append-nil);
              executed = simp (spi_executes-append, d.executed, append-nil);
            },
          )
