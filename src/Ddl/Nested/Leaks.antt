-- ===== src/Ddl/Nested/Leaks.antt =====
-- What an error in a metadata query leaves open behind `ExecuteDuckDBQuery`.
use mathlib.Core.List.{append-nil}
use pg_ducklake_next.Base.{
  ℕ, ◌≡◌, refl, sym, ◌∙◌, String, Option, none, some, List, [], ◌∷◌, ◌++◌, map, ◌⊎◌, inl, inr,
  Option-cases,
}
use pg_ducklake_next.Backend.{raw_query, Outcome, returns, raises, pg_error, History, spi_executes}
use pg_ducklake_next.Backend.Depth.{depth-append}
use pg_ducklake_next.Backend.Queries.{spi_executes-append}
use pg_ducklake_next.Spi.Execution.{SpiBackend, create_spi_result}
use pg_ducklake_next.Backend.Executed.{AllRan, OneFailed, AllRan-later, OneFailed-later}
use pg_ducklake_next.Spi.Execution.Cases.{create_spi_result-cases}
use pg_ducklake_next.Metadata.Sql.{Fillers, query, query_at, execute, execute_at}
use pg_ducklake_next.Ddl.Query.{message_or_unknown}
use pg_ducklake_next.Ddl.Nested.{
  catch_error, execute_through, MetadataCall, query_call, execute_call, query_at_call,
  execute_at_call, DuckDbRun, run_metadata_call, run_metadata_calls, raise_failure, duckdb_run,
}

module _ (F : Fillers) where
  -- The text that a call hands to SPI.
  abbrev pub text_of : MetadataCall F → String
  text_of (query_call text) = F.fill_snapshot_commit_args (F.fill_catalog_args text)
  text_of (execute_call text) = F.fill_snapshot_commit_args (F.fill_catalog_args text)
  text_of (query_at_call snapshot text) =
      F.fill_snapshot_commit_args (F.fill_catalog_args (F.fill_snapshot_args snapshot text))
  text_of (execute_at_call snapshot text) =
      F.fill_snapshot_commit_args (F.fill_catalog_args (F.fill_snapshot_args snapshot text))

  abbrev pub texts_of : List (MetadataCall F) → List String
  texts_of calls = map text_of calls

  module _ (S : SpiBackend) where
    pub run_metadata_call-text_of :
        (c : MetadataCall F) (h : History)
        → run_metadata_call F S c h ≡ create_spi_result S (text_of c) h
    unfolding run_metadata_call query query_at execute execute_at
    run_metadata_call-text_of (query_call text) h = refl
    run_metadata_call-text_of (execute_call text) h = refl
    run_metadata_call-text_of (query_at_call snapshot text) h = refl
    run_metadata_call-text_of (execute_at_call snapshot text) h = refl

    pub run_metadata_calls-cases :
        (calls : List (MetadataCall F)) (h : History)
        → ((h' : History) × (run_metadata_calls F S calls h ≡ (returns tt, h'))
            × AllRan h (texts_of calls) h')
          ⊎ ((code : String) × (message : String) × (h' : History) × (run_metadata_calls F S calls h
                ≡ (raises (pg_error code message), h'))
              × OneFailed h (texts_of calls) h')
    unfolding run_metadata_calls
    run_metadata_calls-cases [] h =
        inl (h, refl, record { depth = refl; executed = sym (append-nil (spi_executes h)) })
    run_metadata_calls-cases (c ∷ calls) h =
        let q = text_of c in
        let qs = texts_of calls in
        elim (create_spi_result-cases S q h) [
          | inr f ↦ inr (
            f.code,
            f.message,
            f.after,
            rw (run_metadata_call-text_of c h, f.run) refl,
            record {
              depth = f.depth;
              tried = q ∷ [];
              up_to = record { before = []; failed = q; rest = qs; whole = refl; tried = refl };
              executed = f.executed;
            },
          )
          | inl r ↦ elim (run_metadata_calls-cases calls r.after) [
            | inl (h', ran, all) ↦ inl (
              h',
              rw (run_metadata_call-text_of c h, r.run) ran,
              AllRan-later h r.after h' q qs r.depth r.executed all,
            )
            | inr (code, message, h', ran, one) ↦ inr (
              code,
              message,
              h',
              rw (run_metadata_call-text_of c h, r.run) ran,
              OneFailed-later h r.after h' q qs r.depth r.executed one,
            )
          ]
        ]

    module _ (Q : DuckDbRun F) where
      -- The ways in which `ExecuteDuckDBQuery` ends: all metadata queries have run and DuckDB is
      -- done; they have run and DuckDB ends by an error of its own; a metadata query was ended by
      -- an error of PostgreSQL.
      pub record Done (h : History) (qs : List String) (x : Outcome (ℕ × Option String) × History)
          : Type 0 where
        pub after : History
        pub run : x ≡ (returns (0, none), after)
        pub all : AllRan h qs after
        pub failure : Q.failure after ≡ none

      pub record Refused (h : History) (qs : List String)
          (x : Outcome (ℕ × Option String) × History) : Type 0 where
        pub code : String
        pub message : String
        pub after : History
        pub run : x ≡ (returns (1, some message), after)
        pub all : AllRan h qs after
        pub failure : Q.failure after ≡ some (code, message)

      pub record Broken (h : History) (qs : List String) (x : Outcome (ℕ × Option String) × History)
          : Type 0 where
        pub message : String
        pub after : History
        pub run : x ≡ (returns (1, some message), after)
        pub one : OneFailed h qs after

      -- The same metadata queries, seen from before `raw_query`.
      AllRan-raw_query :
          (h h' : History) (text : String) (qs : List String)
          → AllRan (h ++ raw_query text ∷ []) qs h'
          → AllRan h qs h'
      AllRan-raw_query h h' text qs all = record {
        depth = all.depth ∙ simp (depth-append);
        executed = all.executed ∙ simp (spi_executes-append, append-nil);
      }

      -- Whatever calls of the metadata manager DuckDB makes for a query, and whether or not it then
      -- ends by an error of its own, `ExecuteDuckDBQuery` returns. It returns 0 if all of the
      -- calls' queries have run and DuckDB has no error, and 1 with DuckDB's message if they have
      -- run and DuckDB ends by an error, in both cases with SPI connections, snapshots, GUC levels
      -- and stack bases as deep as before. It returns 1 and a message, too, if an error of
      -- PostgreSQL has ended one of the queries, the last that was executed, and then each of the
      -- four is left one deeper although the error is taken as handled.
      pub execute_through-cases :
          (text : String) (h : History)
          → let qs = texts_of (Q.calls (h ++ raw_query text ∷ []) text) in
            let x = execute_through (duckdb_run F S Q) text h in
            Done h qs x ⊎ (Refused h qs x ⊎ Broken h qs x)
      unfolding execute_through catch_error message_or_unknown duckdb_run raise_failure
      execute_through-cases text h =
          let k = h ++ raw_query text ∷ [] in
          let calls = Q.calls k text in
          elim (run_metadata_calls-cases calls k) [
            | inl (h', ran, all) ↦ elim (Option-cases (Q.failure h')) [
              | inl fine ↦ inl (record {
                after = h';
                run = rw (ran, fine) refl;
                all = AllRan-raw_query h h' text (texts_of calls) all;
                failure = fine;
              })
              | inr ((code, message), failed) ↦ inr (
                  inl (record {
                    code = code;
                    message = message;
                    after = h';
                    run = rw (ran, failed) refl;
                    all = AllRan-raw_query h h' text (texts_of calls) all;
                    failure = failed;
                  }))
            ]
            | inr (code, message, h', ran, one) ↦ inr (
                inr (record {
                  message = message;
                  after = h';
                  run = rw ran refl;
                  one = record {
                    depth = one.depth ∙ simp (depth-append);
                    tried = one.tried;
                    up_to = one.up_to;
                    executed = one.executed ∙ simp (spi_executes-append, append-nil);
                  };
                }))
          ]
