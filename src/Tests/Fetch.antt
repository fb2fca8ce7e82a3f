-- ===== src/Tests/Fetch.antt =====
-- Runs that go through several parts: the catalog through SPI, DuckDB queries that make metadata
-- queries, CREATE EXTENSION, and a backend from its start.
use pg_ducklake_next.Base.{
  Bool, Option, arith, ℕ, ◌≡◌, refl, String, ◌<>◌, true, false, none, some, List, [], ◌∷◌, ◌++◌,
  ◌⊎◌, All,
}
use pg_ducklake_next.Base.Result.{ok}
use pg_ducklake_next.Backend.{Run, returns, History}
use pg_ducklake_next.Spi.Execution.{SpiBackend, spi_raises, create_spi_result}
use pg_ducklake_next.Metadata.Sql.{Fillers}
use pg_ducklake_next.Metadata.Catalog.{Answers, CatalogInfo, get_catalog_for_snapshot}
use pg_ducklake_next.Metadata.Store.Refinement.{IsCatalogAt}
use pg_ducklake_next.Metadata.Fetch.{ResultReader, fetch_catalog}
use pg_ducklake_next.Metadata.Fetch.Simulation.{
  Sim, AreAnswered, catalog_queries, fetch_catalog-Sim,
}
use pg_ducklake_next.Metadata.Fetch.Refinement.{Gives, fetch_catalog-refines}
use pg_ducklake_next.Ddl.Nested.{
  execute_through, MetadataCall, execute_call, query_at_call, DuckDbRun, duckdb_run,
}
use pg_ducklake_next.Ddl.Nested.Leaks.{texts_of, Done, Refused, Broken, execute_through-cases}
use pg_ducklake_next.Ddl.CreateTable.{create_stmt, create_table_trigger_with}
use pg_ducklake_next.Ddl.CreateTable.Contract.{Contract, after_select}
use pg_ducklake_next.Ddl.Nested.CreateTable.{create_table_trigger_with-execute_through-Contract}
use pg_ducklake_next.Ddl.DropTable.{drop_trigger_with}
use pg_ducklake_next.Ddl.DropTable.Rounds.{rows_from, after_tables, IsKeptByLog, Dropped}
use pg_ducklake_next.Ddl.Nested.DropTable.{IsRestored, drop_trigger_with-execute_through-Dropped}
use pg_ducklake_next.Ddl.Nested.DropTable.Failures.{
  HandedAll, drop_trigger_with-execute_through-HandedAll,
}
use pg_ducklake_next.Extension.{load_extension, make_directory, fail_on}
use pg_ducklake_next.Extension.Session.{
  ducklake_load_extension, other_load_extension, PgDuckDb, run_load_extensions, init_extension,
  pg_init, am_handler, Process, Reach, here, next, load_library, load_other_library, call_handler,
  create_instance, new_process,
}
use pg_ducklake_next.Extension.Session.Attached.{IsPgDuckDb, IsAttached, Reach-IsAttached}
use pg_ducklake_next.Tests.Samples.{duckdb}
use pg_ducklake_next.Tests.Spi.{backend}
use pg_ducklake_next.Tests.Ddl.{env, extension_env}
use pg_ducklake_next.Tests.Store.{
  store, aggregates, store-IsStoreOk, rows-IsAnswer, one_schema, table_rows, view_rows,
  partition_rows,
}

abbrev fillers : Fillers
fillers = record {
  Snapshot = ℕ;
  fill_catalog_args = λ q. q;
  fill_snapshot_commit_args = λ q. q;
  fill_snapshot_args = λ id q. q;
}

abbrev reader : ResultReader backend duckdb.Value
reader = record {
  error_of = λ result. none;
  schema_rows = λ result. one_schema ∷ [];
  table_rows = λ result. table_rows;
  view_rows = λ result. view_rows;
  partition_rows = λ result. partition_rows;
  what = λ e. "exception";
}

abbrev rows_answers : Answers duckdb.Value
rows_answers = record {
  schema_rows = ok (one_schema ∷ []);
  table_rows = ok table_rows;
  view_rows = ok view_rows;
  partition_rows = ok partition_rows;
}

rows_answers-AreAnswered : AreAnswered backend duckdb fillers reader 4 [] rows_answers
unfolding create_spi_result
rows_answers-AreAnswered = record { schemas = refl; tables = refl; views = refl; partitions = refl }

fetch_catalog-Sim_example :
    Sim backend duckdb fillers reader []
      (catalog_queries backend duckdb fillers reader 4)
      (fetch_catalog backend duckdb fillers reader "data/" 4 [])
      (get_catalog_for_snapshot duckdb "data/" rows_answers)
fetch_catalog-Sim_example =
    fetch_catalog-Sim backend duckdb fillers reader "data/" 4 [] rows_answers
      rows_answers-AreAnswered

fetch_catalog-refines_example :
    (catalog : CatalogInfo) × IsCatalogAt duckdb aggregates store 4 "data/" catalog
    × Gives backend duckdb fillers reader []
        (catalog_queries backend duckdb fillers reader 4)
        (fetch_catalog backend duckdb fillers reader "data/" 4 [])
        catalog
fetch_catalog-refines_example =
    fetch_catalog-refines backend duckdb fillers reader aggregates store 4 "data/" store-IsStoreOk
      (one_schema ∷ []) table_rows view_rows partition_rows rows-IsAnswer 4 []
      rows_answers-AreAnswered

abbrev two_calls : String → List (MetadataCall fillers)
two_calls text = execute_call ("BEGIN " <> text) ∷ query_at_call 4 "SELECT 2" ∷ []

abbrev two_texts : List String
two_texts = "BEGIN DROP TABLE t" ∷ "SELECT 2" ∷ []

-- DuckDB makes two calls of the metadata manager and then ends by an error of its own.
abbrev own_failure : History → Option (String × String)
own_failure h = some ("XX000", "out of memory")

abbrev refusing : DuckDbRun fillers
refusing = record { calls = λ h text. two_calls text; failure = own_failure }

abbrev nested_refusing : String → Run (ℕ × Option String)
nested_refusing = execute_through (duckdb_run fillers backend refusing)

execute_through-cases_example :
    Done fillers backend refusing [] two_texts (nested_refusing "DROP TABLE t" [])
    ⊎ (Refused fillers backend refusing [] two_texts (nested_refusing "DROP TABLE t" [])
        ⊎ Broken fillers backend refusing [] two_texts (nested_refusing "DROP TABLE t" []))
execute_through-cases_example = execute_through-cases fillers backend refusing "DROP TABLE t" []

create_table_trigger_with-execute_through-Contract_example :
    Contract
      (env 1)
      create_stmt
      []
      (after_select (env 1) [])
      (create_table_trigger_with (env 1) nested_refusing true create_stmt false [])
create_table_trigger_with-execute_through-Contract_example =
    create_table_trigger_with-execute_through-Contract fillers backend (env 1) refusing true
      create_stmt false []

env-IsKeptByLog : IsKeptByLog (env 2)
env-IsKeptByLog = record { processed = λ h l m. refl; row = λ h l m i. refl }

env-IsRestored : IsRestored fillers backend (env 2) refusing
env-IsRestored = record { processed = λ q r h h' e d. refl; row = λ q r h h' e d i. refl }

drop_trigger_with-execute_through-Dropped_example :
    (h' : History) × (drop_trigger_with (env 2) nested_refusing 3 true [] ≡ (returns true, h'))
    × Dropped
        (env 2)
        (λ text. texts_of fillers (two_calls text))
        []
        h'
        (rows_from (env 2) (after_tables (env 2) []) 2 0)
drop_trigger_with-execute_through-Dropped_example =
    drop_trigger_with-execute_through-Dropped fillers backend (env 2) two_calls own_failure
      (λ h. tt) env-IsKeptByLog env-IsRestored 3 [] refl (λ e. absurd (omega arith)) refl
      (omega arith)

-- Every SPI query of the metadata manager ends by an error.
abbrev failing : SpiBackend
failing = record backend { spi_answer = λ h. spi_raises "40001" "could not serialize access" }

drop_trigger_with-execute_through-HandedAll_example :
    (b : Bool) × (h' : History) × (drop_trigger_with
        (env 2)
        (execute_through (duckdb_run fillers failing refusing))
        3
        true
        []
      ≡ (returns b, h'))
    × HandedAll [] h'
drop_trigger_with-execute_through-HandedAll_example =
    drop_trigger_with-execute_through-HandedAll fillers failing (env 2) refusing 3 [] refl refl

abbrev registries : PgDuckDb
registries = record {
  register_load_extension = λ fs f. fs ++ f ∷ [];
  register_table_am = λ names name. name ∷ names;
  run_other = λ n creating h. (returns tt, h);
}

registries-IsPgDuckDb : IsPgDuckDb extension_env registries
registries-IsPgDuckDb = record {
  register_load_extension = λ fs f. refl;
  run_other = λ n creating h. refl;
}

-- An instance; then another library, this one, its handler; then a second instance.
abbrev loaded : Process
loaded = record {
  library_loaded = true;
  load_extensions = other_load_extension 0 ∷ ducklake_load_extension ∷ [];
  table_ams = "pgducklake" ∷ [];
  history = [];
  instances = record { library_loaded = false; before = []; after = [] } ∷ [];
}

abbrev second_calls : History
second_calls = (load_extension extension_env true []).1

abbrev end_process : Process
end_process = record loaded {
  history = second_calls;
  instances =
      record { library_loaded = true; before = []; after = second_calls } ∷ loaded.instances;
}

end_process-Reach : Reach registries extension_env new_process end_process
unfolding run_load_extensions load_extension make_directory fail_on pg_init init_extension
    am_handler
end_process-Reach =
    next
      (next
        (next (next (next here (create_instance false [] refl refl)) (load_other_library 0 refl))
          (load_library refl refl))
        (call_handler refl refl))
      (create_instance true second_calls refl refl)

Reach-IsAttached_example : All (IsAttached extension_env) end_process.instances
Reach-IsAttached_example =
    Reach-IsAttached extension_env registries registries-IsPgDuckDb end_process end_process-Reach
