-- ===== src/Tests/Ddl.antt =====
-- Runs of the event triggers and functions, and of the extension's load.
use pg_ducklake_next.Ddl.RawQuery.{Lookup, duckdb_raw_queries, duckdb_raw_queries-first_found}
use pg_ducklake_next.Base.{
  ℕ, ◌≡◌, ◌==◌, if◌then◌else◌, refl, ◌<>◌, true, false, none, some, String, List, [], ◌∷◌,
  get_elem?, ◌++◌, map, arith,
}
use pg_ducklake_next.Base.Result.{ok, err}
use pg_ducklake_next.Backend.{returns, History, raw_queries}
use pg_ducklake_next.Backend.Depth.{depth_of}
use pg_ducklake_next.Spi.Execution.{ok_select}
use pg_ducklake_next.Ddl.Query.{RawAnswer, raw_done, raw_error, exec_returns, DdlEnv, initialize}
use pg_ducklake_next.Ddl.Query.Initialize.{Initializes, initialize-Initializes}
use pg_ducklake_next.Ddl.CreateTable.{create_stmt, create_table_trigger}
use pg_ducklake_next.Ddl.CreateTable.Contract.{
  Contract, after_select, create_table_trigger-Contract,
}
use pg_ducklake_next.Ddl.DropTable.{drop_ddl, drop_trigger}
use pg_ducklake_next.Ddl.DropTable.Rounds.{rows_from, after_tables}
use pg_ducklake_next.Ddl.DropTable.Rows.{IsKept, drop_trigger-Drops}
use pg_ducklake_next.Ddl.Options.{OptionArgs, int4_oid, Names, set_option}
use pg_ducklake_next.Ddl.Options.Silent.{Accepts, set_option-Accepts}
use pg_ducklake_next.Guard.{GuardEnv}
use pg_ducklake_next.Ddl.Guarded.{ducklake_create_table_trigger}
use pg_ducklake_next.Ddl.Guarded.Escape.{Safe, ducklake_create_table_trigger-Safe}
use pg_ducklake_next.Extension.{ExtensionEnv, load_extension}
use pg_ducklake_next.Extension.Attach.{Attaches, load_extension-Attaches}

-- Every SPI query gives so many rows, and DuckDB refuses every query.
abbrev pub env : ℕ → DdlEnv
env rows = record {
  raw_answer = λ h. raw_error (some "refused");
  guc_level = λ h. 2;
  exec_answer = λ h. exec_returns ok_select;
  spi_processed = λ h. rows;
  result_code_string = λ code. "code";
  created_row = λ h i. (some 16400, some false);
  dropped_row = λ h i. ("public", if i == 0 then "a" else "b");
  get_tabledef = λ relid. returns "CREATE TABLE t(a INTEGER)";
  namespace_oid = λ name. none;
  class_scan = λ oid. [];
}

create_table_trigger-Contract_example :
    Contract
      (env 1)
      create_stmt
      []
      (after_select (env 1) [])
      (create_table_trigger (env 1) true create_stmt false [])
create_table_trigger-Contract_example =
    create_table_trigger-Contract (env 1) true create_stmt false []

abbrev env-IsKept : IsKept (env 2)
env-IsKept = record {
  processed-raw_query = λ h q. refl;
  processed-elog = λ h l m. refl;
  row-raw_query = λ h q i. refl;
  row-elog = λ h l m i. refl;
}

drop_trigger-Drops_example :
    (h' : History) × (drop_trigger (env 2) 3 true [] ≡ (returns true, h'))
    × (depth_of h' ≡ depth_of [])
    × (raw_queries h' ≡ [] ++ map drop_ddl (rows_from (env 2) (after_tables (env 2) []) 2 0))
drop_trigger-Drops_example =
    drop_trigger-Drops (env 2) env-IsKept 3 [] refl (λ e. absurd (omega arith)) refl (omega arith)

initialize-Initializes_example : Initializes (env 0) true [] (initialize (env 0) true [])
initialize-Initializes_example = initialize-Initializes (env 0) true []

abbrev names : Names
names = record {
  same_ignoring_case = λ a b. true;
  write_quoted = λ s. "'" <> s <> "'";
  get_rel_name = λ oid. some "t";
  get_namespace_name = λ oid. some "public";
}

abbrev option_args : OptionArgs
option_args = record {
  option_name = some "data_inlining_row_limit";
  value_type = int4_oid;
  value = some "10";
  scope = some 16400;
}

set_option-Accepts_example : Accepts names option_args [] (set_option names option_args [])
set_option-Accepts_example = set_option-Accepts names option_args []

abbrev pub extension_env : ExtensionEnv
extension_env = record { data_dir = "/data"; directory_error = λ h. none; query_error = λ h. none }

load_extension-Attaches_example :
    Attaches extension_env true [] (load_extension extension_env true [])
load_extension-Attaches_example = load_extension-Attaches extension_env true []

abbrev guard_env : GuardEnv
guard_env = record { exception_stack = λ h. 0; error_data_message = λ what. what }

ducklake_create_table_trigger-Safe_example :
    Safe guard_env
      (env 1)
      create_stmt
      []
      (after_select (env 1) [])
      (ducklake_create_table_trigger guard_env (env 1) true create_stmt false [])
ducklake_create_table_trigger-Safe_example =
    ducklake_create_table_trigger-Safe guard_env (env 1) true create_stmt false []

-- The function is found at the second call, and has another oid at the third.
abbrev backend_calls : List (String × Lookup)
backend_calls =
    ("SELECT 1", err (some "no function")) ∷ ("SELECT 2", ok 70) ∷ ("SELECT 3", ok 90) ∷ []

abbrev only_90 : ℕ → String → RawAnswer
only_90 oid query = if oid == 90 then raw_done else raw_error (some "no function with that oid")

duckdb_raw_queries-first_found_example :
    get_elem? (duckdb_raw_queries only_90 0 backend_calls) 2
    ≡ some (raw_error (some "no function with that oid"))
duckdb_raw_queries-first_found_example =
    duckdb_raw_queries-first_found only_90 backend_calls (tt, ((λ e. cc), ((λ e. cc), tt))) 2
      ("SELECT 3", ok 90) refl
