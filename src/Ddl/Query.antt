-- ===== src/Ddl/Query.antt =====
-- `ExecuteDuckDBQuery` and `ducklake_initialize` of src/pgducklake_ddl.cpp, with the interface of
-- what the file calls.
pub mod Initialize
pub mod Executes
use pg_ducklake_next.Base.{ℕ, String, Bool, true, false, not, Option, none, some, List, []}
use pg_ducklake_next.Backend.{
  raw_query, elog, log, pg_error, Raised, Outcome, returns, raises, History, Run, pure, raise, call,
  ask, ◌>>=◌, ◌>>◌, require,
}
use pg_ducklake_next.Spi.Execution.{SpiCode}
use pg_ducklake_next.Metadata.Sql.{ClassRow, is_initialized}

-- The `duckdb.raw_query` function returns, or raises an error of PostgreSQL, with a message or not.
pub data RawAnswer : Type 0 where
  raw_done : RawAnswer
  raw_error : Option String → RawAnswer

-- `SPI_exec` returns a code or raises an error.
pub data ExecAnswer : Type 0 where
  exec_raises : String → String → ExecAnswer
  exec_returns : SpiCode → ExecAnswer

-- What the calls of this file answer, after a history.
pub record DdlEnv : Type 0 where
  pub raw_answer : History → RawAnswer
  -- `NewGUCNestLevel()`, `SPI_exec`, `SPI_processed`, `SPI_result_code_string`
  pub guc_level : History → ℕ
  pub exec_answer : History → ExecAnswer
  pub spi_processed : History → ℕ
  pub result_code_string : SpiCode → String
  -- `SPI_tuptable->vals[i]`: relid and is_temporary, schema_name and object_name
  pub created_row : History → ℕ → Option ℕ × Option Bool
  pub dropped_row : History → ℕ → String × String
  -- `pgduckdb_get_tabledef(relid)`
  pub get_tabledef : ℕ → Outcome String
  -- `get_namespace_oid(name, true)` and the scan of pg_class
  pub namespace_oid : String → Option ℕ
  pub class_scan : ℕ → List ClassRow

-- `edata->message ? edata->message : "unknown error"`
unfoldable pub message_or_unknown : Option String → String
message_or_unknown none = "unknown error"
message_or_unknown (some message) = message

-- `if (isnull) elog(ERROR, ...)`, and the same for a NULL name.
unfoldable pub not_null : {A : Type 0} → Option A → String → Run A
not_null none message = raise (pg_error "XX000" message)
not_null (some a) message = pure a

module _ (D : DdlEnv) where
  open D use {raw_answer, namespace_oid, class_scan}

  unfoldable pub result_of_raw : RawAnswer → ℕ × Option String
  unfolding message_or_unknown
  result_of_raw raw_done = (0, none)
  result_of_raw (raw_error message) = (1, some (message_or_unknown message))

  -- The returned int, and what `*errmsg_out` is set to.
  unfoldable pub execute_duckdb_query : String → Run (ℕ × Option String)
  unfolding result_of_raw
  execute_duckdb_query query = do
    call (raw_query query)
    answer ← ask raw_answer
    pure (result_of_raw answer)

  -- `ducklake_initialize`, with what `ExecuteDuckDBQuery` does.
  unfoldable pub initialize_with : (String → Run (ℕ × Option String)) → Bool → Run (Unit {0})
  unfolding is_initialized
  initialize_with execute creating_extension = do
    call (elog log "ducklake_initialize() called")
    require creating_extension
        (pg_error "22023" "ducklake_initialize() can only be called during CREATE EXTENSION")
    require (not (is_initialized namespace_oid class_scan))
        (pg_error "42P06" "DuckLake reserved schema \"ducklake\" is already in use")
    execute "SELECT 1" >>= λ result. pure tt

  unfoldable pub initialize : Bool → Run (Unit {0})
  unfolding initialize_with execute_duckdb_query
  initialize = initialize_with execute_duckdb_query
