-- ===== src/Spi/Execution.antt =====
-- `CreateSPIResult` and `ConvertSPIResultToDuckStatementType` of
-- src/pgducklake_metadata_manager.cpp, `PostgresScopedStackReset` of
-- include/pgducklake/utility/cpp_wrapper.hpp, and `UnsafeCommandIdGuard` of
-- include/pgducklake/utility/unsafe_command_id_guard.hpp.
pub mod Balance
pub mod Cases
use pg_ducklake_next.Base.{ℕ, ◌%◌, ◌^◌, String, ◌<>◌, false, Option, none, some, List, [], ◌∷◌, map}
use pg_ducklake_next.Backend.{
  Call, set_stack_base, restore_stack_base, set_next_expected_command_id, spi_connect, spi_finish,
  push_active_snapshot, pop_active_snapshot, spi_execute, new_guc_nest_level, set_config_option,
  at_eoxact_guc, elog, debug1, pg_error, History, Run, pure, raise, call, ask, ◌>>=◌, ◌>>◌, scoped,
}
use pg_ducklake_next.Spi.Chunks.{Chunk, TupleAccess, chunks_of}

-- The codes of SPI.
pub data SpiCode : Type 0 where
  ok_utility ok_select ok_selinto ok_insert ok_insert_returning ok_delete ok_delete_returning :
      SpiCode
  ok_update ok_update_returning : SpiCode
  ok_other : ℕ → SpiCode

-- `duckdb::StatementType`, as far as it is used
pub data StatementType : Type 0 where
  execute_statement select_statement insert_statement delete_statement : StatementType
  update_statement invalid_statement : StatementType

unfoldable pub convert_spi_result_to_duck_statement_type : SpiCode → StatementType
convert_spi_result_to_duck_statement_type ok_utility = execute_statement
convert_spi_result_to_duck_statement_type ok_select = select_statement
convert_spi_result_to_duck_statement_type ok_selinto = select_statement
convert_spi_result_to_duck_statement_type ok_insert = insert_statement
convert_spi_result_to_duck_statement_type ok_insert_returning = insert_statement
convert_spi_result_to_duck_statement_type ok_delete = delete_statement
convert_spi_result_to_duck_statement_type ok_delete_returning = delete_statement
convert_spi_result_to_duck_statement_type ok_update = update_statement
convert_spi_result_to_duck_statement_type ok_update_returning = update_statement
convert_spi_result_to_duck_statement_type (ok_other code) = invalid_statement

-- What `SPI_execute` does: it raises an error of PostgreSQL, returns a negative code (of this
-- name), or returns a code, with `SPI_tuptable` NULL or a table of attributes and tuples.
pub data SpiAnswer (T : TupleAccess) : Type 0 where
  spi_raises : String → String → SpiAnswer T
  spi_fails : String → SpiAnswer T
  spi_returns : SpiCode → Option (List T.Attribute × List T.Tuple) → SpiAnswer T

-- What the calls answer, and what the code reads of an attribute.
pub record SpiBackend : Type 1 where
  pub tuples : TupleAccess
  pub LogicalType : Type 0
  -- `NewGUCNestLevel()`, `SPI_execute`, `GetCurrentCommandId(false)`
  pub guc_level : History → ℕ
  pub spi_answer : History → SpiAnswer tuples
  pub current_command_id : History → ℕ
  -- `NameStr(attr->attname)` and `ConvertPostgresToDuckColumnType(attr)`
  pub attribute_name : tuples.Attribute → String
  pub column_type : tuples.Attribute → LogicalType

-- The scope of a `PostgresScopedStackReset`.
abbrev pub scoped_stack_reset : {A : Type 0} → Run A → Run A
scoped_stack_reset body = do call set_stack_base; scoped (call restore_stack_base) body

module _ (S : SpiBackend) where
  open S use {
    tuples, LogicalType, guc_level, spi_answer, current_command_id, attribute_name, column_type,
  }

  -- `duckdb::MaterializedQueryResult`
  pub record QueryResult : Type 0 where
    pub statement_type : StatementType
    pub names : List String
    pub types : List LogicalType
    pub chunks : List (Chunk tuples.V)

  -- The destructor of `UnsafeCommandIdGuard`; its constructor does nothing.
  unfoldable pub sync_command_id : Run (Unit {0})
  sync_command_id = do
    id ← ask current_command_id
    call (set_next_expected_command_id (id % 2 ^ 32))

  -- The scope of an `UnsafeCommandIdGuard`.
  abbrev pub command_id_guard : {A : Type 0} → Run A → Run A
  command_id_guard body = scoped sync_command_id body

  -- `AtEOXact_GUC(false, save_nestlevel); PopActiveSnapshot(); SPI_finish();`
  unfoldable pub close_spi : ℕ → Run (Unit {0})
  close_spi save_nestlevel = do
    call (at_eoxact_guc save_nestlevel)
    call pop_active_snapshot
    call spi_finish

  -- From the return of `SPI_execute` on.
  unfoldable pub result_of : ℕ → SpiAnswer tuples → Run QueryResult
  unfolding close_spi convert_spi_result_to_duck_statement_type
  result_of save_nestlevel (spi_raises code message) = raise (pg_error code message)
  result_of save_nestlevel (spi_fails name) =
      raise (pg_error "XX000" ("SPI_execute failed: " <> name))
  result_of save_nestlevel (spi_returns code none) = do
    close_spi save_nestlevel
    pure (record {
      statement_type = convert_spi_result_to_duck_statement_type code;
      names = [];
      types = [];
      chunks = [];
    })
  result_of save_nestlevel (spi_returns code (some (attrs, vals))) = do
    close_spi save_nestlevel
    pure (record {
      statement_type = select_statement;
      names = map attribute_name attrs;
      types = map column_type attrs;
      chunks = chunks_of tuples attrs vals;
    })

  -- What stands in the scope of the two local objects.
  unfoldable pub run_query : String → Run QueryResult
  unfolding result_of
  run_query query = do
    call spi_connect
    call push_active_snapshot
    call new_guc_nest_level
    save_nestlevel ← ask guc_level
    call (set_config_option "duckdb.force_execution" "false")
    call (spi_execute query false)
    answer ← ask spi_answer
    result_of save_nestlevel answer

  unfoldable pub create_spi_result : String → Run QueryResult
  unfolding run_query sync_command_id
  create_spi_result query = do
    call (elog debug1 ("Creating SPI result for query: " <> query))
    scoped_stack_reset (command_id_guard (run_query query))
