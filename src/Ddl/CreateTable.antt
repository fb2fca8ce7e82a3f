-- ===== src/Ddl/CreateTable.antt =====
-- `ducklake_create_table_trigger` of src/pgducklake_ddl.cpp.
pub mod Contract
use pg_ducklake_next.Base.{
  ℕ, zero, suc, if◌then◌else◌, ◌&&◌, ◌==◌, ltb, String, ◌<>◌, Bool, true, false, not, ◌||◌, Option,
  none, some,
}
use pg_ducklake_next.Backend.{
  spi_connect, spi_finish, spi_exec, new_guc_nest_level, set_config_option, at_eoxact_guc, elog,
  debug1, pg_error, Raised, Outcome, returns, raises, Run, pure, raise, call, ask, ◌>>=◌, ◌>>◌,
  require,
}
use pg_ducklake_next.Spi.Execution.{SpiCode, ok_select}
use pg_ducklake_next.Ddl.Query.{
  ExecAnswer, exec_raises, exec_returns, DdlEnv, not_null, message_or_unknown, execute_duckdb_query,
}

-- The tag of the parse tree.
pub data NodeTag : Type 0 where
  create_stmt create_table_as_stmt other_stmt : NodeTag

unfoldable pub may_create_table : NodeTag → Bool
may_create_table create_stmt = true
may_create_table create_table_as_stmt = true
may_create_table other_stmt = false

unfoldable pub is_create_table_as : NodeTag → Bool
is_create_table_as create_stmt = false
is_create_table_as create_table_as_stmt = true
is_create_table_as other_stmt = false

abbrev pub created_tables_query : String
created_tables_query =
    "SELECT DISTINCT objid AS relid, pg_class.relpersistence = 't' AS is_temporary FROM pg_catalog.pg_event_trigger_ddl_commands() cmds JOIN pg_catalog.pg_class ON cmds.objid = pg_class.oid WHERE cmds.object_type = 'table' AND pg_class.relam = (SELECT oid FROM pg_am WHERE amname = 'ducklake')"

module _ (D : DdlEnv) where
  open D use {
    raw_answer, guc_level, exec_answer, spi_processed, result_code_string, created_row,
    get_tabledef,
  }

  -- `int ret = SPI_exec(...); if (ret != SPI_OK_SELECT) elog(ERROR, ...)`
  unfoldable pub accept_select : ExecAnswer → Run (Unit {0})
  accept_select (exec_raises code message) = raise (pg_error code message)
  accept_select (exec_returns ok_select) = pure tt
  accept_select (exec_returns ret) =
      raise (pg_error "XX000" ("SPI_exec failed: error code " <> result_code_string ret))

  unfoldable pub exec_select : String → Run (Unit {0})
  unfolding accept_select
  exec_select query = do call (spi_exec query); answer ← ask exec_answer; accept_select answer

  unfoldable pub outcome_of_call : {A : Type 0} → Outcome A → Run A
  outcome_of_call (returns a) = pure a
  outcome_of_call (raises r) = raise r

  -- `ereport(ERROR)` unless the result is 0.
  unfoldable pub check_created : ℕ × Option String → Run (Unit {0})
  unfolding message_or_unknown
  check_created (zero, message) = pure tt
  check_created (suc n, message) =
      raise (pg_error "XX000" ("failed to create DuckLake table: " <> message_or_unknown message))

  -- From the result of `ExecuteDuckDBQuery` on.
  unfoldable pub finish_create : NodeTag → Bool → ℕ × Option String → Run (Unit {0})
  unfolding check_created is_create_table_as
  finish_create parsetree ctas_skip_data result = do
    check_created result
    if is_create_table_as parsetree && not ctas_skip_data
        then call (elog debug1 "CREATE TABLE AS detected - data will be populated via table AM")
        else pure tt

  -- The trigger, with what `ExecuteDuckDBQuery` does.
  module _ (execute : String → Run (ℕ × Option String)) where
    -- From the end of the SPI connection on.
    unfoldable pub create_in_duckdb : NodeTag → Bool → ℕ → ℕ → Run (Unit {0})
    unfolding finish_create outcome_of_call
    create_in_duckdb parsetree ctas_skip_data save_nestlevel relid = do
      call (at_eoxact_guc save_nestlevel)
      call spi_finish
      create_table_ddl ← outcome_of_call (get_tabledef relid)
      call (elog debug1 ("Creating DuckLake table: " <> create_table_ddl))
      result ← execute create_table_ddl
      finish_create parsetree ctas_skip_data result

    -- From `SPI_processed != 1` on, where a table was created.
    unfoldable pub create_selected : NodeTag → Bool → ℕ → Run (Unit {0})
    unfolding may_create_table not_null create_in_duckdb
    create_selected parsetree ctas_skip_data save_nestlevel = do
      processed ← ask spi_processed
      require (processed == 1) (pg_error "XX000" "Expected single table to be created")
      require (may_create_table parsetree) (
          pg_error "42P16"
            "Cannot create a DuckLake table this way, use CREATE TABLE or CREATE TABLE AS")
      row ← ask (λ h. created_row h 0)
      relid ← not_null row.0 "Expected relid to be returned, but found NULL"
      is_temporary ← not_null row.1 "Expected temporary boolean to be returned, but found NULL"
      require (not is_temporary)
          (pg_error "0A000" "temporary tables are not supported with ducklake access method")
      create_in_duckdb parsetree ctas_skip_data save_nestlevel relid

    unfoldable pub create_table_trigger_with : Bool → NodeTag → Bool → Run (Unit {0})
    unfolding exec_select create_selected
    create_table_trigger_with called_as_event_trigger parsetree ctas_skip_data = do
      require called_as_event_trigger (pg_error "XX000" "not fired by event trigger manager")
      call spi_connect
      call new_guc_nest_level
      save_nestlevel ← ask guc_level
      call (set_config_option "search_path" "pg_catalog, pg_temp")
      call (set_config_option "duckdb.force_execution" "false")
      exec_select created_tables_query
      processed ← ask spi_processed
      if ltb 0 processed
          then create_selected parsetree ctas_skip_data save_nestlevel
          else (do call (at_eoxact_guc save_nestlevel); call spi_finish)

  unfoldable pub create_table_trigger : Bool → NodeTag → Bool → Run (Unit {0})
  unfolding create_table_trigger_with execute_duckdb_query
  create_table_trigger = create_table_trigger_with (execute_duckdb_query D)
