-- ===== src/Ddl/DropTable.antt =====
-- `ducklake_drop_trigger` of src/pgducklake_ddl.cpp. The loop over the dropped tables reads
-- `SPI_processed` and `SPI_tuptable` again in each round, after the queries of the rounds before;
-- it runs on fuel and tells by a Boolean whether it came to its end.
pub mod Rounds
pub mod Rows
pub mod Names
use pg_ducklake_next.Base.{
  ℕ, zero, suc, if◌then◌else◌, ◌==◌, ltb, String, ◌<>◌, Bool, true, false, Option,
}
use pg_ducklake_next.Backend.{
  spi_connect, spi_finish, new_guc_nest_level, set_config_option, at_eoxact_guc, elog, debug1,
  warning, pg_error, Run, pure, raise, call, ask, ◌>>=◌, ◌>>◌, require,
}
use pg_ducklake_next.Ddl.Query.{DdlEnv, message_or_unknown, execute_duckdb_query}
use pg_ducklake_next.Ddl.CreateTable.{exec_select}

abbrev pub dropped_tables_query : String
dropped_tables_query =
    "SELECT 1 FROM pg_catalog.pg_event_trigger_dropped_objects() WHERE object_type = 'table'"

abbrev pub ducklake_tables_query : String
ducklake_tables_query =
    "SELECT cmds.schema_name, cmds.object_name FROM pg_catalog.pg_event_trigger_dropped_objects() cmds JOIN ducklake.ducklake_table AS tbl ON cmds.object_name = tbl.table_name JOIN ducklake.ducklake_schema AS schema ON cmds.schema_name = schema.schema_name AND tbl.schema_id = schema.schema_id WHERE cmds.object_type = 'table' AND tbl.end_snapshot IS NULL AND schema.end_snapshot IS NULL"

-- `StringUtil::Format("DROP TABLE IF EXISTS %s.%s.%s", PGDUCKLAKE_DB_NAME, ...)`
unfoldable pub drop_ddl : String × String → String
drop_ddl (schema_name, table_name) =
    "DROP TABLE IF EXISTS pgducklake." <> schema_name <> "." <> table_name

module _ (D : DdlEnv) where
  open D use {guc_level, spi_processed, dropped_row}

  unfoldable pub warn_if_failed : String × String → ℕ × Option String → Run (Unit {0})
  unfolding message_or_unknown
  warn_if_failed row (zero, error_msg) = pure tt
  warn_if_failed (schema_name, table_name) (suc n, error_msg) = call (
      elog warning (
        "failed to drop DuckLake table "
        <> schema_name
        <> "."
        <> table_name
        <> ": "
        <> message_or_unknown error_msg))

  -- `AtEOXact_GUC(false, save_nestlevel); SPI_finish();`
  unfoldable pub end_spi : {A : Type 0} → ℕ → A → Run A
  end_spi save_nestlevel result = do
    call (at_eoxact_guc save_nestlevel)
    call spi_finish
    pure result

  -- The trigger, with what `ExecuteDuckDBQuery` does.
  module _ (execute : String → Run (ℕ × Option String)) where
    -- One round, for the row that it reads.
    unfoldable pub drop_row : String × String → Run (Unit {0})
    unfolding warn_if_failed drop_ddl
    drop_row row = do
      call (elog debug1 ("Dropping DuckLake table: " <> drop_ddl row))
      result ← execute (drop_ddl row)
      warn_if_failed row result

    unfoldable pub drop_rows : ℕ → ℕ → Run Bool
    unfolding drop_row
    drop_rows zero proc = pure false
    drop_rows (suc fuel) proc = do
      processed ← ask spi_processed
      if ltb proc processed
          then (do row ← ask (λ h. dropped_row h proc); drop_row row; drop_rows fuel (suc proc))
          else pure true

    -- From `SPI_processed == 0` on.
    unfoldable pub drop_selected : ℕ → ℕ → Run Bool
    unfolding drop_rows end_spi exec_select
    drop_selected fuel save_nestlevel = do
      processed ← ask spi_processed
      if processed == 0 then end_spi save_nestlevel true else (do
        exec_select D ducklake_tables_query
        finished ← drop_rows fuel 0
        end_spi save_nestlevel finished)

    unfoldable pub drop_trigger_with : ℕ → Bool → Run Bool
    unfolding drop_selected exec_select
    drop_trigger_with fuel called_as_event_trigger = do
      require called_as_event_trigger (pg_error "XX000" "not fired by event trigger manager")
      call spi_connect
      call new_guc_nest_level
      save_nestlevel ← ask guc_level
      call (set_config_option "search_path" "pg_catalog, pg_temp")
      exec_select D dropped_tables_query
      drop_selected fuel save_nestlevel

  unfoldable pub drop_trigger : ℕ → Bool → Run Bool
  unfolding drop_trigger_with execute_duckdb_query
  drop_trigger = drop_trigger_with (execute_duckdb_query D)
