-- ===== src/Lib.antt =====
-- pg_ducklake: a PostgreSQL extension that keeps DuckLake tables. DuckDB and its DuckLake
-- extension run inside the PostgreSQL backend (through pg_duckdb), and DuckLake's metadata are
-- PostgreSQL tables that the extension reads and writes through SPI.
--
-- The parts of the program, and the modules that model them:
-- * src/pgducklake_metadata_manager.cpp, the metadata manager. `CreateSPIResult` runs a query
--   through SPI and copies the rows into DuckDB chunks: Spi/Execution (the calls of PostgreSQL in
--   order, with the two local objects of include/pgducklake/utility/cpp_wrapper.hpp and
--   unsafe_command_id_guard.hpp), Spi/Chunks (the loops over rows and columns) and Spi/Cells (the
--   conversion of one datum). `GetCatalogForSnapshot` makes a catalog of the rows of four such
--   queries: Metadata/Schemas, Metadata/Tables, Metadata/Views and Metadata/Partitions are its four
--   loops, Metadata/Columns is `AddChildColumn`, Metadata/Values is `LoadTags` and
--   `LoadInlinedDataTables`, Metadata/Catalog is the whole. Metadata/Records has the metadata
--   tables and Metadata/Store what the four queries select from them. Metadata/Fetch is the same
--   function as a run, with the queries through `Query` and `CreateSPIResult`. `Query`, `Execute`,
--   `CastStatsToTarget`, `WrapWithListAggregation` and `IsInitialized` are in Metadata/Sql.
-- * src/pgducklake_ddl.cpp, the SQL functions and event triggers: Ddl/Query (`ExecuteDuckDBQuery`
--   and `ducklake_initialize`), Ddl/RawQuery (the cached oid that its queries go through),
--   Ddl/CreateTable, Ddl/DropTable, and Ddl/Options (`ducklake_set_option` and
--   `ducklake_cleanup_old_files`). `ExecuteDuckDBQuery` enters DuckDB, which calls back into this
--   extension in the same backend, for metadata queries and for its load: Ddl/Nested has its PG_TRY
--   and PG_CATCH around such a run, and below it are CREATE EXTENSION and the two triggers with it
--   in place of the one call.
-- * include/pgducklake/utility/cpp_wrapper.hpp, the guard around every SQL-callable function:
--   Guard, and Ddl/Guarded for the functions under it.
-- * src/pgducklake_pg_types.cpp, the conversion of types and values: Types/Columns, Types/Values
--   and Types/Detoast.
-- * src/pgducklake_table_am.cpp, the callbacks of the table access method: TableAm.
-- * src/pgducklake_duckdb.cpp, the load of the DuckLake extension: Extension. src/pgducklake.cpp
--   (`_PG_init`), the handler of the access method, and the steps of a backend that load libraries
--   and create DuckDB instances: Extension/Session.
-- Base holds the shared helpers, Backend the calls that the parts make, Tests the runs at small
-- inputs.
--
-- How code is modelled. A function that throws returns a `Result` (Base/Result), whose errors are
-- the exceptions of Metadata/Values. A function that calls PostgreSQL, pg_duckdb or DuckDB for an
-- effect is a `Run` (Backend): it takes the history of calls so far, and gives an outcome and the
-- history then. What a call answers is a function of the history, a field of a record of
-- parameters (`SpiBackend`, `DdlEnv`, `ExtensionEnv`, `GuardEnv`), as are DuckDB's values
-- (`DuckDb`), PostgreSQL's tuples (`TupleAccess`) and its readers of a Datum (`DatumReader`). An
-- error of PostgreSQL jumps over C++ frames, so the destructors of local objects do not run then;
-- `scoped` in Backend says so. Ddl/Nested takes it that no frame of DuckDB or pg_duckdb between
-- the extension and its own PG_CATCH catches such an error. The metadata tables are lists of
-- records; a query gives the rows that its SQL selects, in any order that its ORDER BY allows, and
-- the values that `array_agg` makes reach DuckDB through a parameter (`Aggregates`). The callbacks
-- of the table access method act on the open scan descriptors and on the numbers behind pointers;
-- `palloc` and PostgreSQL's helpers are parameters (`Host`). A DuckDB query in Ddl/Nested is a
-- parameter (`DuckDbRun`): the calls that it makes of the metadata manager, a function of the
-- state and the text, and the error that it ends by itself. A machine integer is its bit pattern,
-- a natural number with the wrap-around written out.
--
-- Bounds and fuel. The chunk loop (`chunks_from`) has fuel for one round for each row, and each
-- round passes 2048 rows. The loop of the drop trigger reads its bound again in each round, after
-- a query that might change it; it takes its fuel as an argument and returns whether it came to
-- its end. All other loops are over lists.
--
-- Not modelled: the constructor, destructor and `Create` of the metadata manager, which only call
-- the base class, memory contexts, the installation script and the build. `elog` at the levels of
-- the log appears as a call, the text of the message without its numbers where they are of no use.
pub mod Base
pub mod Backend
pub mod Metadata
pub mod Spi
pub mod Guard
pub mod Ddl
pub mod Types
pub mod TableAm
pub mod Extension
pub mod Tests
