-- ===== src/Ddl.antt =====
-- src/pgducklake_ddl.cpp: the event triggers and the SQL functions, and `ExecuteDuckDBQuery`.
pub mod Query
pub mod RawQuery
pub mod Nested
pub mod CreateTable
pub mod DropTable
pub mod Options
pub mod Guarded
