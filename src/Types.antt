-- ===== src/Types.antt =====
-- src/pgducklake_pg_types.cpp: types and values of PostgreSQL in DuckDB's terms.
pub mod Columns
pub mod Values
pub mod Detoast
