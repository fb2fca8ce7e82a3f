-- ===== src/Spi.antt =====
-- `CreateSPIResult` of src/pgducklake_metadata_manager.cpp and what it calls of the repository: how
-- the rows of an SPI query become DuckDB chunks, and the calls of PostgreSQL around it.
pub mod Cells
pub mod Chunks
pub mod Execution
