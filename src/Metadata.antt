-- ===== src/Metadata.antt =====
-- src/pgducklake_metadata_manager.cpp: the metadata manager that reads DuckLake's catalog through
-- PostgreSQL's SPI.
pub mod Columns
pub mod Values
pub mod Schemas
pub mod Tables
pub mod Partitions
pub mod Views
pub mod Catalog
pub mod Sql
pub mod Records
pub mod Fetch
pub mod Store
