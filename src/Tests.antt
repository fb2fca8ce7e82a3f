-- ===== src/Tests.antt =====
-- Runs of the definitions at small inputs, and the theorems applied to them.
pub mod Samples
pub mod Catalog
pub mod Lists
pub mod Spi
pub mod Ddl
pub mod Types
pub mod Store
pub mod TableAm
pub mod Fetch
