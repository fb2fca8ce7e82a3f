-- ===== src/Metadata/Records.antt =====
-- The metadata tables that `GetCatalogForSnapshot` of src/pgducklake_metadata_manager.cpp reads,
-- with the columns that its queries name. Columns that DuckLake never writes as NULL are read at
-- their types.
use pg_ducklake_next.Base.{ℕ, String, Bool, Option, List}
use pg_ducklake_next.Metadata.Schemas.{SchemaRow}

-- `begin_snapshot` and `end_snapshot`
pub record Lifetime : Type 0 where
  pub begin_snapshot : Option ℕ
  pub end_snapshot : Option ℕ

-- ducklake_schema
pub record SchemaRecord : Type 0 where
  pub row : SchemaRow
  pub lifetime : Lifetime

-- ducklake_table
pub record TableRecord : Type 0 where
  pub table_id : ℕ
  pub table_uuid : String
  pub lifetime : Lifetime
  pub schema_id : ℕ
  pub table_name : String
  pub path : Option String
  pub path_is_relative : Bool

-- ducklake_column
pub record ColumnRecord : Type 0 where
  pub column_id : ℕ
  pub lifetime : Lifetime
  pub table_id : ℕ
  pub column_order : ℕ
  pub column_name : String
  pub column_type : String
  pub initial_default : Option String
  pub default_value : Option String
  pub nulls_allowed : Bool
  pub parent_column : Option ℕ

-- ducklake_tag, and ducklake_column_tag with its column
pub record TagRecord : Type 0 where
  pub object_id : ℕ
  pub lifetime : Lifetime
  pub key : Option String
  pub value : Option String

pub record ColumnTagRecord : Type 0 where
  pub table_id : ℕ
  pub column_id : ℕ
  pub lifetime : Lifetime
  pub key : Option String
  pub value : Option String

-- ducklake_inlined_data_tables
pub record InlinedRecord : Type 0 where
  pub table_id : ℕ
  pub table_name : String
  pub schema_version : ℕ

-- ducklake_view
pub record ViewRecord : Type 0 where
  pub view_id : ℕ
  pub view_uuid : String
  pub lifetime : Lifetime
  pub schema_id : ℕ
  pub view_name : String
  pub dialect : String
  pub sql : String
  pub column_aliases : String

-- ducklake_partition_info and ducklake_partition_column
pub record PartitionInfoRecord : Type 0 where
  pub partition_id : ℕ
  pub table_id : ℕ
  pub lifetime : Lifetime

pub record PartitionColumnRecord : Type 0 where
  pub partition_id : ℕ
  pub partition_key_index : ℕ
  pub column_id : ℕ
  pub transform : String

pub record Store : Type 0 where
  pub schemas : List SchemaRecord
  pub tables : List TableRecord
  pub columns : List ColumnRecord
  pub tags : List TagRecord
  pub column_tags : List ColumnTagRecord
  pub inlined_data_tables : List InlinedRecord
  pub views : List ViewRecord
  pub partition_infos : List PartitionInfoRecord
  pub partition_columns : List PartitionColumnRecord
