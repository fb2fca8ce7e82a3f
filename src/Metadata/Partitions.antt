-- ===== src/Metadata/Partitions.antt =====
-- The partition part of `GetCatalogForSnapshot` (src/pgducklake_metadata_manager.cpp). The vector
-- `catalog.partitions` is kept in reverse here, so that its first element is `partitions.back()`.
pub mod Fields
use mathlib.Core.List.{reverse}
use pg_ducklake_next.Base.{ℕ, String, Bool, true, false, List, [], ◌∷◌, ◌++◌, ◌==◌, if◌then◌else◌}

-- A row of the partition query.
pub record PartitionRow : Type 0 where
  pub partition_id : ℕ
  pub table_id : ℕ
  pub partition_key_index : ℕ
  pub column_id : ℕ
  pub transform : String

-- `duckdb::DuckLakePartitionFieldInfo`
pub record PartitionFieldInfo : Type 0 where
  pub partition_key_index : ℕ
  pub field_id : ℕ
  pub transform : String

-- `duckdb::DuckLakePartitionInfo`
pub record PartitionInfo : Type 0 where
  pub id : ℕ
  pub table_id : ℕ
  pub fields : List PartitionFieldInfo

abbrev pub partition_field : PartitionRow → PartitionFieldInfo
partition_field row = record {
  partition_key_index = row.partition_key_index;
  field_id = row.column_id;
  transform = row.transform;
}

-- `partitions.empty() || partitions.back().table_id != table_id`
unfoldable pub starts_partition : List PartitionInfo → ℕ → Bool
starts_partition [] table_id = true
starts_partition (back ∷ older) table_id = if back.table_id == table_id then false else true

unfoldable pub push_field : List PartitionInfo → PartitionFieldInfo → List PartitionInfo
push_field [] field = []
push_field (back ∷ older) field = record back { fields = back.fields ++ field ∷ [] } ∷ older

-- One round of the loop.
unfoldable pub add_partition_row : List PartitionInfo → PartitionRow → List PartitionInfo
unfolding starts_partition push_field
add_partition_row partitions row =
    let new : PartitionInfo = record {
      id = row.partition_id;
      table_id = row.table_id;
      fields = [];
    } in
    push_field (if starts_partition partitions row.table_id then new ∷ partitions else partitions)
      (partition_field row)

unfoldable pub add_partition_rows : List PartitionInfo → List PartitionRow → List PartitionInfo
unfolding add_partition_row
add_partition_rows partitions [] = partitions
add_partition_rows partitions (row ∷ rows) =
    add_partition_rows (add_partition_row partitions row) rows

unfoldable pub load_partitions : List PartitionRow → List PartitionInfo
unfolding add_partition_rows
load_partitions rows = reverse (add_partition_rows [] rows)
