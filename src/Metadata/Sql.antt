-- ===== src/Metadata/Sql.antt =====
-- The parts of src/pgducklake_metadata_manager.cpp that rewrite SQL text or look at PostgreSQL's
-- catalog: `Query`, `Execute`, `CastStatsToTarget`, `WrapWithListAggregation` and `IsInitialized`.
pub mod Joined
use Prim.Native.String.{slice}
use text.Mathlib.Text.{◌==◌, starts_with}
use pg_ducklake_next.Base.{
  ℕ, String, ◌<>◌, Bool, true, false, not, ◌&&◌, Option, none, some, List, [], ◌∷◌, if◌then◌else◌,
}

-- DuckLake's fillers of the placeholders in a query; the catalog and the commit info are the
-- transaction's.
pub record Fillers : Type 1 where
  pub Snapshot : Type 0
  pub fill_catalog_args : String → String
  pub fill_snapshot_commit_args : String → String
  pub fill_snapshot_args : Snapshot → String → String

module _ (F : Fillers) {R : Type 0} (create_spi_result : String → R) where
  unfoldable pub query : String → R
  query q = create_spi_result (F.fill_snapshot_commit_args (F.fill_catalog_args q))

  unfoldable pub query_at : F.Snapshot → String → R
  unfolding query
  query_at snapshot q = query (F.fill_snapshot_args snapshot q)

  unfoldable pub execute : String → R
  unfolding query
  execute q = query q

  unfoldable pub execute_at : F.Snapshot → String → R
  unfolding query
  execute_at snapshot q = query (F.fill_snapshot_args snapshot q)

-- `type.IsNumeric()` and `type.ToString()` are DuckDB's.
unfoldable pub cast_stats_to_target : String → Bool → String → String
cast_stats_to_target stats is_numeric type_name =
    if is_numeric then "CAST(" <> stats <> " AS " <> type_name <> ")" else stats

-- The loop of `WrapWithListAggregation` from `fields_part` on.
unfoldable pub add_fields : String → List (String × String) → String
add_fields fields_part [] = fields_part
add_fields fields_part ((first, second) ∷ fields) =
    add_fields
      ((if not (fields_part == "") then fields_part <> ", " else fields_part)
        <> ("'" <> first <> "', " <> second))
      fields

unfoldable pub wrap_with_list_aggregation : List (String × String) → String
unfolding add_fields
wrap_with_list_aggregation fields = "json_agg(json_build_object(" <> add_fields "" fields <> "))"

-- A row of `pg_class`.
pub record ClassRow : Type 0 where
  pub relname : String
  pub relnamespace : ℕ
  pub is_relation : Bool

-- The scan's loop, over the rows of the schema.
unfoldable pub scan_for_table : List ClassRow → Bool
scan_for_table [] = false
scan_for_table (row ∷ rows) =
    if starts_with row.relname "ducklake_" && row.is_relation then true else scan_for_table rows

-- `IsInitialized`: the oid of the namespace "ducklake", if it exists, and the rows that the scan by
-- a namespace oid gives.
unfoldable pub is_initialized : (String → Option ℕ) → (ℕ → List ClassRow) → Bool
unfolding scan_for_table
is_initialized namespace_oid class_scan = elim (namespace_oid "ducklake") [
  | none ↦ false
  | some nspoid ↦ scan_for_table (class_scan nspoid)
]
