-- ===== src/TableAm.antt =====
-- The callbacks of the table access method `pgducklake` (src/pgducklake_table_am.cpp). The `#if`
-- branches for PostgreSQL's versions differ in parameters that are not named, in the name of one
-- callback that does nothing, and in `scan_bitmap_next_block`, which versions from 18 on do not
-- have.
pub mod Scans
pub mod Estimate
use pg_ducklake_next.Base.{
  ℕ, ◌≡◌, String, ◌<>◌, Bool, true, false, Option, none, some, List, [], ◌∷◌, map, ◌==◌,
  if◌then◌else◌, Any,
}
use pg_ducklake_next.Base.Result.{Result, ok, err, ◌>>=◌, fold_result}

-- What a callback raises: `ereport(ERROR, ...)` with ERRCODE_FEATURE_NOT_SUPPORTED, or PostgreSQL's
-- own error for a `pfree` of what was not allocated.
pub data Error : Type 0 where
  feature_not_supported : String → Error
  invalid_pointer : ℕ → Error

-- The macro `NOT_IMPLEMENTED()` in a function of that name.
unfoldable pub not_implemented : {A : Type 0} → String → Result Error A
not_implemented func = err (feature_not_supported ("ducklake does not implement " <> func))

-- The members of the method table that are PostgreSQL's own helpers.
pub data ParallelCall : Type 0 where
  parallelscan_estimate parallelscan_initialize parallelscan_reinitialize : ParallelCall

-- What a callback returns.
pub data Answer : Type 0 where
  nothing : Answer
  minimal_tuple_slots : Answer
  scan_desc : ℕ → Answer
  truth : Bool → Answer
  size : ℕ → Answer

-- PostgreSQL's types that a scan is begun with, the address that `palloc` returns where those of
-- the list are in use, and the helpers `table_block_parallelscan_*`.
pub record Host : Type 1 where
  pub Relation : Type 0
  pub Snapshot : Type 0
  pub ScanKey : Type 0
  pub ParallelTableScanDesc : Type 0
  pub palloc : List ℕ → ℕ
  pub table_block_parallelscan : ParallelCall → Result Error Answer

-- The calls, in the sections of the file, with the parameters that the functions name.
pub data IndexFetchCall : Type 0 where
  index_fetch_begin index_fetch_reset index_fetch_end index_fetch_tuple : IndexFetchCall

pub data RowCall : Type 0 where
  fetch_row_version get_latest_tid tuple_tid_valid tuple_satisfies_snapshot index_delete_tuples :
      RowCall

pub data ModifyCall : Type 0 where
  tuple_insert tuple_insert_speculative tuple_complete_speculative multi_insert tuple_delete
        tuple_update :
      ModifyCall
  tuple_lock finish_bulk_insert : ModifyCall

pub data DdlCall : Type 0 where
  relation_set_new_filelocator relation_nontransactional_truncate copy_data copy_for_cluster
        vacuum :
      DdlCall
  scan_analyze_next_block scan_analyze_next_tuple index_build_range_scan index_validate_scan :
      DdlCall

pub data ExecutorCall : Type 0 where
  scan_bitmap_next_block scan_bitmap_next_tuple scan_sample_next_block scan_sample_next_tuple :
      ExecutorCall

-- The pointers that `relation_estimate_size` gets, any of which may be null.
pub record Estimates : Type 0 where
  pub attr_widths : Option ℕ
  pub pages : Option ℕ
  pub tuples : Option ℕ
  pub allvisfrac : Option ℕ

unfoldable pub run_index_fetch : IndexFetchCall → Result Error Answer
unfolding not_implemented
run_index_fetch index_fetch_begin = not_implemented "duckdb_index_fetch_begin"
run_index_fetch index_fetch_reset = not_implemented "duckdb_index_fetch_reset"
run_index_fetch index_fetch_end = not_implemented "duckdb_index_fetch_end"
run_index_fetch index_fetch_tuple = not_implemented "duckdb_index_fetch_tuple"

unfoldable pub run_row : RowCall → Result Error Answer
unfolding not_implemented
run_row fetch_row_version = not_implemented "duckdb_fetch_row_version"
run_row get_latest_tid = not_implemented "duckdb_get_latest_tid"
run_row tuple_tid_valid = not_implemented "duckdb_tuple_tid_valid"
run_row tuple_satisfies_snapshot = not_implemented "duckdb_tuple_satisfies_snapshot"
run_row index_delete_tuples = not_implemented "duckdb_index_delete_tuples"

unfoldable pub run_modify : ModifyCall → Result Error Answer
unfolding not_implemented
run_modify tuple_insert = not_implemented "duckdb_tuple_insert"
run_modify tuple_insert_speculative = not_implemented "duckdb_tuple_insert_speculative"
run_modify tuple_complete_speculative = not_implemented "duckdb_tuple_complete_speculative"
run_modify multi_insert = not_implemented "duckdb_multi_insert"
run_modify tuple_delete = not_implemented "duckdb_tuple_delete"
run_modify tuple_update = not_implemented "duckdb_tuple_update"
run_modify tuple_lock = not_implemented "duckdb_tuple_lock"
run_modify finish_bulk_insert = not_implemented "duckdb_finish_bulk_insert"

unfoldable pub run_ddl : DdlCall → Result Error Answer
unfolding not_implemented
run_ddl relation_set_new_filelocator = ok nothing
run_ddl relation_nontransactional_truncate = ok nothing
run_ddl copy_data = not_implemented "duckdb_copy_data"
run_ddl copy_for_cluster = not_implemented "duckdb_copy_for_cluster"
run_ddl vacuum = not_implemented "duckdb_vacuum"
run_ddl scan_analyze_next_block = ok (truth false)
run_ddl scan_analyze_next_tuple = not_implemented "duckdb_scan_analyze_next_tuple"
run_ddl index_build_range_scan = not_implemented "duckdb_index_build_range_scan"
run_ddl index_validate_scan = not_implemented "duckdb_index_validate_scan"

unfoldable pub relation_size : ℕ
relation_size = 0

unfoldable pub relation_needs_toast_table : Bool
relation_needs_toast_table = false

-- `if (p) *p = 0`
unfoldable pub set_zero : Option ℕ → (ℕ → ℕ) → ℕ → ℕ
set_zero none words = words
set_zero (some p) words = λ a. if a == p then 0 else words a

unfoldable pub estimate_rel_size : Estimates → (ℕ → ℕ) → ℕ → ℕ
unfolding set_zero
estimate_rel_size e words =
    set_zero e.allvisfrac (set_zero e.tuples (set_zero e.pages (set_zero e.attr_widths words)))

unfoldable pub run_executor : ExecutorCall → Result Error Answer
unfolding not_implemented
run_executor scan_bitmap_next_block = not_implemented "duckdb_scan_bitmap_next_block"
run_executor scan_bitmap_next_tuple = not_implemented "duckdb_scan_bitmap_next_tuple"
run_executor scan_sample_next_block = not_implemented "duckdb_scan_sample_next_block"
run_executor scan_sample_next_tuple = not_implemented "duckdb_scan_sample_next_tuple"

module _ (H : Host) where
  -- `DuckdbScanDescData`: the fields that `scan_begin` sets, and the keys, which are none where
  -- `rs_key` has not been written since `palloc`.
  pub record ScanDesc : Type 0 where
    pub rs_rd : H.Relation
    pub rs_snapshot : H.Snapshot
    pub rs_nkeys : ℕ
    pub rs_key : Option (List H.ScanKey)
    pub rs_flags : ℕ
    pub rs_parallel : Option H.ParallelTableScanDesc

  -- The scan descriptors that are allocated, by address, and the numbers that pointers lead to.
  pub record Memory : Type 0 where
    pub scans : List (ℕ × ScanDesc)
    pub words : ℕ → ℕ

  pub data ScanCall : Type 0 where
    scan_begin :
        H.Relation → H.Snapshot → ℕ → List H.ScanKey → Option H.ParallelTableScanDesc → ℕ → ScanCall
    scan_end : ℕ → ScanCall
    scan_rescan scan_getnextslot : ScanCall

  -- A call of a member of `ducklake_methods`; those that are NULL are not called.
  pub data Call : Type 0 where
    slot_callbacks : Call
    scan : ScanCall → Call
    index_fetch : IndexFetchCall → Call
    row : RowCall → Call
    modify : ModifyCall → Call
    ddl : DdlCall → Call
    size_of relation_needs_toast : Call
    estimate_size : Estimates → Call
    executor : ExecutorCall → Call
    parallel : ParallelCall → Call

  -- What `pfree` leaves of the descriptors, and its error for a pointer that is not allocated.
  unfoldable pub pfree : ℕ → List (ℕ × ScanDesc) → Result Error (List (ℕ × ScanDesc))
  pfree p [] = err (invalid_pointer p)
  pfree p ((a, d) ∷ scans) =
      let rest = pfree p scans in if a == p then ok scans else (rest >>= λ l. ok ((a, d) ∷ l))

  unfoldable pub run_scan : ScanCall → Memory → Result Error (Answer × Memory)
  unfolding not_implemented pfree
  run_scan (scan_begin relation snapshot nkeys key parallel_scan flags) m =
      let scan = H.palloc (map (λ s. s.0) m.scans) in
      ok (
        scan_desc scan,
        record m {
          scans =
              (
                scan,
                record {
                  rs_rd = relation;
                  rs_snapshot = snapshot;
                  rs_nkeys = nkeys;
                  rs_key = none;
                  rs_flags = flags;
                  rs_parallel = parallel_scan;
                },
              )
              ∷ m.scans;
        },
      )
  run_scan (scan_end sscan) m =
      pfree sscan m.scans >>= λ scans. ok (nothing, record m { scans = scans })
  run_scan scan_rescan m = not_implemented "duckdb_scan_rescan"
  run_scan scan_getnextslot m = not_implemented "duckdb_scan_getnextslot"

  -- A call of the access method.
  unfoldable pub run : Call → Memory → Result Error (Answer × Memory)
  unfolding run_scan run_index_fetch run_row run_modify run_ddl run_executor estimate_rel_size
      relation_size relation_needs_toast_table
  run slot_callbacks m = ok (minimal_tuple_slots, m)
  run (scan c) m = run_scan c m
  run (index_fetch c) m = run_index_fetch c >>= λ a. ok (a, m)
  run (row c) m = run_row c >>= λ a. ok (a, m)
  run (modify c) m = run_modify c >>= λ a. ok (a, m)
  run (ddl c) m = run_ddl c >>= λ a. ok (a, m)
  run size_of m = ok (size relation_size, m)
  run relation_needs_toast m = ok (truth relation_needs_toast_table, m)
  run (estimate_size e) m = ok (nothing, record m { words = estimate_rel_size e m.words })
  run (executor c) m = run_executor c >>= λ a. ok (a, m)
  run (parallel c) m = H.table_block_parallelscan c >>= λ a. ok (a, m)

  -- The calls one after the other, until one raises.
  unfoldable pub session : Memory → List Call → Result Error Memory
  unfolding run
  session m calls = fold_result (λ m c. run c m >>= λ r. ok r.1) m calls
