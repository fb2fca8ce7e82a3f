-- ===== src/Tests/TableAm.antt =====
-- Calls of the table access method, on a host that allocates above what is in use.
use pg_ducklake_next.Base.{
  ℕ, suc, ◌+◌, ◌*◌, ◌≤◌, ◌≡◌, ◌≢◌, refl, Bool, true, false, if◌then◌else◌, Option, none, some, List,
  [], ◌∷◌, map, length, All, All-map, arith,
}
use pg_ducklake_next.Base.Result.{Result, ok}
use pg_ducklake_next.TableAm.{
  Host, nothing, scan_analyze_next_block, Memory, scan_begin, scan_end, Call, slot_callbacks, scan,
  ddl, size_of, session,
}
use pg_ducklake_next.TableAm.Scans.{
  IsFresh, scan_at, begins_of, ends_of, total, Spares, session-scan_begin,
}

abbrev sum : List ℕ → ℕ
sum [] = 1
sum (a ∷ used) = a + sum used

abbrev host : Host
host = record {
  Relation = ℕ;
  Snapshot = ℕ;
  ScanKey = ℕ;
  ParallelTableScanDesc = ℕ;
  palloc = sum;
  table_block_parallelscan = λ c. ok nothing;
}

pos-sum : (used : List ℕ) → 1 ≤ sum used
pos-sum [] = omega arith
pos-sum (a ∷ used) = omega (arith, pos-sum used)

less-sum : (above : ℕ) (used : List ℕ) → All (λ a. a + 1 ≤ above + sum used) used
less-sum above [] = tt
less-sum above (a ∷ used) = (
  omega (arith, pos-sum used),
  All-map used (λ b le. omega (arith, le)) (less-sum (above + a) used),
)

host-IsFresh : IsFresh host
host-IsFresh used = All-map used (λ a le same. absurd (omega (arith, le, same))) (less-sum 0 used)

abbrev empty : Memory host
empty = record { scans = []; words = λ a. 5 }

-- An analysis of a table, and another scan that is ended.
abbrev calls : List (Call host)
calls =
    scan (scan_begin 9 1 0 [] none 0)
    ∷ slot_callbacks
    ∷ ddl scan_analyze_next_block
    ∷ scan (scan_end 2)
    ∷ size_of
    ∷ []

abbrev analysis : List (Call host)
analysis = scan (scan_begin 7 1 1 (4 ∷ []) none 3) ∷ calls

abbrev after : Memory host
after = record {
  scans =
      (
        1,
        record {
          rs_rd = 7;
          rs_snapshot = 1;
          rs_nkeys = 1;
          rs_key = none;
          rs_flags = 3;
          rs_parallel = none;
        },
      )
      ∷ [];
  words = λ a. 5;
}

analysis-goes_through : session host empty analysis ≡ ok after
unfolding session pg_ducklake_next.Base.Result.fold_result
analysis-goes_through = refl

session-scan_begin_example :
    (1 + total host (ends_of host) calls ≡ 0 + 1 + total host (begins_of host) calls)
    × (All (Spares host 1) calls
        → scan_at host 1 after.scans
          ≡ some (record {
            rs_rd = 7;
            rs_snapshot = 1;
            rs_nkeys = 1;
            rs_key = none;
            rs_flags = 3;
            rs_parallel = none;
          }))
session-scan_begin_example =
    session-scan_begin host host-IsFresh 7 1 1 (4 ∷ []) none 3 calls empty after
      analysis-goes_through
