-- ===== src/Ddl/Nested/DropTable/Failures.antt =====
-- What the trigger of DROP TABLE leaves open, whatever the metadata queries do.
use mathlib.Core.List.{append-nil, append_assoc}
use Prim.Native.Nat.{pred}
use pg_ducklake_next.Base.{
  ℕ, zero, suc, ◌+◌, ◌≤◌, ◌==◌, ltb, ◌≡◌, refl, sym, ap, ◌∙◌, String, ◌<>◌, Bool, true, false,
  Option, List, [], ◌∷◌, ◌++◌, ◌⊎◌, inl, inr, map, length, Bool-cases, arith,
}
use pg_ducklake_next.Backend.{
  spi_connect, new_guc_nest_level, at_eoxact_guc, spi_finish, elog, debug1, returns, Outcome,
  History, raw_queries,
}
use pg_ducklake_next.Backend.Depth.{Depth, deeper, depth_of, depth-append}
use pg_ducklake_next.Backend.Queries.{raw_queries-append}
use pg_ducklake_next.Spi.Execution.{SpiBackend, ok_select}
use pg_ducklake_next.Ddl.Query.{exec_returns, DdlEnv}
use pg_ducklake_next.Ddl.CreateTable.{accept_select, exec_select}
use pg_ducklake_next.Ddl.DropTable.{
  drop_ddl, warn_if_failed, drop_row, drop_rows, end_spi, drop_selected, drop_trigger_with,
}
use pg_ducklake_next.Ddl.CreateTable.Contract.{opened}
use pg_ducklake_next.Ddl.DropTable.Rounds.{after_dropped, after_tables}
use pg_ducklake_next.Metadata.Sql.{Fillers}
use pg_ducklake_next.Ddl.Nested.{DuckDbRun}
use pg_ducklake_next.Ddl.Nested.Leaks.{execute_through-cases}
use pg_ducklake_next.Ddl.Nested.CreateTable.{execute_through-raw_queries}
use pg_ducklake_next.Ddl.Nested.DropTable.{execute}

-- So many of each more.
abbrev pub levels : ℕ → Depth → Depth
levels n d = record {
  spi = n + d.spi;
  snapshots = n + d.snapshots;
  gucs = n + d.gucs;
  stacks = n + d.stacks;
}

add-suc : (n k : ℕ) → n + suc k ≡ suc n + k
add-suc n k = omega arith

levels-deeper : (n : ℕ) (d : Depth) → levels n (deeper d) ≡ levels (suc n) d
levels-deeper n d =
    rw (add-suc n d.spi, add-suc n d.snapshots, add-suc n d.gucs, add-suc n d.stacks) refl

-- What the loop does: some tables' drops are handed to DuckDB, and at most one level for each of
-- them is left open.
record Handed (h h' : History) : Type 0 where
  pub rows : List (String × String)
  pub failed : ℕ
  pub IsAtMost : failed ≤ length rows
  pub queries : raw_queries h' ≡ raw_queries h ++ map drop_ddl rows
  pub depth : depth_of h' ≡ levels failed (depth_of h)

-- The same of the whole trigger. Its `AtEOXact_GUC` ends the GUC levels that were left open with
-- its own, so these are not counted.
pub record HandedAll (h h' : History) : Type 0 where
  pub rows : List (String × String)
  pub failed : ℕ
  pub IsAtMost : failed ≤ length rows
  pub queries : raw_queries h' ≡ raw_queries h ++ map drop_ddl rows
  pub spi : (depth_of h').spi ≡ failed + (depth_of h).spi
  pub snapshots : (depth_of h').snapshots ≡ failed + (depth_of h).snapshots
  pub stacks : (depth_of h').stacks ≡ failed + (depth_of h).stacks

add-zero : (k : ℕ) → 0 + k ≡ k
add-zero k = omega arith

levels-zero : (d : Depth) → levels 0 d ≡ d
levels-zero d = rw (add-zero d.spi, add-zero d.snapshots, add-zero d.gucs, add-zero d.stacks) refl

add-suc_out : (n k : ℕ) → n + suc k ≡ suc (n + k)
add-suc_out n k = omega arith

pred-add : (n k : ℕ) → pred (n + suc k) ≡ n + k
pred-add n k = ap pred (add-suc_out n k)

none-Handed : (h : History) → Handed h h
none-Handed h = record {
  rows = [];
  failed = 0;
  IsAtMost = omega arith;
  queries = sym (append-nil (raw_queries h));
  depth = sym (levels-zero (depth_of h));
}

-- One drop is handed to DuckDB, and at most one level is left open.
abbrev HandedOne : History → History → String → Type 0
HandedOne h h' ddl =
    (raw_queries h' ≡ raw_queries h ++ ddl ∷ [])
    × ((depth_of h' ≡ depth_of h) ⊎ (depth_of h' ≡ deeper (depth_of h)))

module _ (F : Fillers) (S : SpiBackend) (D : DdlEnv) (Q : DuckDbRun F) where
  warn_if_failed-HandedOne :
      (row : String × String) (ddl : String) (result : ℕ × Option String) (h k : History)
      → HandedOne h k ddl
      → (h' : History) × (warn_if_failed D row result k ≡ (returns tt, h')) × HandedOne h h' ddl
  unfolding warn_if_failed
  warn_if_failed-HandedOne row ddl (zero, message) h k e = (k, refl, e)
  warn_if_failed-HandedOne (schema_name, table_name) ddl (suc n, message) h k (e, inl same) =
      (_, refl, (simp (raw_queries-append, e, append-nil), inl (simp (depth-append, same))))
  warn_if_failed-HandedOne (schema_name, table_name) ddl (suc n, message) h k (e, inr deep) =
      (_, refl, (simp (raw_queries-append, e, append-nil), inr (simp (depth-append, deep))))

  execute-HandedOne :
      (ddl : String) (h : History)
      → (r : ℕ × Option String) × (h' : History) × (execute F S D Q ddl h ≡ (returns r, h'))
        × HandedOne h h' ddl
  execute-HandedOne ddl h =
      let queries_of = λ (x : Outcome (ℕ × Option String) × History). raw_queries x.1 in
      let handed = execute_through-raw_queries F S Q ddl h in
      elim (execute_through-cases F S Q ddl h) [
        | inl d ↦ (_, d.after, d.run, (ap queries_of (sym d.run) ∙ handed, inl d.all.depth))
        | inr (inl r) ↦ (_, r.after, r.run, (ap queries_of (sym r.run) ∙ handed, inl r.all.depth))
        | inr (inr b) ↦ (_, b.after, b.run, (ap queries_of (sym b.run) ∙ handed, inr b.one.depth))
      ]

  log-HandedOne :
      (h h' : History) (ddl m : String)
      → HandedOne (h ++ elog debug1 m ∷ []) h' ddl
      → HandedOne h h' ddl
  log-HandedOne h h' ddl m (e, inl same) =
      (e ∙ simp (raw_queries-append, append-nil), inl (same ∙ simp depth-append))
  log-HandedOne h h' ddl m (e, inr deep) =
      (e ∙ simp (raw_queries-append, append-nil), inr (deep ∙ simp depth-append))

  drop_row-HandedOne :
      (row : String × String) (h : History)
      → (h' : History) × (drop_row D (execute F S D Q) row h ≡ (returns tt, h'))
        × HandedOne h h' (drop_ddl row)
  unfolding drop_row
  drop_row-HandedOne row h =
      let m = "Dropping DuckLake table: " <> drop_ddl row in
      let (r, k, run, one) = execute-HandedOne (drop_ddl row) (h ++ elog debug1 m ∷ []) in
      let (h', warned, w) =
        warn_if_failed-HandedOne row (drop_ddl row) r h k
          (log-HandedOne h k (drop_ddl row) m one) in
      (h', rw run warned, w)

  -- One more drop, before the others.
  Handed-later :
      (row : String × String) (h k h' : History)
      → HandedOne h k (drop_ddl row)
      → Handed k h'
      → Handed h h'
  Handed-later row h k h' (e, inl same) d = record {
    rows = row ∷ d.rows;
    failed = d.failed;
    IsAtMost = (let le = d.IsAtMost in omega arith);
    queries = d.queries ∙ rw e (append_assoc (raw_queries h) _ _);
    depth = d.depth ∙ ap (levels d.failed) same;
  }
  Handed-later row h k h' (e, inr deep) d = record {
    rows = row ∷ d.rows;
    failed = suc d.failed;
    IsAtMost = (let le = d.IsAtMost in omega arith);
    queries = d.queries ∙ rw e (append_assoc (raw_queries h) _ _);
    depth = d.depth ∙ ap (levels d.failed) deep ∙ levels-deeper d.failed (depth_of h);
  }

  drop_rows-Handed :
      (fuel proc : ℕ) (h : History)
      → (b : Bool) × (h' : History) × (drop_rows D (execute F S D Q) fuel proc h ≡ (returns b, h'))
        × Handed h h'
  unfolding drop_rows
  drop_rows-Handed zero proc h = (false, h, refl, none-Handed h)
  drop_rows-Handed (suc fuel) proc h =
      let row = D.dropped_row h proc in
      let (k, dropped, one) = drop_row-HandedOne row h in
      let (b, h', ends, d) = drop_rows-Handed fuel (suc proc) k in
      elim (Bool-cases (ltb proc (D.spi_processed h))) [
        | inl more ↦ (b, h', rw (more, dropped) ends, Handed-later row h k h' one d)
        | inr done ↦ (true, h, rw done refl, none-Handed h)
      ]

  -- The end of the trigger's own SPI connection and GUC level.
  Handed-closed :
      (h a k : History) (level : ℕ)
      → depth_of a ≡ opened (depth_of h)
      → raw_queries a ≡ raw_queries h
      → Handed a k
      → HandedAll h ((k ++ at_eoxact_guc level ∷ []) ++ spi_finish ∷ [])
  Handed-closed h a k level deep same d = record {
    rows = d.rows;
    failed = d.failed;
    IsAtMost = d.IsAtMost;
    queries = simp (raw_queries-append, d.queries, same, append-nil);
    spi = simp (depth-append, d.depth, deep, pred-add);
    snapshots = simp (depth-append, d.depth, deep);
    stacks = simp (depth-append, d.depth, deep);
  }

  -- Fired by the event trigger manager, where both queries of the trigger succeed, the trigger
  -- raises no error, whatever the metadata queries of the drops do, whether or not DuckDB ends the
  -- drops by errors of its own, and however many rounds its loop makes. It has handed DuckDB the
  -- drops of some tables, and SPI connections, snapshots and stack bases are deeper than before by
  -- the same number of levels, at most one for each of these tables.
  pub drop_trigger_with-execute_through-HandedAll :
      (fuel : ℕ) (h : History)
      → D.exec_answer (after_dropped D h) ≡ exec_returns ok_select
      → D.exec_answer (after_tables D h) ≡ exec_returns ok_select
      → (b : Bool) × (h' : History) × (drop_trigger_with D (execute F S D Q) fuel true h
          ≡ (returns b, h'))
        × HandedAll h h'
  unfolding drop_trigger_with drop_selected exec_select accept_select end_spi
  drop_trigger_with-execute_through-HandedAll fuel h first second =
      let level = D.guc_level ((h ++ spi_connect ∷ []) ++ new_guc_nest_level ∷ []) in
      let a = after_tables D h in
      let (b, k, ends, d) = drop_rows-Handed fuel 0 a in
      elim (Bool-cases (D.spi_processed (after_dropped D h) == 0)) [
        | inl none_dropped ↦ (
          true,
          _,
          rw (first, none_dropped) refl,
          Handed-closed h (after_dropped D h) (after_dropped D h) level (simp depth-append)
              (simp (raw_queries-append, append-nil)) (none-Handed (after_dropped D h)),
        )
        | inr dropped ↦ (
          b,
          _,
          rw (first, dropped, second, ends) refl,
          Handed-closed h a k level (simp depth-append) (simp (raw_queries-append, append-nil)) d,
        )
      ]
