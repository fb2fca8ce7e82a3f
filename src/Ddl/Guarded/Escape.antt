-- ===== src/Ddl/Guarded/Escape.antt =====
-- The create trigger under its guard.
use mathlib.Core.List.{append-nil}
use pg_ducklake_next.Base.{ℕ, ◌==◌, String, Bool, inl, inr, Bool-cases}
use pg_ducklake_next.Backend.{
  pg_error, duckdb_exception, std_exception, other_exception, Raised, Outcome, returns, raises,
  History,
}
use pg_ducklake_next.Backend.Queries.{raw_queries-append}
use pg_ducklake_next.Guard.{GuardEnv, report, catch_exceptions, cpp_function_guard}
use pg_ducklake_next.Ddl.Query.{DdlEnv}
use pg_ducklake_next.Ddl.CreateTable.{NodeTag, create_table_trigger}
use pg_ducklake_next.Ddl.CreateTable.Contract.{
  Contract, after_select, create_table_trigger-Contract,
}
use pg_ducklake_next.Ddl.Guarded.{ducklake_create_table_trigger}

-- Neither an exception of DuckDB nor a standard one comes out.
abbrev pub IsContained : {A : Type 0} → Outcome A → Type 0
IsContained (returns a) = Unit
IsContained (raises (pg_error code message)) = Unit
IsContained (raises (duckdb_exception what)) = ⊥
IsContained (raises (std_exception what)) = ⊥
IsContained (raises other_exception) = Unit

module _ (G : GuardEnv) (D : DdlEnv) where
  -- The contract of the trigger's body, and no C++ exception that the guard knows.
  abbrev pub Safe : NodeTag → History → History → Outcome (Unit {0}) × History → Type 0
  Safe tree h k r = IsContained r.0 × Contract D tree h k r

  report-Safe :
      (tree : NodeTag) (h k : History) (r : Raised) (func_name : String) (start : ℕ)
      (message : String) (h' : History)
      → Contract D tree h k (raises r, h')
      → Safe tree h k (report G func_name start message h')
  unfolding report
  report-Safe tree h k r func_name start message h' c =
      elim (Bool-cases (start == G.exception_stack h')) [
        | inl same ↦ rw same (tt, c)
        | inr moved ↦ rw moved (
          tt,
          elim c [
            | inl q ↦ inl (simp (raw_queries-append, q, append-nil))
            | inr (created, q) ↦ inr (created, simp (raw_queries-append, q, append-nil))
          ],
        )
      ]

  catch_exceptions-Safe :
      (tree : NodeTag) (h k : History) (func_name : String) (start : ℕ) (o : Outcome (Unit {0}))
      (h' : History)
      → Contract D tree h k (o, h')
      → Safe tree h k (catch_exceptions G func_name start o h')
  unfolding catch_exceptions
  catch_exceptions-Safe tree h k func_name start (returns u) h' c = (tt, c)
  catch_exceptions-Safe tree h k func_name start (raises (pg_error code message)) h' c = (tt, c)
  catch_exceptions-Safe tree h k func_name start (raises (duckdb_exception what)) h' c =
      report-Safe tree h k (duckdb_exception what) func_name start _ h' c
  catch_exceptions-Safe tree h k func_name start (raises (std_exception what)) h' c =
      report-Safe tree h k (std_exception what) func_name start _ h' c
  catch_exceptions-Safe tree h k func_name start (raises other_exception) h' c = (tt, c)

  -- The SQL function `ducklake_create_table_trigger` lets no exception of DuckDB and no standard
  -- one out, and under its guard still returns only if no DuckLake table was created, or if one
  -- was, not temporary and by CREATE TABLE or CREATE TABLE AS; it hands DuckDB nothing in the first
  -- case and the DDL of that table in the second, with SPI and GUC levels as deep as before, and if
  -- it raises an error nothing or the DDL of such a table.
  pub ducklake_create_table_trigger-Safe :
      (called : Bool) (tree : NodeTag) (skip : Bool) (h : History)
      → Safe tree h (after_select D h) (ducklake_create_table_trigger G D called tree skip h)
  unfolding ducklake_create_table_trigger cpp_function_guard
  ducklake_create_table_trigger-Safe called tree skip h =
      let r = create_table_trigger D called tree skip h in
      catch_exceptions-Safe tree h (after_select D h) "ducklake_create_table_trigger_cpp"
        (G.exception_stack h) r.0 r.1 (create_table_trigger-Contract D called tree skip h)
