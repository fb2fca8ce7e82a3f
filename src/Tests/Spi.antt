-- ===== src/Tests/Spi.antt =====
-- Runs of the SPI code and of the guard.
use pg_ducklake_next.Base.{ℕ, ◌+◌, String, ◌<>◌, some, [], ◌∷◌, length, arith}
use pg_ducklake_next.Backend.{std_exception, Run, raise}
use pg_ducklake_next.Backend.Depth.{depth_of}
use pg_ducklake_next.Spi.Chunks.{TupleAccess, chunks_of}
use pg_ducklake_next.Spi.Chunks.Rows.{Splits, chunks_of-batches}
use pg_ducklake_next.Spi.Execution.{SpiBackend, spi_returns, ok_select, create_spi_result}
use pg_ducklake_next.Spi.Execution.Balance.{
  Leaves, EndsSynced, create_spi_result-Leaves, create_spi_result-EndsSynced,
}
use pg_ducklake_next.Guard.{GuardEnv, cpp_function_guard}
use pg_ducklake_next.Guard.Safety.{Guards, cpp_function_guard-Guards}

-- A tuple is a number; its cell in a column is the number plus the column's index.
abbrev pub tuple_access : TupleAccess
tuple_access = record {
  Attribute = String;
  Tuple = ℕ;
  Datum = ℕ;
  V = ℕ;
  get_binval = λ tuple column. some (tuple + column);
  convert = λ attr datum. datum;
}

chunks_of-batches_example :
    Splits tuple_access
      ("a" ∷ "b" ∷ [])
      (5 ∷ 6 ∷ [])
      (chunks_of tuple_access ("a" ∷ "b" ∷ []) (5 ∷ 6 ∷ []))
chunks_of-batches_example =
    chunks_of-batches tuple_access ("a" ∷ "b" ∷ []) (5 ∷ 6 ∷ []) (omega arith)

abbrev pub backend : SpiBackend
backend = record {
  tuples = tuple_access;
  LogicalType = String;
  guc_level = λ h. 2;
  spi_answer = λ h. spi_returns ok_select (some ("a" ∷ [], 5 ∷ 6 ∷ []));
  current_command_id = λ h. 7;
  attribute_name = λ attr. attr;
  column_type = λ attr. "INTEGER";
}

create_spi_result-Leaves_example :
    Leaves backend (depth_of []) (create_spi_result backend "SELECT a FROM t" [])
create_spi_result-Leaves_example = create_spi_result-Leaves backend "SELECT a FROM t" []

create_spi_result-EndsSynced_example :
    EndsSynced backend "SELECT a FROM t" (create_spi_result backend "SELECT a FROM t" [])
create_spi_result-EndsSynced_example = create_spi_result-EndsSynced backend "SELECT a FROM t" []

abbrev guard_env : GuardEnv
guard_env = record {
  exception_stack = λ h. length h;
  error_data_message = λ what. "message of " <> what;
}

abbrev throwing : Run ℕ
throwing = raise (std_exception "{out of range}")

cpp_function_guard-Guards_example :
    Guards guard_env "f" 0 (throwing []) (cpp_function_guard guard_env "f" throwing [])
cpp_function_guard-Guards_example = cpp_function_guard-Guards guard_env "f" throwing []
