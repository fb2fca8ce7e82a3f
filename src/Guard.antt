-- ===== src/Guard.antt =====
-- `__CPPFunctionGuard__` of include/pgducklake/utility/cpp_wrapper.hpp: every SQL-callable function
-- runs under it.
pub mod Safety
use text.Mathlib.Text.{starts_with}
use pg_ducklake_next.Base.{ℕ, String, ◌<>◌, Bool, true, false, not, ◌==◌, if◌then◌else◌}
use pg_ducklake_next.Backend.{
  Call, elog, warning, reset_exception_stack, Raised, pg_error, duckdb_exception, std_exception,
  other_exception, Outcome, returns, raises, History, Run, pure, raise, call, ask, ◌>>=◌, ◌>>◌,
}

-- `PG_exception_stack` as a number, and `ErrorData(what).Message()` of DuckDB.
pub record GuardEnv : Type 0 where
  pub exception_stack : History → ℕ
  pub error_data_message : String → String

module _ (G : GuardEnv) where
  open G use {exception_stack, error_data_message}

  -- The text for a `std::exception`.
  unfoldable pub std_message : String → String
  std_message msg = if starts_with msg "{" then error_data_message msg else msg

  -- What stands behind the `try` block, for a caught exception.
  unfoldable pub report : {A : Type 0} → String → ℕ → String → Run A
  report func_name pg_es_start error_message = do
    now ← ask exception_stack
    if pg_es_start == now then pure tt else (do
      call (
          elog warning
            "WARNING: Unexpected exception stack pointer. This is not expected, please report this.")
      call (reset_exception_stack pg_es_start))
    raise (pg_error "XX000" ("(PGDuckDB/" <> func_name <> ") " <> error_message))

  -- The `catch` clauses. An error of PostgreSQL jumps over the frame, and what is no
  -- `std::exception` is not caught.
  unfoldable pub catch_exceptions : {A : Type 0} → String → ℕ → Outcome A → Run A
  unfolding report std_message
  catch_exceptions func_name start (returns a) = pure a
  catch_exceptions func_name start (raises (pg_error code message)) = raise (pg_error code message)
  catch_exceptions func_name start (raises (duckdb_exception what)) =
      report func_name start (error_data_message what)
  catch_exceptions func_name start (raises (std_exception what)) =
      report func_name start (std_message what)
  catch_exceptions func_name start (raises other_exception) = raise other_exception

  unfoldable pub cpp_function_guard : {A : Type 0} → String → Run A → Run A
  unfolding catch_exceptions
  cpp_function_guard func_name func h =
      let (o, h') = func h in catch_exceptions func_name (exception_stack h) o h'

  -- The macro `InvokeCPPFunc`, for a function of this name.
  abbrev pub invoke_cpp_func : {A : Type 0} → String → Run A → Run A
  invoke_cpp_func func_name func = cpp_function_guard func_name func

  -- The macro `DECLARE_PG_FUNCTION`: the function of this name, for the body that follows.
  abbrev pub declare_pg_function : {A : Type 0} → String → Run A → Run A
  declare_pg_function func_name body = invoke_cpp_func (func_name <> "_cpp") body
