-- ===== src/Ddl/Guarded.antt =====
-- The SQL functions of src/pgducklake_ddl.cpp as `DECLARE_PG_FUNCTION` of
-- include/pgducklake/utility/cpp_wrapper.hpp declares them: the bodies under the guard.
pub mod Escape
use pg_ducklake_next.Base.{ℕ, String, Bool, Option}
use pg_ducklake_next.Backend.{Run}
use pg_ducklake_next.Guard.{GuardEnv, cpp_function_guard, declare_pg_function}
use pg_ducklake_next.Ddl.Query.{DdlEnv, initialize}
use pg_ducklake_next.Ddl.CreateTable.{NodeTag, create_table_trigger}
use pg_ducklake_next.Ddl.DropTable.{drop_trigger}
use pg_ducklake_next.Ddl.Options.{OptionArgs, Names, set_option, cleanup_old_files}

module _ (G : GuardEnv) (D : DdlEnv) where
  unfoldable pub ducklake_initialize : Bool → Run (Unit {0})
  unfolding cpp_function_guard initialize
  ducklake_initialize creating_extension =
      declare_pg_function G "ducklake_initialize" (initialize D creating_extension)

  unfoldable pub ducklake_create_table_trigger : Bool → NodeTag → Bool → Run (Unit {0})
  unfolding cpp_function_guard create_table_trigger
  ducklake_create_table_trigger called parsetree ctas_skip_data =
      declare_pg_function G "ducklake_create_table_trigger"
        (create_table_trigger D called parsetree ctas_skip_data)

  unfoldable pub ducklake_drop_trigger : ℕ → Bool → Run Bool
  unfolding cpp_function_guard drop_trigger
  ducklake_drop_trigger fuel called =
      declare_pg_function G "ducklake_drop_trigger" (drop_trigger D fuel called)

  unfoldable pub ducklake_cleanup_old_files : Option String → Run ℕ
  unfolding cpp_function_guard cleanup_old_files
  ducklake_cleanup_old_files interval =
      declare_pg_function G "ducklake_cleanup_old_files" (cleanup_old_files interval)

  unfoldable pub ducklake_set_option : Names → OptionArgs → Run String
  unfolding cpp_function_guard set_option
  ducklake_set_option names args =
      declare_pg_function G "ducklake_set_option" (set_option names args)
