-- ===== src/Ddl/Options.antt =====
-- `ducklake_set_option` and `ducklake_cleanup_old_files` of src/pgducklake_ddl.cpp. In both
-- the source has commented the call of DuckDB out.
pub mod Silent
use pg_ducklake_next.Base.{ℕ, String, ◌<>◌, Bool, true, false, if◌then◌else◌, Option, none, some}
use pg_ducklake_next.Backend.{
  elog, debug2, info, pg_error, Run, pure, raise, call, ask, ◌>>=◌, ◌>>◌, require,
}
use pg_ducklake_next.Ddl.Query.{not_null}

-- The oid of the value's type.
pub data ValueType : Type 0 where
  bool_oid int2_oid int4_oid int8_oid float4_oid float8_oid numeric_oid : ValueType
  other_oid : ℕ → ValueType

-- The arguments: the option's name, the value's type with the text of the value, the scope.
pub record OptionArgs : Type 0 where
  pub option_name : Option String
  pub value_type : ValueType
  pub value : Option String
  pub scope : Option ℕ

-- `pg_strcasecmp(a, b) == 0`, `KeywordHelper::WriteQuoted`, `get_rel_name` and `get_namespace_name`
-- of the relation's namespace.
pub record Names : Type 0 where
  pub same_ignoring_case : String → String → Bool
  pub write_quoted : String → String
  pub get_rel_name : ℕ → Option String
  pub get_namespace_name : ℕ → Option String

module _ (N : Names) where
  open N use {same_ignoring_case, write_quoted, get_rel_name, get_namespace_name}

  -- The `switch` on the type.
  unfoldable pub value_text : ValueType → String → String
  value_text (other_oid oid) val_str = write_quoted val_str
  value_text bool_oid val_str = val_str
  value_text int2_oid val_str = val_str
  value_text int4_oid val_str = val_str
  value_text int8_oid val_str = val_str
  value_text float4_oid val_str = val_str
  value_text float8_oid val_str = val_str
  value_text numeric_oid val_str = val_str

  unfoldable pub value_str : ValueType → Option String → String
  unfolding value_text
  value_str value_type none = "NULL"
  value_str value_type (some val_str) = value_text value_type val_str

  -- The optional scope, added to the query.
  unfoldable pub add_scope : String → Option ℕ → Run String
  unfolding not_null
  add_scope query none = pure query
  add_scope query (some relid) = do
    table_name ← not_null (get_rel_name relid) "Could not find relation"
    schema_name ← not_null (get_namespace_name relid) "Could not find namespace for relation"
    pure (
        query
        <> (", table_name => " <> write_quoted table_name)
        <> (", schema => " <> write_quoted schema_name))

  -- The result is the query: it is logged and not run.
  unfoldable pub set_option : OptionArgs → Run String
  unfolding value_str add_scope not_null
  set_option args = do
    option_name ← not_null args.option_name "Option name cannot be NULL"
    require (same_ignoring_case option_name "data_inlining_row_limit")
        (pg_error "22023" ("invalid option name \"" <> option_name <> "\""))
    scoped_query ←
        add_scope
          ("CALL pgducklake.set_option("
            <> write_quoted option_name
            <> ", "
            <> value_str args.value_type args.value)
          args.scope
    call (elog debug2 ("[PGDuckDB] Executing set_option: " <> (scoped_query <> ")")))
    pure (scoped_query <> ")")

-- `ducklake_cleanup_old_files`, with the text of the interval, if one is given.
unfoldable pub cleanup_old_files : Option String → Run ℕ
cleanup_old_files none = do call (elog info "Cleaning up all scheduled files"); pure 0
cleanup_old_files (some interval_str) = pure 0
