-- ===== src/Ddl/CreateTable/Contract.antt =====
-- What `ducklake_create_table_trigger` does, on every path.
use mathlib.Core.List.{append-nil}
use pg_ducklake_next.Base.{
  ℕ, zero, suc, ◌==◌, ltb, ==_iff, ◌≡◌, refl, ◌∙◌, ap, String, ◌<>◌, Bool, true, false, ◌⊎◌, inl,
  inr, Option, some, [], ◌∷◌, ◌++◌, Bool-cases, Option-cases, arith,
}
use pg_ducklake_next.Backend.{
  spi_connect, spi_finish, spi_exec, at_eoxact_guc, elog, debug1, new_guc_nest_level,
  set_config_option, pg_error, Outcome, returns, raises, Raised, History, Run, continue,
  raw_queries,
}
use pg_ducklake_next.Backend.Depth.{Depth, depth_of, depth-append}
use pg_ducklake_next.Backend.Queries.{raw_queries-append}
use pg_ducklake_next.Spi.Execution.{
  ok_utility, ok_select, ok_selinto, ok_insert, ok_insert_returning, ok_delete, ok_delete_returning,
  ok_update, ok_update_returning, ok_other,
}
use pg_ducklake_next.Ddl.Query.{
  ExecAnswer, exec_raises, exec_returns, DdlEnv, not_null, execute_duckdb_query,
}
use pg_ducklake_next.Ddl.Query.Executes.{Executes, execute_duckdb_query-Executes}
use pg_ducklake_next.Ddl.CreateTable.{
  created_tables_query, NodeTag, create_stmt, create_table_as_stmt, other_stmt, may_create_table,
  is_create_table_as, accept_select, exec_select, outcome_of_call, check_created, finish_create,
  create_in_duckdb, create_selected, create_table_trigger_with, create_table_trigger,
}

Outcome-cases :
    {A : Type 0} → (o : Outcome A) → ((a : A) × (o ≡ returns a)) ⊎ ((r : Raised) × (o ≡ raises r))
Outcome-cases (returns a) = inl (a, refl)
Outcome-cases (raises r) = inr (r, refl)

-- One more SPI connection and GUC level.
abbrev pub opened : Depth → Depth
opened d = record d { spi = suc d.spi; gucs = suc d.gucs }

module _ (D : DdlEnv) where
  -- The table that a trigger call creates in DuckDB, with its row and its DDL.
  pub record Created (tree : NodeTag) (k : History) : Type 0 where
    pub relid : ℕ
    pub ddl : String
    pub IsAllowed : may_create_table tree ≡ true
    pub IsSingle : D.spi_processed k ≡ 1
    pub IsPersistent : D.created_row k 0 ≡ (some relid, some false)
    pub IsTabledef : D.get_tabledef relid ≡ returns ddl

  abbrev pub Contract : NodeTag → History → History → Outcome (Unit {0}) × History → Type 0
  Contract tree h k (returns u, h') =
      (depth_of h' ≡ depth_of h)
      × ((D.spi_processed k ≡ 0) × (raw_queries h' ≡ raw_queries h)
          ⊎ (c : Created tree k) × (raw_queries h' ≡ raw_queries h ++ c.ddl ∷ []))
  Contract tree h k (raises r, h') =
      (raw_queries h' ≡ raw_queries h)
      ⊎ ((c : Created tree k) × (raw_queries h' ≡ raw_queries h ++ c.ddl ∷ []))

  finish_create-Contract :
      (tree : NodeTag) (skip : Bool) (h k : History) (c : Created tree k) (k' : History)
      (x : Outcome (ℕ × Option String) × History)
      → depth_of k' ≡ depth_of h
      → raw_queries k' ≡ raw_queries h
      → Executes c.ddl k' x
      → Contract tree h k (continue x.0 (finish_create D tree skip) x.1)
  unfolding finish_create check_created is_create_table_as
  finish_create-Contract create_stmt skip h k c k' (returns (zero, m), h') depth queries e =
      (e.0 ∙ depth, inr (c, e.1 ∙ ap (λ qs. qs ++ c.ddl ∷ []) queries))
  finish_create-Contract create_table_as_stmt true h k c k' (returns (zero, m), h') depth queries
        e =
      (e.0 ∙ depth, inr (c, e.1 ∙ ap (λ qs. qs ++ c.ddl ∷ []) queries))
  finish_create-Contract create_table_as_stmt false h k c k' (returns (zero, m), h') depth queries
        e =
      (
        simp (depth-append, e.0, depth),
        inr (c, simp (raw_queries-append, e.1, queries, append-nil)),
      )
  finish_create-Contract other_stmt skip h k c k' (returns (zero, m), h') depth queries e =
      (e.0 ∙ depth, inr (c, e.1 ∙ ap (λ qs. qs ++ c.ddl ∷ []) queries))
  finish_create-Contract tree skip h k c k' (returns (suc n, m), h') depth queries e =
      inr (c, e ∙ ap (λ qs. qs ++ c.ddl ∷ []) queries)
  finish_create-Contract tree skip h k c k' (raises r, h') depth queries e = absurd e

  created_row-eq :
      (k : History) (relid : Option ℕ) (is_temporary : Option Bool)
      → (D.created_row k 0).0 ≡ relid
      → (D.created_row k 0).1 ≡ is_temporary
      → D.created_row k 0 ≡ (relid, is_temporary)
  created_row-eq k relid is_temporary e f =
      ap (λ r. (r, (D.created_row k 0).1)) e ∙ ap (λ t. (relid, t)) f

  -- The calls until `SPI_exec` returned.
  abbrev pub after_select : History → History
  after_select h =
      ((((h ++ spi_connect ∷ []) ++ new_guc_nest_level ∷ [])
          ++ set_config_option "search_path" "pg_catalog, pg_temp" ∷ [])
        ++ set_config_option "duckdb.force_execution" "false" ∷ [])
      ++ spi_exec created_tables_query ∷ []

  accept_select-cases :
      (answer : ExecAnswer) (k : History)
      → (accept_select D answer k ≡ (returns tt, k))
        ⊎ ((r : Raised) × (accept_select D answer k ≡ (raises r, k)))
  unfolding accept_select
  accept_select-cases (exec_raises code message) k = inr (pg_error code message, refl)
  accept_select-cases (exec_returns ok_select) k = inl refl
  accept_select-cases (exec_returns ok_utility) k = inr (_, refl)
  accept_select-cases (exec_returns ok_selinto) k = inr (_, refl)
  accept_select-cases (exec_returns ok_insert) k = inr (_, refl)
  accept_select-cases (exec_returns ok_insert_returning) k = inr (_, refl)
  accept_select-cases (exec_returns ok_delete) k = inr (_, refl)
  accept_select-cases (exec_returns ok_delete_returning) k = inr (_, refl)
  accept_select-cases (exec_returns ok_update) k = inr (_, refl)
  accept_select-cases (exec_returns ok_update_returning) k = inr (_, refl)
  accept_select-cases (exec_returns (ok_other code)) k = inr (_, refl)

  module _ (execute : String → Run (ℕ × Option String))
      (executes : (query : String) (h : History) → Executes query h (execute query h)) where
    create_in_duckdb-Contract :
        (tree : NodeTag) (skip : Bool) (level relid : ℕ) (h k : History)
        → may_create_table tree ≡ true
        → D.spi_processed k ≡ 1
        → D.created_row k 0 ≡ (some relid, some false)
        → depth_of k ≡ opened (depth_of h)
        → raw_queries k ≡ raw_queries h
        → Contract tree h k (create_in_duckdb D execute tree skip level relid k)
    unfolding create_in_duckdb outcome_of_call
    create_in_duckdb-Contract tree skip level relid h k allowed single row depth queries =
        elim (Outcome-cases (D.get_tabledef relid)) [
          | inl (ddl, e) ↦
              let k' =
                ((k ++ at_eoxact_guc level ∷ []) ++ spi_finish ∷ [])
                ++ elog debug1 ("Creating DuckLake table: " <> ddl) ∷ [] in
              rw e (
                finish_create-Contract tree skip h k
                  (record {
                    relid = relid;
                    ddl = ddl;
                    IsAllowed = allowed;
                    IsSingle = single;
                    IsPersistent = row;
                    IsTabledef = e;
                  })
                  k' (execute ddl k') (simp (depth-append, depth))
                  (simp (raw_queries-append, queries, append-nil)) (executes ddl k'))
          | inr (r, e) ↦ rw e (inl (simp (raw_queries-append, queries, append-nil)))
        ]

    create_selected-Contract :
        (tree : NodeTag) (skip : Bool) (level : ℕ) (h k : History)
        → depth_of k ≡ opened (depth_of h)
        → raw_queries k ≡ raw_queries h
        → Contract tree h k (create_selected D execute tree skip level k)
    unfolding create_selected not_null
    create_selected-Contract tree skip level h k depth queries =
        elim (Bool-cases (D.spi_processed k == 1)) [
          | inr many ↦ rw many (inl queries)
          | inl single ↦ elim (Bool-cases (may_create_table tree)) [
            | inr refused ↦ rw (single, refused) (inl queries)
            | inl allowed ↦ elim (Option-cases (D.created_row k 0).0) [
              | inl null ↦ rw (single, allowed, null) (inl queries)
              | inr (relid, got) ↦ elim (Option-cases (D.created_row k 0).1) [
                | inl null ↦ rw (single, allowed, got, null) (inl queries)
                | inr (true, temporary) ↦ rw (single, allowed, got, temporary) (inl queries)
                | inr (false, persistent) ↦
                    rw (single, allowed, got, persistent)
                      (create_in_duckdb-Contract tree skip level relid h k allowed
                        ((==_iff _ _).0 single) (created_row-eq k _ _ got persistent) depth queries)
              ]
            ]
          ]
        ]

    -- Where `ExecuteDuckDBQuery` returns, hands its query to DuckDB and leaves nothing open with
    -- the result 0, the trigger does what its contract says.
    pub create_table_trigger_with-Contract :
        (called : Bool) (tree : NodeTag) (skip : Bool) (h : History)
        → Contract tree h (after_select h) (create_table_trigger_with D execute called tree skip h)
    unfolding create_table_trigger_with exec_select
    create_table_trigger_with-Contract false tree skip h = inl refl
    create_table_trigger_with-Contract true tree skip h =
        elim (accept_select-cases (D.exec_answer (after_select h)) (after_select h)) [
          | inr (r, failed) ↦ rw failed (inl (simp (raw_queries-append, append-nil)))
          | inl accepted ↦ elim (Bool-cases (ltb 0 (D.spi_processed (after_select h)))) [
            | inl some_rows ↦
                rw (accepted, some_rows)
                  (create_selected-Contract tree skip _ h (after_select h) (simp depth-append)
                    (simp (raw_queries-append, append-nil)))
            | inr no_rows ↦
                rw (accepted, no_rows)
                  (simp depth-append, inl (ground arith, simp (raw_queries-append, append-nil)))
          ]
        ]

  -- The trigger returns only if no DuckLake table was created, and then hands DuckDB nothing, or if
  -- one table was, not temporary and by CREATE TABLE or CREATE TABLE AS, and then hands DuckDB the
  -- DDL of that table; SPI and GUC levels are then as deep as before. If it raises an error it
  -- handed DuckDB nothing, or the DDL of such a table.
  pub create_table_trigger-Contract :
      (called : Bool) (tree : NodeTag) (skip : Bool) (h : History)
      → Contract tree h (after_select h) (create_table_trigger D called tree skip h)
  unfolding create_table_trigger
  create_table_trigger-Contract =
      create_table_trigger_with-Contract (execute_duckdb_query D) (execute_duckdb_query-Executes D)
