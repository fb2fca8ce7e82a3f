-- ===== src/Spi/Execution/Cases.antt =====
-- The ways in which `CreateSPIResult` ends.
use mathlib.Core.List.{append-nil}
use pg_ducklake_next.Base.{
  ℕ, ◌≡◌, refl, String, ◌<>◌, false, none, some, List, [], ◌∷◌, ◌++◌, ◌⊎◌, inl, inr,
}
use pg_ducklake_next.Backend.{
  set_stack_base, restore_stack_base, elog, debug1, spi_connect, push_active_snapshot,
  new_guc_nest_level, set_config_option, spi_execute, Outcome, returns, raises, pg_error, History,
  raw_queries, spi_executes, scoped, call,
}
use pg_ducklake_next.Backend.Depth.{Depth, deeper, depth_of, depth-append}
use pg_ducklake_next.Backend.Queries.{raw_queries-append, spi_executes-append}
use pg_ducklake_next.Spi.Execution.{
  SpiBackend, SpiAnswer, spi_raises, spi_fails, spi_returns, QueryResult, create_spi_result,
  result_of, sync_command_id,
}

module _ (S : SpiBackend) where
  -- It returns a result, at the depth of before.
  pub record Returned (d : Depth) (qs : List String) (x : Outcome (QueryResult S) × History)
      : Type 0 where
    pub result : QueryResult S
    pub after : History
    pub run : x ≡ (returns result, after)
    pub depth : depth_of after ≡ d
    pub executed : spi_executes after ≡ qs

  -- It ends by an error of PostgreSQL, one deeper.
  pub record Failed (d : Depth) (qs : List String) (x : Outcome (QueryResult S) × History)
      : Type 0 where
    pub code : String
    pub message : String
    pub after : History
    pub run : x ≡ (raises (pg_error code message), after)
    pub depth : depth_of after ≡ deeper d
    pub executed : spi_executes after ≡ qs

  -- The query ends without an error of PostgreSQL.
  abbrev pub Succeeds : SpiAnswer S.tuples → Type 0
  Succeeds (spi_raises code message) = ⊥
  Succeeds (spi_fails name) = ⊥
  Succeeds (spi_returns code table) = Unit

  result_of-Returned :
      (level : ℕ) (answer : SpiAnswer S.tuples) (d : Depth) (qs : List String) (h : History)
      → Succeeds answer
      → depth_of h ≡ deeper d
      → spi_executes h ≡ qs
      → Returned d qs (
          scoped
            (call restore_stack_base)
            (scoped (sync_command_id S) (result_of S level answer))
            h)
  unfolding result_of sync_command_id
  result_of-Returned level (spi_raises c m) d qs h o e f = absurd o
  result_of-Returned level (spi_fails name) d qs h o e f = absurd o
  result_of-Returned level (spi_returns code none) d qs h o e f = record {
    result = _;
    after = _;
    run = refl;
    depth = simp (depth-append, e);
    executed = simp (spi_executes-append, append-nil, f);
  }
  result_of-Returned level (spi_returns code (some (attrs, vals))) d qs h o e f = record {
    result = _;
    after = _;
    run = refl;
    depth = simp (depth-append, e);
    executed = simp (spi_executes-append, append-nil, f);
  }

  result_of-cases :
      (level : ℕ) (answer : SpiAnswer S.tuples) (d : Depth) (qs : List String) (h : History)
      → depth_of h ≡ deeper d
      → spi_executes h ≡ qs
      → let x =
          scoped
            (call restore_stack_base)
            (scoped (sync_command_id S) (result_of S level answer))
            h in
        Returned d qs x ⊎ Failed d qs x
  unfolding result_of sync_command_id
  result_of-cases level (spi_raises c m) d qs h e f =
      inr (record { code = c; message = m; after = h; run = refl; depth = e; executed = f })
  result_of-cases level (spi_fails name) d qs h e f =
      inr (record { code = _; message = _; after = h; run = refl; depth = e; executed = f })
  result_of-cases level (spi_returns code table) d qs h e f =
      inl (result_of-Returned level (spi_returns code table) d qs h tt e f)

  pub create_spi_result-cases :
      (query : String) (h : History)
      → let x = create_spi_result S query h in
        Returned (depth_of h) (spi_executes h ++ query ∷ []) x
        ⊎ Failed (depth_of h) (spi_executes h ++ query ∷ []) x
  unfolding create_spi_result
  create_spi_result-cases query h =
      result_of-cases _ _ (depth_of h) (spi_executes h ++ query ∷ []) _ (simp depth-append)
        (simp (spi_executes-append, append-nil))

  pub create_spi_result-Returned :
      ((h : History) → Succeeds (S.spi_answer h))
      → (query : String) (h : History)
      → Returned (depth_of h) (spi_executes h ++ query ∷ []) (create_spi_result S query h)
  unfolding create_spi_result
  create_spi_result-Returned o query h =
      result_of-Returned _ _ (depth_of h) (spi_executes h ++ query ∷ []) _ (o _) (simp depth-append)
        (simp (spi_executes-append, append-nil))

  result_of-raw_queries :
      (level : ℕ) (answer : SpiAnswer S.tuples) (qs : List String) (h : History)
      → raw_queries h ≡ qs
      → raw_queries
          (scoped
            (call restore_stack_base)
            (scoped (sync_command_id S) (result_of S level answer))
            h).1
        ≡ qs
  unfolding result_of sync_command_id
  result_of-raw_queries level (spi_raises c m) qs h e = e
  result_of-raw_queries level (spi_fails name) qs h e = e
  result_of-raw_queries level (spi_returns code none) qs h e =
      simp (raw_queries-append, append-nil, e)
  result_of-raw_queries level (spi_returns code (some (attrs, vals))) qs h e =
      simp (raw_queries-append, append-nil, e)

  -- It hands DuckDB no query.
  pub create_spi_result-raw_queries :
      (query : String) (h : History) → raw_queries (create_spi_result S query h).1 ≡ raw_queries h
  unfolding create_spi_result
  create_spi_result-raw_queries query h =
      let a =
        ((((h ++ elog debug1 ("Creating SPI result for query: " <> query) ∷ [])
              ++ set_stack_base ∷ [])
            ++ spi_connect ∷ [])
          ++ push_active_snapshot ∷ [])
        ++ new_guc_nest_level ∷ [] in
      let k =
        (a ++ set_config_option "duckdb.force_execution" "false" ∷ [])
        ++ spi_execute query false ∷ [] in
      result_of-raw_queries (S.guc_level a) (S.spi_answer k) (raw_queries h) k
        (simp (raw_queries-append, append-nil))
