-- ===== src/Spi/Execution/Balance.antt =====
-- What `CreateSPIResult` leaves open.
use mathlib.Core.List.{append_assoc}
use pg_ducklake_next.Base.{ℕ, ◌%◌, ◌^◌, ◌≡◌, refl, String, false, none, some, [], ◌∷◌, ◌++◌}
use pg_ducklake_next.Backend.{
  restore_stack_base, set_next_expected_command_id, spi_execute, History, Outcome, returns, raises,
  scoped, call,
}
use pg_ducklake_next.Backend.Depth.{Depth, deeper, depth_of, depth-append}
use pg_ducklake_next.Spi.Execution.{
  SpiBackend, SpiAnswer, spi_raises, spi_fails, spi_returns, QueryResult, create_spi_result,
  result_of, sync_command_id,
}

module _ (S : SpiBackend) where
  -- The depths after a run that returned, and after one that raised an error.
  abbrev pub Leaves : Depth → Outcome (QueryResult S) × History → Type 0
  Leaves d (returns r, h) = depth_of h ≡ d
  Leaves d (raises e, h) = depth_of h ≡ deeper d

  result_of-Leaves :
      (level : ℕ) (answer : SpiAnswer S.tuples) (d : Depth) (h : History)
      → depth_of h ≡ deeper d
      → Leaves d (
          scoped
            (call restore_stack_base)
            (scoped (sync_command_id S) (result_of S level answer))
            h)
  unfolding result_of sync_command_id
  result_of-Leaves level (spi_raises code message) d h e = e
  result_of-Leaves level (spi_fails name) d h e = e
  result_of-Leaves level (spi_returns code none) d h e = simp (depth-append, e)
  result_of-Leaves level (spi_returns code (some (attrs, vals))) d h e = simp (depth-append, e)

  -- `CreateSPIResult` leaves SPI connections, snapshots, GUC levels and stack bases as deep as
  -- before if it returns. If an error of PostgreSQL ends it, each is left one deeper, for the
  -- transaction's abort to clean up.
  pub create_spi_result-Leaves :
      (query : String) (h : History) → Leaves (depth_of h) (create_spi_result S query h)
  unfolding create_spi_result
  create_spi_result-Leaves query h = result_of-Leaves _ _ (depth_of h) _ (simp depth-append)

  -- The last calls of a run that returned, and of one that raised an error.
  abbrev pub EndsSynced : String → Outcome (QueryResult S) × History → Type 0
  EndsSynced query (returns r, h) =
      (k : History) × (h
        ≡ k
          ++ set_next_expected_command_id (S.current_command_id k % 2 ^ 32)
            ∷ restore_stack_base
            ∷ [])
  EndsSynced query (raises e, h) = (k : History) × (h ≡ k ++ spi_execute query false ∷ [])

  result_of-EndsSynced :
      (level : ℕ) (answer : SpiAnswer S.tuples) (query : String) (k : History)
      → EndsSynced query (
          scoped
            (call restore_stack_base)
            (scoped (sync_command_id S) (result_of S level answer))
            (k ++ spi_execute query false ∷ []))
  unfolding result_of sync_command_id
  result_of-EndsSynced level (spi_raises code message) query k = (k, refl)
  result_of-EndsSynced level (spi_fails name) query k = (k, refl)
  result_of-EndsSynced level (spi_returns code none) query k =
      let after =
        (result_of S level (spi_returns code none) (k ++ spi_execute query false ∷ [])).1 in
      let sync = set_next_expected_command_id (S.current_command_id after % 2 ^ 32) in
      (after, append_assoc after (sync ∷ []) (restore_stack_base ∷ []))
  result_of-EndsSynced level (spi_returns code (some (attrs, vals))) query k =
      let after =
        (result_of S level (spi_returns code (some (attrs, vals)))
          (k ++ spi_execute query false ∷ [])).1 in
      let sync = set_next_expected_command_id (S.current_command_id after % 2 ^ 32) in
      (after, append_assoc after (sync ∷ []) (restore_stack_base ∷ []))

  -- If `CreateSPIResult` returns, its last calls are those of the two destructors: the command id
  -- that was current just before, cut to 32 bits, is set as pg_duckdb's next expected one, then the
  -- stack base is restored. If an error of PostgreSQL ends it, nothing follows the execution of the
  -- query, which is not read-only.
  pub create_spi_result-EndsSynced :
      (query : String) (h : History) → EndsSynced query (create_spi_result S query h)
  unfolding create_spi_result
  create_spi_result-EndsSynced query h = result_of-EndsSynced _ _ query _
