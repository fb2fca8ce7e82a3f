-- ===== src/Guard/Safety.antt =====
-- What can come out of a guarded function of include/pgducklake/utility/cpp_wrapper.hpp.
use mathlib.Core.List.{append_assoc}
use text.Mathlib.Text.{starts_with}
use text.Mathlib.TextBridge.{IsPrefix}
use text.Mathlib.TextEquality.{starts_with_iff}
use pg_ducklake_next.Base.{
  ℕ, ◌==◌, ==_iff, String, ◌<>◌, ◌≡◌, ◌≢◌, refl, sym, Bool-cases, ◌⊎◌, inl, inr, [], ◌∷◌, ◌++◌,
  arith,
}
use pg_ducklake_next.Backend.{
  elog, warning, reset_exception_stack, pg_error, duckdb_exception, std_exception, other_exception,
  Outcome, returns, raises, History, Run,
}
use pg_ducklake_next.Guard.{GuardEnv, std_message, report, catch_exceptions, cpp_function_guard}

module _ (G : GuardEnv) (func_name : String) (start : ℕ) where
  -- An error of PostgreSQL with this text, behind `k`; where `PG_exception_stack` is not what it
  -- was at the start, it has been set back, with a warning.
  pub record Reports {A : Type 0} (message : String) (k : History) (x : Outcome A × History)
      : Type 0 where
    pub outcome : x.0 ≡ raises (pg_error "XX000" ("(PGDuckDB/" <> func_name <> ") " <> message))
    pub calls :
        ((G.exception_stack k ≡ start) × (x.1 ≡ k))
        ⊎ ((G.exception_stack k ≢ start)
            × (x.1
                ≡ k
                  ++ elog warning
                      "WARNING: Unexpected exception stack pointer. This is not expected, please report this."
                    ∷ reset_exception_stack start
                    ∷ []))

  -- How the guard ends where its function ends so.
  abbrev pub Guards : {A : Type 0} → Outcome A × History → Outcome A × History → Type 0
  Guards (returns a, k) x = x ≡ (returns a, k)
  Guards (raises (pg_error code message), k) x = x ≡ (raises (pg_error code message), k)
  Guards (raises (duckdb_exception what), k) x = Reports (G.error_data_message what) k x
  Guards (raises (std_exception what), k) x =
      (IsPrefix "{" what × Reports (G.error_data_message what) k x)
      ⊎ ((IsPrefix "{" what → ⊥) × Reports what k x)
  Guards (raises other_exception, k) x = x ≡ (raises other_exception, k)

  report-Reports :
      {A : Type 0}
      → (message : String) (k : History)
      → Reports {A = A} message k (report G func_name start message k)
  unfolding report
  report-Reports message k = elim (Bool-cases (start == G.exception_stack k)) [
    | inl same ↦ rw same (record { outcome = refl; calls = inl (sym ((==_iff _ _).0 same), refl) })
    | inr moved ↦
        rw moved (record { outcome = refl; calls = inr ((λ e. ground arith), append_assoc k _ _) })
  ]

  catch_exceptions-Guards :
      {A : Type 0}
      → (o : Outcome A) (k : History) → Guards (o, k) (catch_exceptions G func_name start o k)
  unfolding catch_exceptions std_message
  catch_exceptions-Guards (returns a) k = refl
  catch_exceptions-Guards (raises (pg_error code message)) k = refl
  catch_exceptions-Guards (raises (duckdb_exception what)) k =
      report-Reports (G.error_data_message what) k
  catch_exceptions-Guards (raises (std_exception what)) k =
      elim (Bool-cases (starts_with what "{")) [
        | inl brace ↦ inl (
          (starts_with_iff what "{").0 brace,
          rw brace (report-Reports (G.error_data_message what) k),
        )
        | inr plain ↦ inr (
          (λ p. let brace = (starts_with_iff what "{").1 p in cc),
          rw plain (report-Reports what k),
        )
      ]
  catch_exceptions-Guards (raises other_exception) k = refl

-- The guard hands on a result, an error of PostgreSQL and what is no standard exception, with no
-- call of its own. A DuckDB exception and a standard one become an error of PostgreSQL whose
-- message names the function: with the text as DuckDB reads it for a DuckDB exception and for a
-- standard one whose text begins with a brace, and with the text as it is for any other. Before
-- such an error it warns and sets `PG_exception_stack` back to what it was at the start exactly
-- where it has changed.
pub cpp_function_guard-Guards :
    (G : GuardEnv) {A : Type 0}
    → (func_name : String) (func : Run A) (h : History)
    → Guards G func_name (G.exception_stack h) (func h) (cpp_function_guard G func_name func h)
unfolding cpp_function_guard
cpp_function_guard-Guards G func_name func h =
    catch_exceptions-Guards G func_name (G.exception_stack h) (func h).0 (func h).1
