-- ===== src/Ddl/RawQuery.antt =====
-- `GetRawQueryFuncOid` and `DuckdbRawQuery` of src/pgducklake_ddl.cpp: the cached oid of
-- `duckdb.raw_query`, which the queries that `ExecuteDuckDBQuery` hands to DuckDB go through.
use mathlib.Core.Option.{some-injective}
use pg_ducklake_next.Base.{
  ℕ, zero, suc, ◌≡◌, ◌≢◌, refl, ap, String, false, ◌==◌, if◌then◌else◌, Option, none, some, List,
  [], ◌∷◌, map, take, get_elem?, All, arith,
}
use pg_ducklake_next.Base.Result.{Result, ok, err}
use pg_ducklake_next.Ddl.Query.{RawAnswer, raw_error}

abbrev pub invalid_oid : ℕ
invalid_oid = 0

-- What `LookupFuncName` does where it is called: it returns the function's oid, or raises an error
-- with a message or without.
abbrev pub Lookup : Type 0
Lookup = Result (Option String) ℕ

-- A call, with the static `cached` before and behind it.
unfoldable pub get_raw_query_func_oid : ℕ → Lookup → Result (Option String) ℕ × ℕ
get_raw_query_func_oid cached (ok oid) =
    if cached == invalid_oid then (ok oid, oid) else (ok cached, cached)
get_raw_query_func_oid cached (err message) =
    if cached == invalid_oid then (err message, cached) else (ok cached, cached)

-- The first oid among the lookups.
abbrev pub first_found : List Lookup → Option ℕ
first_found [] = none
first_found (ok oid ∷ lookups) = some oid
first_found (err message ∷ lookups) = first_found lookups

-- A lookup that returns gives a valid oid.
abbrev pub IsValid : Lookup → Type 0
IsValid (ok oid) = oid ≢ invalid_oid
IsValid (err message) = Unit

module _ (oid_function_call1 : ℕ → String → RawAnswer) where
  -- `OidFunctionCall1(oid, query)`, where there is an oid.
  abbrev pub call_oid : String → Result (Option String) ℕ → RawAnswer
  call_oid query (ok oid) = oid_function_call1 oid query
  call_oid query (err message) = raw_error message

  unfoldable pub duckdb_raw_query : ℕ → String → Lookup → RawAnswer × ℕ
  unfolding get_raw_query_func_oid
  duckdb_raw_query cached query lookup =
      let (oid, cached') = get_raw_query_func_oid cached lookup in (call_oid query oid, cached')

  -- The calls of one backend, each with what a lookup would give at that time.
  unfoldable pub duckdb_raw_queries : ℕ → List (String × Lookup) → List RawAnswer
  unfolding duckdb_raw_query
  duckdb_raw_queries cached [] = []
  duckdb_raw_queries cached ((query, lookup) ∷ calls) =
      let (answer, cached') = duckdb_raw_query cached query lookup in
      answer ∷ duckdb_raw_queries cached' calls

  -- What a call answers if that oid has been found by then.
  abbrev pub answer_with : Option ℕ → String × Lookup → RawAnswer
  answer_with none (query, lookup) = call_oid query lookup
  answer_with (some oid) (query, lookup) = oid_function_call1 oid query

  duckdb_raw_queries-cached :
      (oid : ℕ) (calls : List (String × Lookup))
      → oid ≢ invalid_oid
      → duckdb_raw_queries oid calls ≡ map (answer_with (some oid)) calls
  unfolding duckdb_raw_queries
  duckdb_raw_queries-cached oid [] v = refl
  duckdb_raw_queries-cached oid ((query, ok o) ∷ calls) v =
      let kept : (oid == invalid_oid) ≡ false = ground (arith, v) in
      rw (kept, duckdb_raw_queries-cached oid calls v) refl
  duckdb_raw_queries-cached oid ((query, err m) ∷ calls) v =
      let kept : (oid == invalid_oid) ≡ false = ground (arith, v) in
      rw (kept, duckdb_raw_queries-cached oid calls v) refl

  get_elem?-map :
      (f : String × Lookup → RawAnswer) (calls : List (String × Lookup)) (i : ℕ)
      (c : String × Lookup)
      → get_elem? calls i ≡ some c
      → get_elem? (map f calls) i ≡ some (f c)
  get_elem?-map f [] i c h = cc
  get_elem?-map f (x ∷ calls) zero c h = cc
  get_elem?-map f (x ∷ calls) (suc i) c h = get_elem?-map f calls i c h

  -- If every lookup that returns gives a valid oid, then each call of `duckdb.raw_query` in a
  -- backend, in order, goes to the oid that the first lookup that returned by then has given,
  -- whatever a later lookup would give, and a call before that raises the error of its own lookup.
  pub duckdb_raw_queries-first_found :
      (calls : List (String × Lookup))
      → All (λ c. IsValid c.1) calls
      → (i : ℕ) (c : String × Lookup) → get_elem? calls i ≡ some c
      → get_elem? (duckdb_raw_queries invalid_oid calls) i
        ≡ some (answer_with (first_found (map (λ d. d.1) (take (suc i) calls))) c)
  unfolding duckdb_raw_queries
  duckdb_raw_queries-first_found [] v i c h = cc
  duckdb_raw_queries-first_found ((query, ok oid) ∷ calls) v zero c h =
      ap (λ (d : String × Lookup). some (oid_function_call1 oid d.0)) (some-injective _ _ h)
  duckdb_raw_queries-first_found ((query, ok oid) ∷ calls) v (suc i) c h =
      rw (duckdb_raw_queries-cached oid calls v.0)
        (get_elem?-map (answer_with (some oid)) calls i c h)
  duckdb_raw_queries-first_found ((query, err m) ∷ calls) v zero c h =
      ap (λ (d : String × Lookup). some (call_oid d.0 d.1)) (some-injective _ _ h)
  duckdb_raw_queries-first_found ((query, err m) ∷ calls) v (suc i) c h =
      duckdb_raw_queries-first_found calls v.1 i c h
