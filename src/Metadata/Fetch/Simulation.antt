-- ===== src/Metadata/Fetch/Simulation.antt =====
-- The run of `GetCatalogForSnapshot` against the function of the four answers.
use mathlib.Core.List.{append-nil}
use pg_ducklake_next.Base.{◌≡◌, refl, sym, subst, String, List, [], ◌∷◌, ◌++◌, ◌⊎◌, inl, inr}
use pg_ducklake_next.Base.Result.{Result, ok, err, ◌>>=◌}
use pg_ducklake_next.Backend.{
  pg_error, duckdb_exception, std_exception, other_exception, Outcome, returns, raises, History,
  Run, continue, spi_executes,
}
use pg_ducklake_next.Backend.Depth.{Depth, deeper, depth_of}
use pg_ducklake_next.Backend.Executed.{
  AllRan, OneFailed, SomeRan, AllRan-later, OneFailed-later, SomeRan-later,
}
use pg_ducklake_next.Spi.Execution.{SpiBackend, QueryResult, create_spi_result}
use pg_ducklake_next.Spi.Execution.Cases.{Returned, Failed, create_spi_result-cases}
use pg_ducklake_next.Metadata.Values.{Exception, DuckDb}
use pg_ducklake_next.Metadata.Schemas.{no_schemas, load_schemas}
use pg_ducklake_next.Metadata.Tables.{load_tables}
use pg_ducklake_next.Metadata.Views.{load_views}
use pg_ducklake_next.Metadata.Catalog.{Answers, rows_or_throw, get_catalog_for_snapshot}
use pg_ducklake_next.Metadata.Sql.{Fillers, query, query_at}
use pg_ducklake_next.Metadata.Fetch.{
  ResultReader, or_throw, rows_of, fetch_rows, fetch_catalog, schema_sql, table_sql, view_sql,
  partition_sql,
}

module _ (S : SpiBackend) where
  abbrev EndsAt : Depth → List String → Outcome (QueryResult S) × History → Type 0
  EndsAt d qs (returns r, h') = (depth_of h' ≡ d) × (spi_executes h' ≡ qs)
  EndsAt d qs (raises (pg_error code message), h') =
      (depth_of h' ≡ deeper d) × (spi_executes h' ≡ qs)
  EndsAt d qs (raises (duckdb_exception w), h') = ⊥
  EndsAt d qs (raises (std_exception w), h') = ⊥
  EndsAt d qs (raises other_exception, h') = ⊥

  ends_at :
      (d : Depth) (qs : List String) (x : Outcome (QueryResult S) × History)
      → Returned S d qs x ⊎ Failed S d qs x
      → EndsAt d qs x
  ends_at d qs x (inl r) = subst (EndsAt d qs) (sym r.run) (r.depth, r.executed)
  ends_at d qs x (inr f) = subst (EndsAt d qs) (sym f.run) (f.depth, f.executed)

module _ (S : SpiBackend) (D : DuckDb) (F : Fillers) (R : ResultReader S D.Value) where
  -- How a run ends against what a function of the answers gives: with its value, all queries run at
  -- the depth of before; with its exception, some of them run; or with an error of PostgreSQL in
  -- one of them.
  abbrev pub Sim :
      {A : Type 0} → History → List String → Outcome A × History → Result Exception A → Type 0
  Sim h qs (returns a, h') (ok b) = (a ≡ b) × AllRan h qs h'
  Sim h qs (returns a, h') (err e) = ⊥
  Sim h qs (raises (pg_error code message), h') expected = OneFailed h qs h'
  Sim h qs (raises (duckdb_exception w), h') (ok b) = ⊥
  Sim h qs (raises (duckdb_exception w), h') (err e) = (w ≡ R.what e) × SomeRan h qs h'
  Sim h qs (raises (std_exception w), h') expected = ⊥
  Sim h qs (raises other_exception, h') expected = ⊥

  Sim-later :
      {A : Type 0}
      → (h k : History) (q : String) (qs : List String) (x : Outcome A × History)
        (expected : Result Exception A)
      → depth_of k ≡ depth_of h
      → spi_executes k ≡ spi_executes h ++ q ∷ []
      → Sim k qs x expected
      → Sim h (q ∷ qs) x expected
  Sim-later h k q qs (returns a, h') (ok b) d e s = (s.0, AllRan-later h k h' q qs d e s.1)
  Sim-later h k q qs (returns a, h') (err x) d e s = absurd s
  Sim-later h k q qs (raises (pg_error code message), h') expected d e s =
      OneFailed-later h k h' q qs d e s
  Sim-later h k q qs (raises (duckdb_exception w), h') (ok b) d e s = absurd s
  Sim-later h k q qs (raises (duckdb_exception w), h') (err x) d e s =
      (s.0, SomeRan-later h k h' q qs d e s.1)
  Sim-later h k q qs (raises (std_exception w), h') expected d e s = absurd s
  Sim-later h k q qs (raises other_exception, h') expected d e s = absurd s

  -- What a query has answered, if it has returned.
  abbrev pub Answered :
      {B : Type 0}
      → (QueryResult S → List B)
      → Outcome (QueryResult S)
      → Result String (List B)
      → Type 0
  Answered rows (returns result) answer = rows_of S D F R rows result ≡ answer
  Answered rows (raises r) answer = Unit

  abbrev pub filled : F.Snapshot → String → String
  filled snapshot text =
      F.fill_snapshot_commit_args (F.fill_catalog_args (F.fill_snapshot_args snapshot text))

  answered-Sim :
      {A B : Type 0}
      → (prefix : String) (f : List B → Run A) (g : List B → Result Exception A) (h k : History)
        (q : String) (qs : List String)
      → depth_of k ≡ depth_of h
      → spi_executes k ≡ spi_executes h ++ q ∷ []
      → ((bs : List B) → Sim k qs (f bs k) (g bs))
      → (answer : Result String (List B))
      → let y = or_throw S D F R (rows_or_throw prefix answer) k in
        Sim h (q ∷ qs) (continue y.0 f y.1) (rows_or_throw prefix answer >>= g)
  answered-Sim prefix f g h k q qs d e later (ok bs) =
      Sim-later h k q qs (f bs k) (g bs) d e (later bs)
  answered-Sim prefix f g h k q qs d e later (err message) =
      (refl, record { depth = d; tried = q ∷ []; rest = qs; whole = refl; executed = e })

  fetch-Sim :
      {A B : Type 0}
      → (prefix : String) (rows : QueryResult S → List B) (f : List B → Run A)
        (g : List B → Result Exception A) (h : History) (q : String) (qs : List String)
        (x : Outcome (QueryResult S) × History) (answer : Result String (List B))
      → Answered rows x.0 answer
      → EndsAt S (depth_of h) (spi_executes h ++ q ∷ []) x
      → ((bs : List B) → Sim x.1 qs (f bs x.1) (g bs))
      → let y =
          continue x.0
            (λ result. or_throw S D F R (rows_or_throw prefix (rows_of S D F R rows result)))
            x.1 in
        Sim h (q ∷ qs) (continue y.0 f y.1) (rows_or_throw prefix answer >>= g)
  fetch-Sim prefix rows f g h q qs (returns result, k) answer same e later =
      rw same (answered-Sim prefix f g h k q qs e.0 e.1 later answer)
  fetch-Sim prefix rows f g h q qs (raises (pg_error code message), k) answer same e later =
      record {
        depth = e.0;
        tried = q ∷ [];
        up_to = record { before = []; failed = q; rest = qs; whole = refl; tried = refl };
        executed = e.1;
      }
  fetch-Sim prefix rows f g h q qs (raises (duckdb_exception w), k) answer same e later = absurd e
  fetch-Sim prefix rows f g h q qs (raises (std_exception w), k) answer same e later = absurd e
  fetch-Sim prefix rows f g h q qs (raises other_exception, k) answer same e later = absurd e

  -- A step that may throw.
  throw-Sim :
      {A B : Type 0}
      → (r : Result Exception B) (f : B → Run A) (g : B → Result Exception A) (h : History)
        (qs : List String)
      → ((b : B) → Sim h qs (f b h) (g b))
      → let y = or_throw S D F R r h in Sim h qs (continue y.0 f y.1) (r >>= g)
  throw-Sim (ok b) f g h qs later = later b
  throw-Sim (err e) f g h qs later = (
    refl,
    record {
      depth = refl;
      tried = [];
      rest = qs;
      whole = refl;
      executed = sym (append-nil (spi_executes h));
    },
  )

  -- The run of one query, at a history.
  abbrev pub ran : F.Snapshot → String → History → Outcome (QueryResult S) × History
  ran snapshot text h = create_spi_result S (filled snapshot text) h

  ran-EndsAt :
      (snapshot : F.Snapshot) (text : String) (h : History)
      → EndsAt S (depth_of h) (spi_executes h ++ filled snapshot text ∷ []) (ran snapshot text h)
  ran-EndsAt snapshot text h = ends_at S _ _ _ (create_spi_result-cases S (filled snapshot text) h)

  -- What the four queries answer, one after the other, as far as they return.
  pub record AreAnswered (snapshot : F.Snapshot) (h : History) (answers : Answers D.Value)
      : Type 0 where
    pub schemas : Answered R.schema_rows (ran snapshot schema_sql h).0 answers.schema_rows
    pub tables :
        Answered R.table_rows
          (ran snapshot table_sql (ran snapshot schema_sql h).1).0
          answers.table_rows
    pub views :
        Answered R.view_rows
          (ran snapshot view_sql (ran snapshot table_sql (ran snapshot schema_sql h).1).1).0
          answers.view_rows
    pub partitions :
        Answered R.partition_rows
          (ran snapshot partition_sql
            (ran snapshot view_sql (ran snapshot table_sql (ran snapshot schema_sql h).1).1).1).0
          answers.partition_rows

  abbrev pub catalog_queries : F.Snapshot → List String
  catalog_queries snapshot =
      filled snapshot schema_sql
      ∷ filled snapshot table_sql
      ∷ filled snapshot view_sql
      ∷ filled snapshot partition_sql
      ∷ []

  -- `GetCatalogForSnapshot`, from what its four queries answer in turn as far as they return, ends
  -- as the function of any such answers does: with its catalog, and then all four queries have run,
  -- in order, and SPI connections, snapshots, GUC levels and stack bases are as deep as before; or
  -- with its exception, also at that depth, and the queries behind it have not run. An error of
  -- PostgreSQL in a query ends it, too, with each of the four one deeper and no later query run.
  pub fetch_catalog-Sim :
      (base_data_path : String) (snapshot : F.Snapshot) (h : History) (answers : Answers D.Value)
      → AreAnswered snapshot h answers
      → Sim h
          (catalog_queries snapshot)
          (fetch_catalog S D F R base_data_path snapshot h)
          (get_catalog_for_snapshot D base_data_path answers)
  unfolding fetch_catalog fetch_rows query_at query get_catalog_for_snapshot
  fetch_catalog-Sim base_data_path snapshot h answers a =
      let first = ran snapshot schema_sql h in
      let second = ran snapshot table_sql first.1 in
      let third = ran snapshot view_sql second.1 in
      let fourth = ran snapshot partition_sql third.1 in
      fetch-Sim _ R.schema_rows _ _ h _ _ first _ a.schemas (ran-EndsAt snapshot schema_sql h)
        (λ schema_rows.
          fetch-Sim _ R.table_rows _ _ first.1 _ _ second _ a.tables
            (ran-EndsAt snapshot table_sql first.1)
            (λ table_rows.
              throw-Sim
                (load_tables D (load_schemas D base_data_path no_schemas schema_rows) table_rows) _
                _ second.1 _
                (λ tables.
                  fetch-Sim _ R.view_rows _ _ second.1 _ _ third _ a.views
                    (ran-EndsAt snapshot view_sql second.1)
                    (λ view_rows. throw-Sim (load_views D view_rows) _ _ third.1 _ (λ views.
                      fetch-Sim _ R.partition_rows _ _ third.1 _ _ fourth _ a.partitions
                        (ran-EndsAt snapshot partition_sql third.1)
                        (λ partition_rows.
                          (refl, record { depth = refl; executed = sym (append-nil _) })))))))
