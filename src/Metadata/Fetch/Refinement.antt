-- ===== src/Metadata/Fetch/Refinement.antt =====
-- From the metadata tables to the catalog, through SPI.
use pg_ducklake_next.Base.{ℕ, ◌≡◌, refl, ap, subst, String, List, ◌⊎◌, inl, inr}
use pg_ducklake_next.Base.Result.{ok}
use pg_ducklake_next.Backend.{
  pg_error, duckdb_exception, std_exception, other_exception, Outcome, returns, raises, History,
}
use pg_ducklake_next.Backend.Executed.{AllRan, OneFailed}
use pg_ducklake_next.Spi.Execution.{SpiBackend}
use pg_ducklake_next.Metadata.Values.{DuckDb}
use pg_ducklake_next.Metadata.Schemas.{SchemaRow}
use pg_ducklake_next.Metadata.Tables.{TableRow}
use pg_ducklake_next.Metadata.Views.{ViewRow}
use pg_ducklake_next.Metadata.Partitions.{PartitionRow}
use pg_ducklake_next.Metadata.Catalog.{CatalogInfo}
use pg_ducklake_next.Metadata.Sql.{Fillers}
use pg_ducklake_next.Metadata.Records.{Store}
use pg_ducklake_next.Metadata.Store.{Aggregates}
use pg_ducklake_next.Metadata.Store.Answer.{IsAnswer, IsStoreOk}
use pg_ducklake_next.Metadata.Store.Refinement.{IsCatalogAt, get_catalog_for_snapshot-refines}
use pg_ducklake_next.Metadata.Fetch.{ResultReader, fetch_catalog}
use pg_ducklake_next.Metadata.Fetch.Simulation.{
  Sim, AreAnswered, catalog_queries, fetch_catalog-Sim,
}

module _ (S : SpiBackend) (D : DuckDb) (F : Fillers) (R : ResultReader S D.Value) where
  -- A run that ends with the value, or by an error of PostgreSQL in a query.
  abbrev pub Gives : {A : Type 0} → History → List String → Outcome A × History → A → Type 0
  Gives h qs x a =
      ((h' : History) × (x ≡ (returns a, h')) × AllRan h qs h')
      ⊎ ((code : String) × (message : String) × (h' : History) × (x
            ≡ (raises (pg_error code message), h'))
          × OneFailed h qs h')

  Sim-ok :
      {A : Type 0}
      → (h : History) (qs : List String) (x : Outcome A × History) (a : A)
      → Sim S D F R h qs x (ok a)
      → Gives h qs x a
  Sim-ok h qs (returns b, h') a (same, all) = inl (h', ap (λ c. (returns c, h')) same, all)
  Sim-ok h qs (raises (pg_error code message), h') a one = inr (code, message, h', refl, one)
  Sim-ok h qs (raises (duckdb_exception w), h') a s = absurd s
  Sim-ok h qs (raises (std_exception w), h') a s = absurd s
  Sim-ok h qs (raises other_exception, h') a s = absurd s

  -- Where every visible table, column and view of the metadata tables can be loaded and each query
  -- that returns answers what PostgreSQL may answer for them at the snapshot,
  -- `GetCatalogForSnapshot`, run through SPI, returns a catalog that is the one of the tables at
  -- that snapshot, behind all four queries in order and with SPI connections, snapshots, GUC levels
  -- and stack bases as deep as before; or an error of PostgreSQL in a query ends it, with each of
  -- them one deeper and no later query run. It throws no exception of its own.
  pub fetch_catalog-refines :
      (G : Aggregates D.Value) (store : Store) (id : ℕ) (base_data_path : String)
      → IsStoreOk D G store id
      → (schema_rows : List SchemaRow) (table_rows : List (TableRow D.Value))
        (view_rows : List (ViewRow D.Value)) (partition_rows : List PartitionRow)
      → IsAnswer D G store id schema_rows table_rows view_rows partition_rows
      → (snapshot : F.Snapshot) (h : History)
      → AreAnswered S D F R snapshot h (record {
        schema_rows = ok schema_rows;
        table_rows = ok table_rows;
        view_rows = ok view_rows;
        partition_rows = ok partition_rows;
      })
      → (catalog : CatalogInfo) × IsCatalogAt D G store id base_data_path catalog
        × Gives h
            (catalog_queries S D F R snapshot)
            (fetch_catalog S D F R base_data_path snapshot h)
            catalog
  fetch_catalog-refines G store id base_data_path o schema_rows table_rows view_rows partition_rows
        a snapshot h e =
      let (catalog, loaded, at) =
        get_catalog_for_snapshot-refines D G store id base_data_path o schema_rows table_rows
          view_rows partition_rows a in
      (
        catalog,
        at,
        Sim-ok h (catalog_queries S D F R snapshot)
            (fetch_catalog S D F R base_data_path snapshot h) catalog
            (subst
              (Sim S D F R h (catalog_queries S D F R snapshot)
                (fetch_catalog S D F R base_data_path snapshot h))
              loaded (fetch_catalog-Sim S D F R base_data_path snapshot h _ e)),
      )
