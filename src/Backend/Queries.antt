-- ===== src/Backend/Queries.antt =====
-- `raw_queries` and `spi_executes` of a history that grows.
use pg_ducklake_next.Base.{◌≡◌, refl, ap, String, List, [], ◌∷◌, ◌++◌}
use pg_ducklake_next.Backend.{raw_query, spi_execute, History, raw_queries, spi_executes}

pub raw_queries-append : (h k : History) → raw_queries (h ++ k) ≡ raw_queries h ++ raw_queries k
raw_queries-append [] k = refl
raw_queries-append (raw_query q ∷ h) k = ap (λ (qs : List String). q ∷ qs) (raw_queries-append h k)
raw_queries-append (c ∷ h) k = raw_queries-append h k

pub spi_executes-append : (h k : History) → spi_executes (h ++ k) ≡ spi_executes h ++ spi_executes k
spi_executes-append [] k = refl
spi_executes-append (spi_execute q read_only ∷ h) k =
    ap (λ (qs : List String). q ∷ qs) (spi_executes-append h k)
spi_executes-append (c ∷ h) k = spi_executes-append h k
