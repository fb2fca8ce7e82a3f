-- ===== src/Backend.antt =====
-- The calls that the extension makes of PostgreSQL, pg_duckdb and DuckDB. A run is the list of the
-- calls so far; what they answer is a parameter, a function of that list.
pub mod Depth
pub mod Queries
pub mod Executed
use pg_ducklake_next.Base.{ℕ, String, Bool, true, false, List, [], ◌∷◌, ◌++◌}

pub data Level : Type 0 where
  debug1 debug2 info log warning : Level

-- A call, with the arguments that matter.
pub data Call : Type 0 where
  -- stack base, and pg_duckdb's mixed-write check
  set_stack_base : Call
  restore_stack_base : Call
  set_next_expected_command_id : ℕ → Call
  -- SPI and snapshots
  spi_connect : Call
  spi_finish : Call
  push_active_snapshot : Call
  pop_active_snapshot : Call
  spi_execute : String → Bool → Call
  spi_exec : String → Call
  -- GUCs: `NewGUCNestLevel`, `SetConfigOption`, `AtEOXact_GUC(false, level)`
  new_guc_nest_level : Call
  set_config_option : String → String → Call
  at_eoxact_guc : ℕ → Call
  -- pg_duckdb and DuckDB
  raw_query : String → Call
  load_ducklake_extension : Call
  register_metadata_manager : String → Call
  duckdb_query : String → Call
  -- the rest
  create_directory : String → Call
  reset_exception_stack : ℕ → Call
  elog : Level → String → Call

-- What ends a function early: `elog(ERROR)` and `ereport(ERROR)`, which jump over C++ frames to the
-- next PG_CATCH, and a C++ exception.
pub data Raised : Type 0 where
  pg_error : String → String → Raised
  duckdb_exception : String → Raised
  std_exception : String → Raised
  other_exception : Raised

pub data Outcome (A : Type 0) : Type 0 where
  returns : A → Outcome A
  raises : Raised → Outcome A

abbrev pub History : Type 0
History = List Call

-- Code that makes calls: from the calls so far to the outcome and the calls then.
abbrev pub Run : Type 0 → Type 0
Run A = History → Outcome A × History

abbrev pub pure : {A : Type 0} → A → Run A
pure a h = (returns a, h)

abbrev pub raise : {A : Type 0} → Raised → Run A
raise r h = (raises r, h)

abbrev pub call : Call → Run (Unit {0})
call c h = (returns tt, h ++ c ∷ [])

-- What a call answered, or the history tells.
abbrev pub ask : {A : Type 0} → (History → A) → Run A
ask f h = (returns (f h), h)

abbrev pub continue : {A B : Type 0} → Outcome A → (A → Run B) → Run B
continue (returns a) f h = f a h
continue (raises r) f h = (raises r, h)

infixl 5 ◌>>=◌ ◌>>◌
abbrev pub ◌>>=◌ : {A B : Type 0} → Run A → (A → Run B) → Run B
◌>>=◌ m f h = let (o, h') = m h in continue o f h'

abbrev pub ◌>>◌ : {B : Type 0} → Run (Unit {0}) → Run B → Run B
m >> k = m >>= λ _. k

-- A local object whose destructor is `destroy`: C++ runs it when the scope is left by a return or
-- by an exception, and not when `elog(ERROR)` jumps over the frame.
abbrev pub leave : {A : Type 0} → Run (Unit {0}) → Outcome A → History → Outcome A × History
leave destroy (returns a) h = (returns a, (destroy h).1)
leave destroy (raises (pg_error code message)) h = (raises (pg_error code message), h)
leave destroy (raises (duckdb_exception what)) h = (raises (duckdb_exception what), (destroy h).1)
leave destroy (raises (std_exception what)) h = (raises (std_exception what), (destroy h).1)
leave destroy (raises other_exception) h = (raises other_exception, (destroy h).1)

abbrev pub scoped : {A : Type 0} → Run (Unit {0}) → Run A → Run A
scoped destroy body h = let (o, h') = body h in leave destroy o h'

-- Raise the error unless the condition holds.
abbrev pub require : Bool → Raised → Run (Unit {0})
require true r = pure tt
require false r = raise r

-- The texts that were handed to DuckDB through `duckdb.raw_query`, in order.
abbrev pub raw_queries : History → List String
raw_queries [] = []
raw_queries (raw_query q ∷ h) = q ∷ raw_queries h
raw_queries (_ ∷ h) = raw_queries h

-- The texts that SPI has executed for the metadata manager, in order.
abbrev pub spi_executes : History → List String
spi_executes [] = []
spi_executes (spi_execute q read_only ∷ h) = q ∷ spi_executes h
spi_executes (_ ∷ h) = spi_executes h
