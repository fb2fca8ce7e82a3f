-- ===== src/Extension/Session.antt =====
-- A backend in which the library is loaded (`_PG_init` of src/pgducklake.cpp), the handler of the
-- access method is called (src/pgducklake_table_am.cpp), and pg_duckdb creates DuckDB instances,
-- for which it calls the registered functions.
pub mod Attached
use pg_ducklake_next.Base.{ℕ, ◌≡◌, String, Bool, true, false, List, [], ◌∷◌}
use pg_ducklake_next.Backend.{Raised, returns, raises, History, Run, pure, ◌>>◌}
use pg_ducklake_next.Extension.{ExtensionEnv, load_extension}

-- A `DuckDBLoadExtension`: this extension's function, or one of another extension.
pub data LoadExtension : Type 0 where
  ducklake_load_extension : LoadExtension
  other_load_extension : ℕ → LoadExtension

-- pg_duckdb's registries, and what the other extensions' functions do.
pub record PgDuckDb : Type 0 where
  pub register_load_extension : List LoadExtension → LoadExtension → List LoadExtension
  pub register_table_am : List String → String → List String
  pub run_other : ℕ → Bool → Run (Unit {0})

-- An instance that was created, with the calls before and behind, and whether the library was
-- there.
pub record Instance : Type 0 where
  pub library_loaded : Bool
  pub before : History
  pub after : History

pub record Process : Type 0 where
  pub library_loaded : Bool
  pub load_extensions : List LoadExtension
  pub table_ams : List String
  pub history : History
  pub instances : List Instance

-- The body of `ducklake_init_extension` is empty.
unfoldable pub init_extension : Process → Process
init_extension p = p

module _ (H : PgDuckDb) (X : ExtensionEnv) where
  -- `_PG_init`
  unfoldable pub pg_init : Process → Process
  unfolding init_extension
  pg_init p =
      let q = init_extension p in
      record q {
        load_extensions = H.register_load_extension q.load_extensions ducklake_load_extension;
      }

  unfoldable pub am_handler : Process → Process
  am_handler p = record p { table_ams = H.register_table_am p.table_ams "pgducklake" }

  -- The registered functions, in order, until one raises.
  unfoldable pub run_load_extensions : Bool → List LoadExtension → Run (Unit {0})
  unfolding load_extension
  run_load_extensions creating [] = pure tt
  run_load_extensions creating (ducklake_load_extension ∷ fs) =
      load_extension X creating >> run_load_extensions creating fs
  run_load_extensions creating (other_load_extension n ∷ fs) =
      H.run_other n creating >> run_load_extensions creating fs

  -- What can happen in a backend.
  pub data Step (p q : Process) : Type 0 where
    load_library :
        p.library_loaded ≡ false → q ≡ record (pg_init p) { library_loaded = true } → Step p q
    load_other_library :
        (n : ℕ)
        → q ≡ record p {
          load_extensions = H.register_load_extension p.load_extensions (other_load_extension n);
        }
        → Step p q
    call_handler : p.library_loaded ≡ true → q ≡ am_handler p → Step p q
    create_instance :
        (creating : Bool) (h : History)
        → run_load_extensions creating p.load_extensions p.history ≡ (returns tt, h)
        → q ≡ record p {
          history = h;
          instances =
              record { library_loaded = p.library_loaded; before = p.history; after = h }
              ∷ p.instances;
        }
        → Step p q
    fail_instance :
        (creating : Bool) (r : Raised) (h : History)
        → run_load_extensions creating p.load_extensions p.history ≡ (raises r, h)
        → q ≡ record p { history = h }
        → Step p q

  pub data Reach (p : Process) : Process → Type 0 where
    here : Reach p p
    next : {q r : Process} → Reach p q → Step q r → Reach p r

-- A new backend.
abbrev pub new_process : Process
new_process = record {
  library_loaded = false;
  load_extensions = [];
  table_ams = [];
  history = [];
  instances = [];
}
