-- ===== src/Extension/Attach.antt =====
-- When the catalog is attached, and where its data directory is made.
use mathlib.Core.List.{append_assoc}
use pg_ducklake_next.Base.{
  ◌≡◌, refl, ap, ◌<>◌, Bool, true, false, ◌⊎◌, inl, inr, [], ◌∷◌, ◌++◌, Option-cases,
}
use pg_ducklake_next.Backend.{
  load_ducklake_extension, register_metadata_manager, create_directory, duckdb_query, elog, debug1,
  Outcome, returns, raises, History,
}
use pg_ducklake_next.Extension.{
  ExtensionEnv, data_path, attach_query, fail_on, make_directory, load_extension,
}

-- The calls that touch DuckDB or the file system.
abbrev pub effects : History → History
effects [] = []
effects (create_directory path ∷ h) = create_directory path ∷ effects h
effects (duckdb_query q ∷ h) = duckdb_query q ∷ effects h
effects (load_ducklake_extension ∷ h) = load_ducklake_extension ∷ effects h
effects (register_metadata_manager name ∷ h) = register_metadata_manager name ∷ effects h
effects (_ ∷ h) = effects h

pub effects-append : (h k : History) → effects (h ++ k) ≡ effects h ++ effects k
effects-append [] k = refl
effects-append (create_directory path ∷ h) k =
    ap (λ (e : History). create_directory path ∷ e) (effects-append h k)
effects-append (duckdb_query q ∷ h) k =
    ap (λ (e : History). duckdb_query q ∷ e) (effects-append h k)
effects-append (load_ducklake_extension ∷ h) k =
    ap (λ (e : History). load_ducklake_extension ∷ e) (effects-append h k)
effects-append (register_metadata_manager name ∷ h) k =
    ap (λ (e : History). register_metadata_manager name ∷ e) (effects-append h k)
effects-append (c ∷ h) k = effects-append h k

module _ (X : ExtensionEnv) where
  -- What is done before the catalog is attached.
  abbrev pub before_attach : Bool → History
  before_attach true =
      load_ducklake_extension
      ∷ register_metadata_manager "__pgducklake"
      ∷ create_directory (data_path X)
      ∷ []
  before_attach false = load_ducklake_extension ∷ register_metadata_manager "__pgducklake" ∷ []

  abbrev pub Attaches : Bool → History → Outcome (Unit {0}) × History → Type 0
  Attaches creating h (returns u, h') =
      effects h' ≡ effects h ++ before_attach creating ++ duckdb_query (attach_query X) ∷ []
  Attaches creating h (raises r, h') =
      ((creating ≡ true) × (effects h' ≡ effects h ++ before_attach creating))
      ⊎ (effects h' ≡ effects h ++ before_attach creating ++ duckdb_query (attach_query X) ∷ [])

  -- Loading the extension attaches the catalog once, after the DuckLake extension is loaded and the
  -- metadata manager registered, and in CREATE EXTENSION, only there, after the data directory is
  -- made. An error comes from the directory, and then nothing is attached, or from the ATTACH.
  pub load_extension-Attaches :
      (creating : Bool) (h : History) → Attaches creating h (load_extension X creating h)
  unfolding load_extension make_directory fail_on
  load_extension-Attaches false h =
      let k =
        ((((h ++ load_ducklake_extension ∷ []) ++ register_metadata_manager "__pgducklake" ∷ [])
            ++ elog debug1 ("Executing query: " <> attach_query X) ∷ [])
          ++ duckdb_query (attach_query X) ∷ []) in
      elim (Option-cases (X.query_error k)) [
        | inl fine ↦ rw fine (simp (effects-append, append_assoc))
        | inr (what, failed) ↦ rw failed (inr (simp (effects-append, append_assoc)))
      ]
  load_extension-Attaches true h =
      let d =
        ((h ++ load_ducklake_extension ∷ []) ++ register_metadata_manager "__pgducklake" ∷ [])
        ++ create_directory (data_path X) ∷ [] in
      let k =
        (d ++ elog debug1 ("Executing query: " <> attach_query X) ∷ [])
        ++ duckdb_query (attach_query X) ∷ [] in
      elim (Option-cases (X.directory_error d)) [
        | inr (what, failed) ↦ rw failed (inl (refl, simp (effects-append, append_assoc)))
        | inl made ↦ elim (Option-cases (X.query_error k)) [
          | inl fine ↦ rw (made, fine) (simp (effects-append, append_assoc))
          | inr (what, failed) ↦ rw (made, failed) (inr (simp (effects-append, append_assoc)))
        ]
      ]
