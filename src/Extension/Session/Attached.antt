-- ===== src/Extension/Session/Attached.antt =====
-- Which DuckDB instances have the DuckLake catalog.
use mathlib.Core.List.{append_assoc, append-nil}
use pg_ducklake_next.Base.{
  ℕ, ◌≡◌, refl, sym, ap, ◌∙◌, subst, String, Bool, true, false, List, [], ◌∷◌, ◌++◌, All,
}
use pg_ducklake_next.Backend.{
  duckdb_query, load_ducklake_extension, register_metadata_manager, create_directory, Outcome,
  returns, raises, History, Run, continue,
}
use pg_ducklake_next.Extension.{ExtensionEnv, attach_query, load_extension}
use pg_ducklake_next.Extension.Attach.{effects, before_attach, Attaches, load_extension-Attaches}
use pg_ducklake_next.Extension.Session.{
  LoadExtension, ducklake_load_extension, other_load_extension, PgDuckDb, Instance, Process,
  init_extension, pg_init, am_handler, run_load_extensions, Step, load_library, load_other_library,
  call_handler, create_instance, fail_instance, Reach, here, next, new_process,
}

-- The texts that were handed to a new instance, in order.
abbrev pub duckdb_queries : History → List String
duckdb_queries [] = []
duckdb_queries (duckdb_query q ∷ h) = q ∷ duckdb_queries h
duckdb_queries (_ ∷ h) = duckdb_queries h

duckdb_queries-append :
    (h k : History) → duckdb_queries (h ++ k) ≡ duckdb_queries h ++ duckdb_queries k
duckdb_queries-append [] k = refl
duckdb_queries-append (duckdb_query q ∷ h) k =
    ap (λ (qs : List String). q ∷ qs) (duckdb_queries-append h k)
duckdb_queries-append (c ∷ h) k = duckdb_queries-append h k

duckdb_queries-effects : (h : History) → duckdb_queries (effects h) ≡ duckdb_queries h
duckdb_queries-effects [] = refl
duckdb_queries-effects (duckdb_query q ∷ h) =
    ap (λ (qs : List String). q ∷ qs) (duckdb_queries-effects h)
duckdb_queries-effects (load_ducklake_extension ∷ h) = duckdb_queries-effects h
duckdb_queries-effects (register_metadata_manager n ∷ h) = duckdb_queries-effects h
duckdb_queries-effects (create_directory d ∷ h) = duckdb_queries-effects h
duckdb_queries-effects (c ∷ h) = duckdb_queries-effects h

module _ (X : ExtensionEnv) where
  -- The texts that a registered function hands to an instance.
  abbrev attaches_of : List LoadExtension → List String
  attaches_of [] = []
  attaches_of (ducklake_load_extension ∷ fs) = attach_query X ∷ attaches_of fs
  attaches_of (other_load_extension n ∷ fs) = attaches_of fs

  attaches_of-append :
      (fs gs : List LoadExtension) → attaches_of (fs ++ gs) ≡ attaches_of fs ++ attaches_of gs
  attaches_of-append [] gs = refl
  attaches_of-append (ducklake_load_extension ∷ fs) gs =
      ap (λ (qs : List String). attach_query X ∷ qs) (attaches_of-append fs gs)
  attaches_of-append (other_load_extension n ∷ fs) gs = attaches_of-append fs gs

  effects-duckdb_queries :
      (creating : Bool) (h h' : History)
      → effects h' ≡ effects h ++ before_attach X creating ++ duckdb_query (attach_query X) ∷ []
      → duckdb_queries h' ≡ duckdb_queries h ++ attach_query X ∷ []
  effects-duckdb_queries true h h' e =
      sym (duckdb_queries-effects h')
      ∙ ap duckdb_queries e
      ∙ simp (duckdb_queries-append, duckdb_queries-effects, append_assoc)
  effects-duckdb_queries false h h' e =
      sym (duckdb_queries-effects h')
      ∙ ap duckdb_queries e
      ∙ simp (duckdb_queries-append, duckdb_queries-effects, append_assoc)

  -- If the run returns, it has handed these texts to the instance.
  abbrev Hands : History → List String → Outcome (Unit {0}) × History → Type 0
  Hands h qs (returns u, h') = duckdb_queries h' ≡ duckdb_queries h ++ qs
  Hands h qs (raises r, h') = Unit

  Hands-after :
      (h k : History) (qs rs : List String)
      → duckdb_queries k ≡ duckdb_queries h ++ qs
      → (x : Outcome (Unit {0}) × History) → Hands k rs x
      → Hands h (qs ++ rs) x
  Hands-after h k qs rs e (raises r, h') d = tt
  Hands-after h k qs rs e (returns u, h') d =
      d ∙ ap (λ (ts : List String). ts ++ rs) e ∙ append_assoc (duckdb_queries h) qs rs

  Hands-then :
      (h : History) (qs rs : List String) (x : Outcome (Unit {0}) × History)
      (f : Unit {0} → Run (Unit {0}))
      → Hands h qs x
      → Hands x.1 rs (f tt x.1)
      → Hands h (qs ++ rs) (continue x.0 f x.1)
  Hands-then h qs rs (raises r, k) f e later = tt
  Hands-then h qs rs (returns u, k) f e later = Hands-after h k qs rs e (f tt k) later

  Attaches-Hands :
      (creating : Bool) (h : History) (x : Outcome (Unit {0}) × History)
      → Attaches X creating h x
      → Hands h (attach_query X ∷ []) x
  Attaches-Hands creating h (returns u, h') e = effects-duckdb_queries creating h h' e
  Attaches-Hands creating h (raises r, h') e = tt

  -- pg_duckdb appends to its registry, and the other extensions' functions do not use this
  -- extension's way to DuckDB.
  pub record IsPgDuckDb (H : PgDuckDb) : Type 0 where
    pub register_load_extension :
        (fs : List LoadExtension) (f : LoadExtension)
        → H.register_load_extension fs f ≡ fs ++ f ∷ []
    pub run_other :
        (n : ℕ) (creating : Bool) (h : History)
        → duckdb_queries (H.run_other n creating h).1 ≡ duckdb_queries h

  -- The catalog was attached to the instance once if the library was there, and else not at all.
  abbrev pub attaches : Bool → List String
  attaches true = attach_query X ∷ []
  attaches false = []

  abbrev pub IsAttached : Instance → Type 0
  IsAttached i = duckdb_queries i.after ≡ duckdb_queries i.before ++ attaches i.library_loaded

  module _ (H : PgDuckDb) (o : IsPgDuckDb H) where
    other-Hands :
        (h : History) (x : Outcome (Unit {0}) × History)
        → duckdb_queries x.1 ≡ duckdb_queries h
        → Hands h [] x
    other-Hands h (returns u, h') e = e ∙ sym (append-nil (duckdb_queries h))
    other-Hands h (raises r, h') e = tt

    run_load_extensions-Hands :
        (creating : Bool) (fs : List LoadExtension) (h : History)
        → Hands h (attaches_of fs) (run_load_extensions H X creating fs h)
    unfolding run_load_extensions
    run_load_extensions-Hands creating [] h = sym (append-nil (duckdb_queries h))
    run_load_extensions-Hands creating (ducklake_load_extension ∷ fs) h =
        let x = load_extension X creating h in
        Hands-then h (attach_query X ∷ []) (attaches_of fs) x _
          (Attaches-Hands creating h x (load_extension-Attaches X creating h))
          (run_load_extensions-Hands creating fs x.1)
    run_load_extensions-Hands creating (other_load_extension n ∷ fs) h =
        let x = H.run_other n creating h in
        Hands-then h [] (attaches_of fs) x _ (other-Hands h x (o.run_other n creating h))
          (run_load_extensions-Hands creating fs x.1)

    record Inv (p : Process) : Type 0 where
      registered : attaches_of p.load_extensions ≡ attaches p.library_loaded
      instances : All IsAttached p.instances

    register-attaches_of :
        (fs : List LoadExtension) (f : LoadExtension)
        → attaches_of (H.register_load_extension fs f) ≡ attaches_of fs ++ attaches_of (f ∷ [])
    register-attaches_of fs f =
        ap attaches_of (o.register_load_extension fs f) ∙ attaches_of-append fs (f ∷ [])

    Step-Inv : (p q : Process) → Inv p → Step H X p q → Inv q
    unfolding pg_init init_extension am_handler
    Step-Inv p q v (load_library absent e) = rw e (record {
      registered =
          register-attaches_of p.load_extensions ducklake_load_extension
          ∙ ap (λ (ts : List String). ts ++ attach_query X ∷ [])
              (v.registered ∙ ap attaches absent);
      instances = v.instances;
    })
    Step-Inv p q v (load_other_library n e) = rw e (record {
      registered =
          register-attaches_of p.load_extensions (other_load_extension n)
          ∙ append-nil (attaches_of p.load_extensions)
          ∙ v.registered;
      instances = v.instances;
    })
    Step-Inv p q v (call_handler there e) =
        rw e (record { registered = v.registered; instances = v.instances })
    Step-Inv p q v (create_instance creating h run e) = rw e (record {
      registered = v.registered;
      instances = (
        subst (Hands p.history (attaches_of p.load_extensions)) run
              (run_load_extensions-Hands creating p.load_extensions p.history)
            ∙ ap (λ (ts : List String). duckdb_queries p.history ++ ts) v.registered,
        v.instances,
      );
    })
    Step-Inv p q v (fail_instance creating r h run e) =
        rw e (record { registered = v.registered; instances = v.instances })

    Reach-Inv : (p q : Process) → Inv p → Reach H X p q → Inv q
    Reach-Inv p q v here = v
    Reach-Inv p q v (next {q = m} reach step) = Step-Inv m q (Reach-Inv p m v reach) step

    -- In every backend that can come about, each DuckDB instance that was created without an error
    -- has had the catalog attached exactly once if the library was loaded before, and not at all if
    -- it was not: whatever the order in which libraries are loaded, the handler is called and
    -- instances are created.
    pub Reach-IsAttached : (p : Process) → Reach H X new_process p → All IsAttached p.instances
    Reach-IsAttached p reach =
        (Reach-Inv new_process p (record { registered = refl; instances = tt }) reach).instances
