-- ===== src/Ddl/Options/Silent.antt =====
-- What `ducklake_set_option` accepts, and what it hands to DuckDB.
use mathlib.Core.List.{append-nil}
use pg_ducklake_next.Base.{
  ℕ, ◌≡◌, refl, String, true, ◌⊎◌, inl, inr, Option, none, some, Bool-cases, Option-cases, arith,
  ◌<>◌,
}
use pg_ducklake_next.Backend.{pg_error, Outcome, returns, raises, Raised, History, raw_queries}
use pg_ducklake_next.Backend.Queries.{raw_queries-append}
use pg_ducklake_next.Ddl.Query.{not_null}
use pg_ducklake_next.Ddl.Options.{OptionArgs, Names, value_str, add_scope, set_option}

module _ (N : Names) where
  -- The arguments that are accepted: the option is named, and is `data_inlining_row_limit` up to
  -- case, and a relation that is given has a name and a namespace.
  abbrev pub IsNamed : Option ℕ → Type 0
  IsNamed none = Unit
  IsNamed (some relid) =
      ((t : String) × (N.get_rel_name relid ≡ some t))
      × ((s : String) × (N.get_namespace_name relid ≡ some s))

  abbrev pub IsSupported : Option String → Type 0
  IsSupported none = ⊥
  IsSupported (some name) = N.same_ignoring_case name "data_inlining_row_limit" ≡ true

  abbrev pub Accepts : OptionArgs → History → Outcome String × History → Type 0
  Accepts args h (returns query, h') =
      IsSupported args.option_name × IsNamed args.scope × (raw_queries h' ≡ raw_queries h)
  Accepts args h (raises r, h') =
      ((IsSupported args.option_name × IsNamed args.scope) → ⊥) × (h' ≡ h)

  add_scope-Named :
      (query : String) (scope : Option ℕ) (h : History)
      → (IsNamed scope × ((q : String) × (add_scope N query scope h ≡ (returns q, h))))
        ⊎ ((IsNamed scope → ⊥) × ((r : Raised) × (add_scope N query scope h ≡ (raises r, h))))
  unfolding add_scope not_null
  add_scope-Named query none h = inl (tt, (query, refl))
  add_scope-Named query (some relid) h = elim (Option-cases (N.get_rel_name relid)) [
    | inl none_rel ↦
        inr ((λ n. ground arith), (pg_error "XX000" "Could not find relation", rw none_rel refl))
    | inr (t, rel) ↦ elim (Option-cases (N.get_namespace_name relid)) [
      | inl none_ns ↦ inr (
        (λ n. ground arith),
        (pg_error "XX000" "Could not find namespace for relation", rw (rel, none_ns) refl),
      )
      | inr (s, ns) ↦ inl (
        ((t, rel), (s, ns)),
        (
          query <> (", table_name => " <> N.write_quoted t) <> (", schema => " <> N.write_quoted s),
          rw (rel, ns) refl,
        ),
      )
    ]
  ]

  -- `ducklake_set_option` returns just if the option is `data_inlining_row_limit` up to case and
  -- its scope, if any, is a relation with a name and a namespace, and raises an error otherwise. It
  -- hands DuckDB nothing in either case.
  pub set_option-Accepts : (args : OptionArgs) (h : History) → Accepts args h (set_option N args h)
  unfolding set_option not_null add_scope
  set_option-Accepts args h = elim (Option-cases args.option_name) [
    | inl null ↦ rw null ((λ s. s.0), refl)
    | inr (name, named) ↦ elim (Bool-cases (N.same_ignoring_case name "data_inlining_row_limit")) [
      | inr other ↦ rw (named, other) ((λ s. ground arith), refl)
      | inl same ↦
          elim (add_scope-Named
            ("CALL pgducklake.set_option("
              <> N.write_quoted name
              <> ", "
              <> value_str N args.value_type args.value)
            args.scope h) [
              | inl (scoped, (q, built)) ↦
                  rw (named, same, built) (same, scoped, simp (raw_queries-append, append-nil))
              | inr (unnamed, (r, failed)) ↦ rw (named, same, failed) ((λ s. unnamed s.1), refl)
            ]
    ]
  ]
