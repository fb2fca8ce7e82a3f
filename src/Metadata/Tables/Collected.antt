-- ===== src/Metadata/Tables/Collected.antt =====
-- The columns of all tables as one collection.
use mathlib.Core.List.{Perm, perm_append_singleton}
use mathlib.Core.List.Perm
use pg_ducklake_next.Base.{
  ℕ, ◌≡◌, refl, subst, ◌∙◌, true, Option, none, some, List, [], ◌∷◌, ◌++◌, map, arith, Bool-cases,
  inl, inr,
}
use pg_ducklake_next.Base.Result.{ok, ok-injective}
use pg_ducklake_next.Metadata.Columns.{ColumnInfo, add_child_column}
use pg_ducklake_next.Metadata.Columns.Entries.{
  Entry, entries, entries-push_back, entries-add_child_column, found-add_child_column, has_id,
}
use pg_ducklake_next.Metadata.Tables.{TableInfo, place_column}

-- A column with its table's id and its parent's.
abbrev pub TableEntry : Type 0
TableEntry = ℕ × Entry

abbrev pub table_entries : TableInfo → List TableEntry
table_entries t = map (λ e. (t.id, e)) (entries none t.columns)

abbrev pub all_entries : List TableInfo → List TableEntry
all_entries [] = []
all_entries (t ∷ ts) = table_entries t ++ all_entries ts

-- The column of a row that is placed joins the table's entries, below its parent.
pub place_column-entries :
    (t t' : TableInfo) (parent : Option ℕ) (c : ColumnInfo)
    → place_column t parent c ≡ ok t'
    → (t'.id ≡ t.id) × Perm (entries none t'.columns) ((parent, c) ∷ entries none t.columns)
unfolding place_column
place_column-entries t t' none c h =
    subst
      (λ (x : TableInfo).
        (x.id ≡ t.id) × Perm (entries none x.columns) ((none, c) ∷ entries none t.columns))
      (ok-injective h)
      (
        refl,
        rw (entries-push_back none t.columns c) (perm_append_singleton _ (entries none t.columns)),
      )
place_column-entries t t' (some p) c h = elim (Bool-cases (has_id t.columns p)) [
  | inl present ↦
      let found : (add_child_column t.columns p c).1 ≡ true =
        found-add_child_column t.columns p c ∙ present in
      subst
        (λ (x : TableInfo).
          (x.id ≡ t.id) × Perm (entries none x.columns) ((some p, c) ∷ entries none t.columns))
        (ok-injective (rw found at h)) (refl, entries-add_child_column none t.columns p c present)
  | inr absent ↦ ground (arith, found-add_child_column t.columns p c)
]

-- A permutation of a table's entries is one of the entries of all tables.
pub table_entries-perm :
    (t t' : TableInfo) (older : List TableInfo) (e : Entry)
    → t'.id ≡ t.id
    → Perm (entries none t'.columns) (e ∷ entries none t.columns)
    → Perm (all_entries (t' ∷ older)) ((t.id, e) ∷ all_entries (t ∷ older))
table_entries-perm t t' older e same p =
    let moved : Perm (table_entries t') ((t.id, e) ∷ table_entries t) =
      rw same (Perm.map (λ x. (t.id, x)) p) in
    Perm.append_right (all_entries older) moved
