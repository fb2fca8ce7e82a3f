-- ===== src/Metadata/Store/ColumnOrder.antt =====
-- The ORDER BY of the table query down to `column_order`, and the columns below one parent in the
-- catalog.
use mathlib.Core.Option.{some-injective}
use pg_ducklake_next.Base.{
  ℕ, ◌≤◌, ◌≡◌, refl, sym, ap, ◌∙◌, subst, true, ◌&&◌, ◌==◌, if◌then◌else◌, String, Option, none,
  some, List, [], ◌∷◌, map, All, Bool-cases, ==_iff, inl, inr, arith,
}
use pg_ducklake_next.Base.Result.{ok}
use pg_ducklake_next.Metadata.Columns.{ColumnInfo}
use pg_ducklake_next.Metadata.Columns.Siblings.{same_parent}
use pg_ducklake_next.Metadata.Values.{DuckDb}
use pg_ducklake_next.Metadata.Schemas.{Schemas}
use pg_ducklake_next.Metadata.Tables.{TableRow, TableInfo, load_tables}
use pg_ducklake_next.Metadata.Tables.Collected.{TableEntry, all_entries}
use pg_ducklake_next.Metadata.Tables.Siblings.{children_of, Differ, IsUnique}
use pg_ducklake_next.Metadata.Tables.Siblings.Order.{load_tables-children_of}
use pg_ducklake_next.Metadata.Catalog.{Answers, CatalogInfo, get_catalog_for_snapshot}
use pg_ducklake_next.Metadata.Records.{Store, TableRecord, ColumnRecord}
use pg_ducklake_next.Metadata.Store.{Aggregates, row_of_join}
use pg_ducklake_next.Metadata.Store.Keys.{untagged, row_key, row_entries-key}
use pg_ducklake_next.Metadata.Catalog.Loaded.{loaded_tables}

-- A row of the join that has a column.
abbrev pub Joined : Type 0
Joined = TableRecord × ColumnRecord

-- Behind a row: no column with the same parent in the same table has a smaller `column_order`.
abbrev pub OrderLe : Joined → Joined → Type 0
OrderLe (t, c) (u, d) =
    u.table_id ≡ t.table_id
    → same_parent c.parent_column d.parent_column ≡ true
    → c.column_order ≤ d.column_order

abbrev pub IsByColumnOrder : List Joined → Type 0
IsByColumnOrder [] = Unit
IsByColumnOrder (x ∷ xs) = All (OrderLe x) xs × IsByColumnOrder xs

-- Another column, or another table.
abbrev pub IsOther : Joined → Joined → Type 0
IsOther (t, c) (u, d) = u.table_id ≡ t.table_id → d.column_id ≡ c.column_id → ⊥

abbrev pub AreColumnsUnique : List Joined → Type 0
AreColumnsUnique [] = Unit
AreColumnsUnique (x ∷ xs) = All (IsOther x) xs × AreColumnsUnique xs

-- The columns of a table with one parent, or at the top.
abbrev pub columns_below : ℕ → Option ℕ → List Joined → List ColumnRecord
columns_below id parent [] = []
columns_below id parent ((t, c) ∷ joined) =
    let rest = columns_below id parent joined in
    if t.table_id == id && same_parent parent c.parent_column then c ∷ rest else rest

abbrev pub AreAscending : List ColumnRecord → Type 0
AreAscending [] = Unit
AreAscending (c ∷ cs) =
    All (λ (d : ColumnRecord). c.column_order ≤ d.column_order) cs × AreAscending cs

abbrev pub without_tags : ColumnInfo → ColumnInfo
without_tags c = record c { tags = [] }

-- What a column's record says of it.
abbrev pub info_of : ColumnRecord → ColumnInfo
info_of c = record {
  id = c.column_id;
  name = c.column_name;
  column_type = c.column_type;
  initial_default = c.initial_default;
  default_value = c.default_value;
  nulls_allowed = c.nulls_allowed;
  tags = [];
}

children_of-untagged :
    (id : ℕ) (q : Option ℕ) (es : List TableEntry)
    → children_of id q (map untagged es) ≡ map without_tags (children_of id q es)
children_of-untagged id q [] = refl
children_of-untagged id q ((t, (p, c)) ∷ es) = elim (Bool-cases (t == id && same_parent q p)) [
  | inl here ↦ rw (here, children_of-untagged id q es) refl
  | inr elsewhere ↦ rw (elsewhere, children_of-untagged id q es) refl
]

-- Equal parents of one parent are equal parents.
same_parent-both :
    (q a b : Option ℕ) → same_parent q a ≡ true → same_parent q b ≡ true → same_parent a b ≡ true
same_parent-both none none none h k = refl
same_parent-both none none (some b) h k = cc
same_parent-both none (some a) b h k = cc
same_parent-both (some q) none b h k = cc
same_parent-both (some q) (some a) none h k = cc
same_parent-both (some q) (some a) (some b) h k = ground arith

-- The columns behind a row, below its parent.
columns_below-ascending :
    (id : ℕ) (q : Option ℕ) (t : TableRecord) (c : ColumnRecord) (joined : List Joined)
    → t.table_id ≡ id
    → same_parent q c.parent_column ≡ true
    → All (OrderLe (t, c)) joined
    → All (λ (d : ColumnRecord). c.column_order ≤ d.column_order) (columns_below id q joined)
columns_below-ascending id q t c [] e s h = tt
columns_below-ascending id q t c ((u, d) ∷ joined) e s h =
    elim (Bool-cases (u.table_id == id && same_parent q d.parent_column)) [
      | inl here ↦
          let (same_table, below) : ((u.table_id == id) ≡ true)
              × (same_parent q d.parent_column ≡ true) =
            ground arith in
          rw here (
            h.0 ((==_iff u.table_id id).0 same_table ∙ sym e)
                (same_parent-both q c.parent_column d.parent_column s below),
            columns_below-ascending id q t c joined e s h.1,
          )
      | inr elsewhere ↦ rw elsewhere (columns_below-ascending id q t c joined e s h.1)
    ]

columns_below-AreAscending :
    (id : ℕ) (q : Option ℕ) (joined : List Joined)
    → IsByColumnOrder joined
    → AreAscending (columns_below id q joined)
columns_below-AreAscending id q [] h = tt
columns_below-AreAscending id q ((t, c) ∷ joined) h =
    elim (Bool-cases (t.table_id == id && same_parent q c.parent_column)) [
      | inl here ↦
          let (same_table, below) : ((t.table_id == id) ≡ true)
              × (same_parent q c.parent_column ≡ true) =
            ground arith in
          rw here (
            columns_below-ascending id q t c joined ((==_iff t.table_id id).0 same_table) below h.0,
            columns_below-AreAscending id q joined h.1,
          )
      | inr elsewhere ↦ rw elsewhere (columns_below-AreAscending id q joined h.1)
    ]

module _ (D : DuckDb) (G : Aggregates D.Value) (store : Store) (snapshot : ℕ) where
  -- The row of the table query.
  abbrev pub joined_row : Joined → TableRow D.Value
  joined_row (t, c) = row_of_join D.Value G store snapshot t (some c)

  joined_row-Differ :
      (x : Joined) (ys : List Joined)
      → All (IsOther x) ys
      → All (Differ (joined_row x)) (map joined_row ys)
  unfolding row_of_join
  joined_row-Differ x [] h = tt
  joined_row-Differ (t, c) ((u, d) ∷ ys) h =
      ((λ id e k. h.0 k.0 (some-injective _ _ (k.1 ∙ sym e))), joined_row-Differ (t, c) ys h.1)

  joined_row-IsUnique :
      (joined : List Joined) → AreColumnsUnique joined → IsUnique (map joined_row joined)
  joined_row-IsUnique [] h = tt
  joined_row-IsUnique (x ∷ joined) h =
      (joined_row-Differ x joined h.0, joined_row-IsUnique joined h.1)

  children_of-joined_row :
      (id : ℕ) (q : Option ℕ) (joined : List Joined)
      → children_of id q (map (row_key D) (map joined_row joined))
        ≡ map info_of (columns_below id q joined)
  unfolding row_of_join
  children_of-joined_row id q [] = refl
  children_of-joined_row id q ((t, c) ∷ joined) =
      elim (Bool-cases (t.table_id == id && same_parent q c.parent_column)) [
        | inl here ↦ rw (here, children_of-joined_row id q joined) refl
        | inr elsewhere ↦ rw (elsewhere, children_of-joined_row id q joined) refl
      ]

  load_tables-column_order :
      (joined : List Joined)
      → AreColumnsUnique joined
      → (schemas : Schemas) (tables : List TableInfo)
      → load_tables D schemas (map joined_row joined) ≡ ok tables
      → (id : ℕ) (parent : Option ℕ)
      → map without_tags (children_of id parent (all_entries tables))
        ≡ map info_of (columns_below id parent joined)
  load_tables-column_order joined unique schemas tables h id parent =
      let (es, read, below) =
        load_tables-children_of D schemas (map joined_row joined) tables
          (joined_row-IsUnique joined unique) h in
      ap (map without_tags) (below id parent)
      ∙ sym (children_of-untagged id parent es)
      ∙ ap (children_of id parent) (row_entries-key D (map joined_row joined) es read)
      ∙ children_of-joined_row id parent joined

  -- If the table query answers with the rows of pairs of a table and a column of it, in an order
  -- that its ORDER BY allows, no column twice in a table, and `GetCatalogForSnapshot` returns a
  -- catalog, then in the catalog's tables the columns below each parent, and those at the top, are
  -- those of the pairs that name it, with what their records say, in ascending `column_order`.
  pub get_catalog_for_snapshot-column_order :
      (joined : List Joined)
      → IsByColumnOrder joined
      → AreColumnsUnique joined
      → (base_data_path : String) (answers : Answers D.Value) (catalog : CatalogInfo)
      → answers.table_rows ≡ ok (map joined_row joined)
      → get_catalog_for_snapshot D base_data_path answers ≡ ok catalog
      → (id : ℕ) (parent : Option ℕ)
      → (map without_tags (children_of id parent (all_entries catalog.tables))
          ≡ map info_of (columns_below id parent joined))
        × AreAscending (columns_below id parent joined)
  get_catalog_for_snapshot-column_order joined ordered unique base_data_path answers catalog e h id
        parent =
      let (schemas, tables, loaded, same) =
        loaded_tables D base_data_path answers catalog (map joined_row joined) e h in
      (
        subst
            (λ ts.
              map without_tags (children_of id parent (all_entries ts))
              ≡ map info_of (columns_below id parent joined))
            same (load_tables-column_order joined unique schemas tables loaded id parent),
        columns_below-AreAscending id parent joined ordered,
      )
