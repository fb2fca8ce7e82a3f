-- ===== src/Metadata/Tables/Lossless.antt =====
-- The columns of all loaded tables, as a collection, against the rows that they are loaded from.
use mathlib.Core.List.{
  Perm, reverse, reverse-cons, append_assoc, append-nil, perm_append_singleton, perm_append_comm,
}
use mathlib.Core.List.Perm
use pg_ducklake_next.Base.{
  ℕ, ◌≡◌, refl, subst, sym, true, false, none, some, List, [], ◌∷◌, ◌++◌, arith, Bool-cases, inl,
  inr, Option-cases,
}
use pg_ducklake_next.Base.Result.{
  Result, ok, err, ◌>>=◌, >>=-eq-ok, ok-injective, fold_result, fold_result_inv,
}
use pg_ducklake_next.Metadata.Columns.{ColumnInfo, nil}
use pg_ducklake_next.Metadata.Columns.Entries.{entries}
use pg_ducklake_next.Metadata.Values.{Exception, no_columns, DuckDb}
use pg_ducklake_next.Metadata.Schemas.{Schemas}
use pg_ducklake_next.Metadata.Tables.{
  TableRow, TableInfo, column_of_row, new_table, starts_table, place_column, add_column,
  begin_table, add_table_row, load_tables,
}
use pg_ducklake_next.Metadata.Tables.Collected.{
  TableEntry, table_entries, all_entries, place_column-entries, table_entries-perm,
}

module _ (D : DuckDb) where
  -- What a row says on its own.
  abbrev pub entry_of_row : TableRow D.Value → Result Exception TableEntry
  entry_of_row row = elim row.column_id [
    | none ↦ err (no_columns row.table_name)
    | some id ↦ (column_of_row D row id >>= λ c. ok (row.table_id, (row.parent_column, c)))
  ]

  -- The entries of all rows, in row order; it fails with the first row that describes no column.
  abbrev pub row_entries : List (TableRow D.Value) → Result Exception (List TableEntry)
  row_entries [] = ok []
  row_entries (row ∷ rows) = entry_of_row row >>= λ e. row_entries rows >>= λ es. ok (e ∷ es)

  add_column-entries :
      (back : TableInfo) (older tables : List TableInfo) (row : TableRow D.Value)
      → back.id ≡ row.table_id
      → add_column D (back ∷ older) row ≡ ok tables
      → (e : TableEntry) × (entry_of_row row ≡ ok e)
        × Perm (all_entries tables) (e ∷ all_entries (back ∷ older))
  unfolding add_column
  add_column-entries back older tables row same h = elim (Option-cases row.column_id) [
    | inl absent ↦ ground arith
    | inr (id, present) ↦
        let (c, loaded, rest) = >>=-eq-ok (column_of_row D row id) _ (rw present at h) in
        let (back', placed, done) = >>=-eq-ok (place_column back row.parent_column c) _ rest in
        let (kept, p) = place_column-entries back back' row.parent_column c placed in
        (
          (row.table_id, (row.parent_column, c)),
          rw (present, loaded) refl,
          subst
              (λ l.
                Perm (all_entries l)
                  ((row.table_id, (row.parent_column, c)) ∷ all_entries (back ∷ older)))
              (ok-injective done)
              (subst
                (λ id.
                  Perm (all_entries (back' ∷ older))
                    ((id, (row.parent_column, c)) ∷ all_entries (back ∷ older)))
                same (table_entries-perm back back' older (row.parent_column, c) kept p)),
        )
  ]

  pub column_of_row-id :
      (row : TableRow D.Value) (id : ℕ) (c : ColumnInfo) → column_of_row D row id ≡ ok c → c.id ≡ id
  unfolding column_of_row
  column_of_row-id row id c h = ground arith

  -- A new table has the row's id and no columns.
  pub new_table-fresh :
      (schemas : Schemas) (row : TableRow D.Value) (t : TableInfo)
      → new_table D schemas row ≡ ok t
      → (t.id ≡ row.table_id) × (t.columns ≡ nil)
  unfolding new_table
  new_table-fresh schemas row t h = ground arith

  -- A row that begins a table adds one with the row's id and no columns.
  pub begin_table-new :
      (schemas : Schemas) (tables tables' : List TableInfo) (row : TableRow D.Value)
      → starts_table tables row.table_id ≡ true
      → begin_table D schemas tables row ≡ ok tables'
      → (t : TableInfo) × (tables' ≡ t ∷ tables) × (t.id ≡ row.table_id) × (t.columns ≡ nil)
  unfolding begin_table
  begin_table-new schemas tables tables' row new h =
      let (t, made, done) = >>=-eq-ok (new_table D schemas row) _ (rw new at h) in
      let (same, empty) = new_table-fresh schemas row t made in
      (t, sym (ok-injective done), same, empty)

  -- A row that does not begin a table leaves the tables as they are.
  pub begin_table-old :
      (schemas : Schemas) (tables tables' : List TableInfo) (row : TableRow D.Value)
      → starts_table tables row.table_id ≡ false
      → begin_table D schemas tables row ≡ ok tables'
      → tables' ≡ tables
  unfolding begin_table
  begin_table-old schemas tables tables' row old h = sym (ok-injective (rw old at h))

  all_entries-new :
      (t : TableInfo) (tables : List TableInfo)
      → t.columns ≡ nil
      → all_entries (t ∷ tables) ≡ all_entries tables
  unfolding entries
  all_entries-new t tables e = rw e refl

  -- After the first half of a round the last table is the row's, and no entry has changed.
  begin_table-back :
      (schemas : Schemas) (tables tables' : List TableInfo) (row : TableRow D.Value)
      → begin_table D schemas tables row ≡ ok tables'
      → (back : TableInfo) × (older : List TableInfo) × (tables' ≡ back ∷ older)
        × (back.id ≡ row.table_id)
        × (all_entries (back ∷ older) ≡ all_entries tables)
  begin_table-back schemas [] tables' row h =
      let (t, e, same, empty) =
        begin_table-new schemas [] tables' row (unfold starts_table in refl) h in
      (t, [], e, same, all_entries-new t [] empty)
  begin_table-back schemas (old ∷ older) tables' row h =
      elim (Bool-cases (starts_table (old ∷ older) row.table_id)) [
        | inl new ↦
            let (t, e, same, empty) = begin_table-new schemas (old ∷ older) tables' row new h in
            (t, old ∷ older, e, same, all_entries-new t (old ∷ older) empty)
        | inr stays ↦ (
          old,
          older,
          begin_table-old schemas (old ∷ older) tables' row stays h,
          unfold starts_table in ground arith,
          refl,
        )
      ]

  add_table_row-entries :
      (schemas : Schemas) (row : TableRow D.Value) (tables tables' : List TableInfo)
      → add_table_row D schemas tables row ≡ ok tables'
      → (e : TableEntry) × (entry_of_row row ≡ ok e)
        × Perm (all_entries tables') (e ∷ all_entries tables)
  unfolding add_table_row
  add_table_row-entries schemas row tables tables' h =
      let (begun, began, added) = >>=-eq-ok (begin_table D schemas tables row) _ h in
      let (back, older, shape, same, kept) = begin_table-back schemas tables begun row began in
      let (e, alone, p) = add_column-entries back older tables' row same (rw shape at added) in
      (e, alone, subst (λ l. Perm (all_entries tables') (e ∷ l)) kept p)

  pub row_entries-append :
      (rows : List (TableRow D.Value)) (row : TableRow D.Value) (es : List TableEntry)
      (e : TableEntry)
      → row_entries rows ≡ ok es
      → entry_of_row row ≡ ok e
      → row_entries (rows ++ row ∷ []) ≡ ok (es ++ e ∷ [])
  row_entries-append [] row es e h k = rw (k, ← ok-injective h) refl
  row_entries-append (r ∷ rows) row es e h k =
      let (first, one, more) = >>=-eq-ok (entry_of_row r) _ h in
      let (others, rest, all) = >>=-eq-ok (row_entries rows) _ more in
      rw (one, row_entries-append rows row others e rest k, ← ok-injective all) refl

  pub all_entries-append :
      (xs ys : List TableInfo) → all_entries (xs ++ ys) ≡ all_entries xs ++ all_entries ys
  all_entries-append [] ys = refl
  all_entries-append (x ∷ xs) ys =
      rw
        (all_entries-append xs ys, append_assoc (table_entries x) (all_entries xs) (all_entries ys))
        refl

  all_entries-reverse : (xs : List TableInfo) → Perm (all_entries (reverse xs)) (all_entries xs)
  all_entries-reverse [] = Perm.refl []
  all_entries-reverse (x ∷ xs) =
      rw (reverse-cons x xs, all_entries-append (reverse xs) (x ∷ []), append-nil (table_entries x))
        (Perm.trans (perm_append_comm (all_entries (reverse xs)) (table_entries x))
          (Perm.append_left (table_entries x) (all_entries-reverse xs)))

  Holds : List (TableRow D.Value) → List TableInfo → Type 0
  Holds rows tables =
      (es : List TableEntry) × (row_entries rows ≡ ok es) × Perm (all_entries tables) es

  add_table_row-Holds :
      (schemas : Schemas) (done : List (TableRow D.Value)) (row : TableRow D.Value)
      (tables tables' : List TableInfo)
      → Holds done tables
      → add_table_row D schemas tables row ≡ ok tables'
      → Holds (done ++ row ∷ []) tables'
  unfolding Holds
  add_table_row-Holds schemas done row tables tables' (es, alone, p) h =
      let (e, single, q) = add_table_row-entries schemas row tables tables' h in
      (
        es ++ e ∷ [],
        row_entries-append done row es e alone single,
        Perm.trans q (Perm.trans (Perm.cons e p) (Perm.symm (perm_append_singleton e es))),
      )

  -- If the loop over any rows does not throw, then each row describes a column, and the columns of
  -- the loaded tables are, up to order, the columns of the rows: as often, each in the table of its
  -- row's id, below the parent that its row names or at the top.
  pub load_tables-lossless :
      (schemas : Schemas) (rows : List (TableRow D.Value)) (tables : List TableInfo)
      → load_tables D schemas rows ≡ ok tables
      → (es : List TableEntry) × (row_entries rows ≡ ok es) × Perm (all_entries tables) es
  unfolding load_tables Holds
  load_tables-lossless schemas rows tables h =
      let (reversed, loaded, turned) =
        >>=-eq-ok (fold_result (add_table_row D schemas) [] rows) _ h in
      let (es, alone, p) =
        fold_result_inv (add_table_row D schemas) Holds (add_table_row-Holds schemas) [] rows []
          reversed ([], refl, Perm.refl []) loaded in
      (
        es,
        alone,
        subst (λ l. Perm (all_entries l) es) (ok-injective turned)
            (Perm.trans (all_entries-reverse reversed) p),
      )
