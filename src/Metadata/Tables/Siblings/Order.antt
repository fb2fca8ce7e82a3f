-- ===== src/Metadata/Tables/Siblings/Order.antt =====
-- The order of the columns that the loaded tables have below one parent, against the rows.
use mathlib.Core.List.{reverse}
use pg_ducklake_next.Base.{
  ℕ, ◌≡◌, refl, sym, ap, ◌∙◌, subst, true, false, ◌==◌, Option, some, List, [], ◌∷◌, ◌++◌, All,
  All-map, Any, Any-All, Any-append_left, Any-append_right, Bool-cases, Option-cases, inl, inr,
  ==_iff, arith,
}
use pg_ducklake_next.Base.Result.{ok, >>=-eq-ok, ok-injective, fold_result, fold_result_inv}
use pg_ducklake_next.Metadata.Columns.{ColumnInfo}
use pg_ducklake_next.Metadata.Columns.Entries.{entries, has_id}
use pg_ducklake_next.Metadata.Columns.Distinct.{IsDistinct}
use pg_ducklake_next.Metadata.Values.{DuckDb}
use pg_ducklake_next.Metadata.Schemas.{Schemas}
use pg_ducklake_next.Metadata.Tables.{
  TableRow, TableInfo, starts_table, place_column, column_of_row, add_column, begin_table,
  add_table_row, load_tables,
}
use pg_ducklake_next.Metadata.Tables.Collected.{TableEntry, all_entries}
use pg_ducklake_next.Metadata.Tables.Lossless.{
  entry_of_row, row_entries, row_entries-append, begin_table-new, begin_table-old, column_of_row-id,
}
use pg_ducklake_next.Metadata.Tables.Parents.{IsColumn}
use pg_ducklake_next.Metadata.Tables.Success.{last_table}
use pg_ducklake_next.Metadata.Tables.Siblings.{
  children_of, children_of-append, Differ, IsUnique, IsUnique-last,
}
use pg_ducklake_next.Metadata.Tables.Siblings.Placed.{
  Placed, place_column-Placed, unless_nil, children_of-last, children_of-Placed,
}

-- The ids in a table's tree are those of its rows, each once.
abbrev IsFaithful : {V : Type 0} → List (TableRow V) → TableInfo → Type 0
IsFaithful done t =
    IsDistinct t.columns × ((id : ℕ) → has_id t.columns id ≡ true → Any (IsColumn t.id id) done)

module _ (D : DuckDb) where
  begin_table-IsFaithful :
      (schemas : Schemas) (done : List (TableRow D.Value)) (row : TableRow D.Value)
      (tables begun : List TableInfo)
      → All (IsFaithful done) tables
      → begin_table D schemas tables row ≡ ok begun
      → (back : TableInfo) × (older : List TableInfo) × (begun ≡ back ∷ older)
        × (back.id ≡ row.table_id)
        × ((id : ℕ) (q : Option ℕ)
            → children_of id q (all_entries (reverse (back ∷ older)))
              ≡ children_of id q (all_entries (reverse tables)))
        × All (IsFaithful done) (back ∷ older)
  unfolding entries has_id
  begin_table-IsFaithful schemas done row tables begun f h =
      elim (Bool-cases (starts_table tables row.table_id)) [
        | inl new ↦
            let (t, shape, same, empty) = begin_table-new D schemas tables begun row new h in
            (
              t,
              tables,
              shape,
              same,
              (λ id q.
                  children_of-last D t tables id q
                  ∙ rw empty
                      (unless_nil (children_of id q (all_entries (reverse tables))) (t.id == id))),
              (rw empty (tt, λ id k. cc), f),
            )
        | inr old ↦
            let (back, older, shape, here) = last_table tables row.table_id old in
            (
              back,
              older,
              begin_table-old D schemas tables begun row old h ∙ shape,
              here,
              (λ id q. rw shape refl),
              rw shape at f,
            )
      ]

  IsFaithful-later :
      (done : List (TableRow D.Value)) (row : TableRow D.Value) (t : TableInfo)
      → IsFaithful done t
      → IsFaithful (done ++ row ∷ []) t
  IsFaithful-later done row t f =
      (f.0, λ id h. Any-append_left (IsColumn t.id id) done (row ∷ []) (f.1 id h))

  -- A row that no earlier row shares its column with describes a new column of its table.
  fresh_column :
      (done : List (TableRow D.Value)) (row : TableRow D.Value) (back : TableInfo) (c : ColumnInfo)
      → All (λ r. Differ r row) done
      → back.id ≡ row.table_id
      → IsFaithful done back
      → row.column_id ≡ some c.id
      → has_id back.columns c.id ≡ false
  fresh_column done row back c differ same f described =
      elim (Bool-cases (has_id back.columns c.id)) [
        | inr new ↦ new
        | inl there ↦
            let (q, column, apart) =
              Any-All {P = IsColumn back.id c.id} {Q = λ r. Differ r row} done (f.1 c.id there)
                differ in
            absurd (apart c.id column.1 (sym same ∙ sym column.0, described))
      ]

  IsFaithful-Placed :
      (done : List (TableRow D.Value)) (row : TableRow D.Value) (back back' : TableInfo)
      (c : ColumnInfo) (parent : Option ℕ)
      → back.id ≡ row.table_id
      → row.column_id ≡ some c.id
      → IsFaithful done back
      → Placed back back' parent c
      → IsFaithful (done ++ row ∷ []) back'
  IsFaithful-Placed done row back back' c parent same described f p = (
    p.distinct,
    λ id h. rw p.id (elim (Bool-cases (c.id == id)) [
      | inl new ↦
          let e : c.id ≡ id = (==_iff c.id id).0 new in
          Any-append_right (IsColumn back.id id) done (row ∷ [])
            (inl (sym same, described ∙ ap some e))
      | inr old ↦
          let there : has_id back.columns id ≡ true = rw (p.has id, old) at h in
          Any-append_left (IsColumn back.id id) done (row ∷ []) (f.1 id there)
    ]),
  )

  -- What holds after the rows `done`, if no column has two of them.
  Kept : List (TableRow D.Value) → List TableInfo → Type 0
  Kept done tables =
      IsUnique done
      → (es : List TableEntry) × (row_entries D done ≡ ok es)
        × ((id : ℕ) (q : Option ℕ)
            → children_of id q (all_entries (reverse tables)) ≡ children_of id q es)
        × All (IsFaithful done) tables

  add_column-Kept :
      (done : List (TableRow D.Value)) (row : TableRow D.Value) (back : TableInfo)
      (older tables : List TableInfo)
      → All (λ r. Differ r row) done
      → back.id ≡ row.table_id
      → All (IsFaithful done) (back ∷ older)
      → add_column D (back ∷ older) row ≡ ok tables
      → (e : TableEntry) × (entry_of_row D row ≡ ok e)
        × ((id : ℕ) (q : Option ℕ)
            → children_of id q (all_entries (reverse tables))
              ≡ children_of id q (all_entries (reverse (back ∷ older)))
                ++ children_of id q (e ∷ []))
        × All (IsFaithful (done ++ row ∷ [])) tables
  unfolding add_column
  add_column-Kept done row back older tables differ same f h = elim (Option-cases row.column_id) [
    | inl absent ↦ ground arith
    | inr (id, present) ↦
        let (c, loaded, rest) = >>=-eq-ok (column_of_row D row id) _ (rw present at h) in
        let (back', placed, added) = >>=-eq-ok (place_column back row.parent_column c) _ rest in
        let its_id : c.id ≡ id = column_of_row-id D row id c loaded in
        let described : row.column_id ≡ some c.id = rw its_id present in
        let p =
          place_column-Placed back back' row.parent_column c f.0.0
            (fresh_column done row back c differ same f.0 described) placed in
        (
          (row.table_id, (row.parent_column, c)),
          rw (present, loaded) refl,
          (λ i q.
              subst
                (λ ts.
                  children_of i q (all_entries (reverse ts))
                  ≡ children_of i q (all_entries (reverse (back ∷ older)))
                    ++ children_of i q ((row.table_id, (row.parent_column, c)) ∷ []))
                (ok-injective added)
                (subst
                  (λ t.
                    children_of i q (all_entries (reverse (back' ∷ older)))
                    ≡ children_of i q (all_entries (reverse (back ∷ older)))
                      ++ children_of i q ((t, (row.parent_column, c)) ∷ []))
                  same (children_of-Placed D back back' older row.parent_column c i q p))),
          subst (All (IsFaithful (done ++ row ∷ []))) (ok-injective added) (
            IsFaithful-Placed done row back back' c row.parent_column same described f.0 p,
            All-map older (IsFaithful-later done row) f.1,
          ),
        )
  ]

  add_table_row-Kept :
      (schemas : Schemas) (done : List (TableRow D.Value)) (row : TableRow D.Value)
      (tables tables' : List TableInfo)
      → Kept done tables
      → add_table_row D schemas tables row ≡ ok tables'
      → Kept (done ++ row ∷ []) tables'
  unfolding add_table_row Kept
  add_table_row-Kept schemas done row tables tables' kept h unique =
      let (earlier, differ) = IsUnique-last done row unique in
      let (es, alone, below, f) = kept earlier in
      let (begun, began, added) = >>=-eq-ok (begin_table D schemas tables row) _ h in
      let (back, older, shape, same, level, f') =
        begin_table-IsFaithful schemas done row tables begun f began in
      let (e, single, last, f'') =
        add_column-Kept done row back older tables' differ same f' (rw shape at added) in
      (
        es ++ e ∷ [],
        row_entries-append D done row es e alone single,
        (λ id q.
            last id q
            ∙ ap (λ l. l ++ children_of id q (e ∷ [])) (level id q ∙ below id q)
            ∙ sym (children_of-append id q es (e ∷ []))),
        f'',
      )

  -- If no two rows describe the same column of a table and the loop over the rows does not throw,
  -- then below each parent of each table, and at its top, the loaded tables have exactly the
  -- columns of the rows that name it, in row order.
  pub load_tables-children_of :
      (schemas : Schemas) (rows : List (TableRow D.Value)) (tables : List TableInfo)
      → IsUnique rows
      → load_tables D schemas rows ≡ ok tables
      → (es : List TableEntry) × (row_entries D rows ≡ ok es)
        × ((id : ℕ) (parent : Option ℕ)
            → children_of id parent (all_entries tables) ≡ children_of id parent es)
  unfolding load_tables Kept
  load_tables-children_of schemas rows tables unique h =
      let (reversed, loaded, turned) =
        >>=-eq-ok (fold_result (add_table_row D schemas) [] rows) _ h in
      let (es, alone, below, _) =
        fold_result_inv (add_table_row D schemas) Kept (add_table_row-Kept schemas) [] rows []
          reversed (λ u. ([], refl, (λ id q. refl), tt)) loaded unique in
      (
        es,
        alone,
        λ id parent.
            subst (λ l. children_of id parent (all_entries l) ≡ children_of id parent es)
              (ok-injective turned) (below id parent),
      )
