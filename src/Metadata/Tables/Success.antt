-- ===== src/Metadata/Tables/Success.antt =====
-- When the loop over the table rows succeeds.
use mathlib.Core.List.{reverse}
use pg_ducklake_next.Base.{
  ℕ, ◌≤◌, ◌<◌, ◌≡◌, refl, subst, sym, ap, ◌∙◌, ◌||◌, Option, none, some, List, [], ◌∷◌, ◌++◌, All,
  All-map, All-append, Any-All, arith, true, false, Bool-cases, ◌==◌, inl, inr,
}
use pg_ducklake_next.Base.Result.{ok, fold_result_total}
use pg_ducklake_next.Metadata.Columns.{ColumnInfo, Columns, push_back, add_child_column}
use pg_ducklake_next.Metadata.Columns.Entries.{
  has_id, has_id-push_back, has_id-add_child_column, found-add_child_column,
}
use pg_ducklake_next.Metadata.Values.{DuckDb}
use pg_ducklake_next.Metadata.Schemas.{Schemas}
use pg_ducklake_next.Metadata.Tables.{
  TableRow, TableInfo, starts_table, place_column, column_of_row, new_table, add_column,
  begin_table, add_table_row, load_tables,
}
use pg_ducklake_next.Metadata.Tables.Lossless.{new_table-fresh, column_of_row-id}
use pg_ducklake_next.Metadata.Tables.Groups.{IsOrdered, row_le}
use pg_ducklake_next.Metadata.Tables.Parents.{
  IsColumn, HasParents, IsBelowParent, ParentsFirst, parents_first,
}

-- The row has been loaded: it is of the last table or of one with a smaller id, and if it is of the
-- last table then its column is in that table's tree.
abbrev IsLoaded : {V : Type 0} → List TableInfo → TableRow V → Type 0
IsLoaded [] q = ⊥
IsLoaded (back ∷ older) q =
    (q.table_id ≤ back.id)
    × ((id : ℕ) → q.table_id ≡ back.id → q.column_id ≡ some id → has_id back.columns id ≡ true)

-- The last table is not behind the row.
abbrev NotBehind : {V : Type 0} → List TableInfo → TableRow V → Type 0
NotBehind [] r = Unit
NotBehind (back ∷ older) r = back.id ≤ r.table_id

IsLoaded-new :
    {V : Type 0} (tables : List TableInfo) (t : TableInfo) (r q : TableRow V)
    → starts_table tables r.table_id ≡ true
    → t.id ≡ r.table_id
    → NotBehind tables r
    → IsLoaded tables q
    → IsLoaded (t ∷ tables) q
unfolding starts_table
IsLoaded-new [] t r q new same le l = absurd l
IsLoaded-new (back ∷ older) t r q new same le l =
    let lt : back.id < r.table_id = ground arith in
    (omega (arith, l.0), λ id e _. absurd (omega (arith, l.0)))

-- A column joins the last table: below a parent that is there, or at the top.
place_column-present :
    (t : TableInfo) (parent : Option ℕ) (c : ColumnInfo)
    → ((p : ℕ) → parent ≡ some p → has_id t.columns p ≡ true)
    → (t' : TableInfo) × (place_column t parent c ≡ ok t')
      × (t'.id ≡ t.id)
      × ((id : ℕ) → has_id t'.columns id ≡ (c.id == id || has_id t.columns id))
unfolding place_column
place_column-present t none c h = (
  record t { columns = push_back t.columns c },
  refl,
  refl,
  λ id. has_id-push_back t.columns c id,
)
place_column-present t (some p) c h =
    let present = h p refl in
    (
      record t { columns = (add_child_column t.columns p c).0 },
      rw (found-add_child_column t.columns p c, present) refl,
      refl,
      λ id. has_id-add_child_column t.columns p c id present,
    )

-- A row that begins no table is one of the last table.
pub last_table :
    (tables : List TableInfo) (table_id : ℕ)
    → starts_table tables table_id ≡ false
    → (back : TableInfo) × (older : List TableInfo) × (tables ≡ back ∷ older) × (back.id ≡ table_id)
unfolding starts_table
last_table [] table_id h = cc
last_table (back ∷ older) table_id h = (back, older, refl, ground arith)

-- The other rows stay loaded, and the new one is.
IsLoaded-place :
    {V : Type 0} (back back' : TableInfo) (older : List TableInfo) (c : ColumnInfo) (q : TableRow V)
    → back'.id ≡ back.id
    → ((id : ℕ) → has_id back'.columns id ≡ (c.id == id || has_id back.columns id))
    → IsLoaded (back ∷ older) q
    → IsLoaded (back' ∷ older) q
IsLoaded-place back back' older c q same ids l =
    (omega (arith, l.0), λ id e f. let old = l.1 id (e ∙ same) f in ground (arith, ids id))

IsLoaded-placed :
    {V : Type 0} (back' : TableInfo) (older : List TableInfo) (c : ColumnInfo) (cs : Columns)
    (r : TableRow V)
    → back'.id ≡ r.table_id
    → r.column_id ≡ some c.id
    → ((id : ℕ) → has_id back'.columns id ≡ (c.id == id || has_id cs id))
    → IsLoaded (back' ∷ older) r
IsLoaded-placed back' older c cs r same described ids =
    (omega arith, λ id e f. ground (arith, ids id))

module _ (D : DuckDb) (schemas : Schemas) where
  -- What a row needs by itself: its tags can be read and its schema is known, so that its table
  -- could be begun, and it describes a column.
  abbrev pub Loads : TableRow D.Value → Type 0
  Loads r =
      (t : TableInfo) × (id : ℕ) × (c : ColumnInfo) × (new_table D schemas r ≡ ok t)
      × (r.column_id ≡ some id)
      × (column_of_row D r id ≡ ok c)

  begin_table-total :
      (done : List (TableRow D.Value)) (row : TableRow D.Value) (tables : List TableInfo)
      → All (IsLoaded tables) done
      → NotBehind tables row
      → Loads row
      → (back : TableInfo) × (older : List TableInfo) × (begin_table D schemas tables row
          ≡ ok (back ∷ older))
        × (back.id ≡ row.table_id)
        × All (IsLoaded (back ∷ older)) done
  unfolding begin_table
  begin_table-total done row tables l le (t, id, c, made, _, _) =
      let (same, _) = new_table-fresh D schemas row t made in
      elim (Bool-cases (starts_table tables row.table_id)) [
        | inl new ↦ (
          t,
          tables,
          rw (new, made) refl,
          same,
          All-map done (λ q lq. IsLoaded-new tables t row q new same le lq) l,
        )
        | inr old ↦
            let (back, older, shape, here) = last_table tables row.table_id old in
            (back, older, rw old (ap ok shape), here, subst (λ ts. All (IsLoaded ts) done) shape l)
      ]

  add_column-total :
      (done : List (TableRow D.Value)) (row : TableRow D.Value) (back : TableInfo)
      (older : List TableInfo)
      → All (IsLoaded (back ∷ older)) done
      → back.id ≡ row.table_id
      → Loads row
      → HasParents done row
      → (back' : TableInfo) × (add_column D (back ∷ older) row ≡ ok (back' ∷ older))
        × (back'.id ≡ row.table_id)
        × All (IsLoaded (back' ∷ older)) (done ++ row ∷ [])
  unfolding add_column
  add_column-total done row back older l same (t, id, c, _, described, loaded) parents =
      let here = λ (p : ℕ) (e : row.parent_column ≡ some p).
        let (q, (t, e'), lq) =
          Any-All {P = IsColumn row.table_id p} {Q = IsLoaded (back ∷ older)} done (parents p e)
            l in
        lq.1 p (t ∙ sym same) e' in
      let (back', placed, kept, ids) = place_column-present back row.parent_column c here in
      let described' : row.column_id ≡ some c.id =
        rw (column_of_row-id D row id c loaded) described in
      (
        back',
        rw (described, loaded, placed) refl,
        kept ∙ same,
        All-append (IsLoaded (back' ∷ older)) done (row ∷ [])
            (All-map done (λ q lq. IsLoaded-place back back' older c q kept ids lq) l)
            (IsLoaded-placed back' older c back.columns row (kept ∙ same) described' ids, tt),
      )

  -- What holds before each round.
  abbrev Ready : List (TableRow D.Value) → List (TableRow D.Value) → List TableInfo → Type 0
  Ready done rest tables =
      All (IsLoaded tables) done
      × All (NotBehind tables) rest
      × IsOrdered rest
      × All Loads rest
      × ParentsFirst done rest

  add_table_row-Ready :
      (done : List (TableRow D.Value)) (row : TableRow D.Value) (rest : List (TableRow D.Value))
      (tables : List TableInfo)
      → Ready done (row ∷ rest) tables
      → (tables' : List TableInfo) × (add_table_row D schemas tables row ≡ ok tables')
        × Ready (done ++ row ∷ []) rest tables'
  unfolding add_table_row
  add_table_row-Ready done row rest tables (l, le, o, loads, parents) =
      let (back, older, begun, same, l') = begin_table-total done row tables l le.0 loads.0 in
      let (back', added, same', l'') =
        add_column-total done row back older l' same loads.0 parents.0 in
      (
        back' ∷ older,
        rw (begun, added) refl,
        (l'', All-map rest (λ r rle. rw same' (row_le row r rle)) o.0, o.1, loads.1, parents.1),
      )

  NotBehind-nil : (rows : List (TableRow D.Value)) → All (NotBehind []) rows
  NotBehind-nil [] = tt
  NotBehind-nil (r ∷ rows) = (tt, NotBehind-nil rows)

  -- From rows in the order of ORDER BY the loop does not throw, if every row can be loaded by
  -- itself (its tags can be read, its schema is known, it describes a column), every parent named
  -- by a row has a row in the same table, anywhere among the rows, and nested columns have larger
  -- ids than their parents.
  pub load_tables-succeeds :
      (rows : List (TableRow D.Value))
      → IsOrdered rows
      → All Loads rows
      → All (HasParents rows) rows
      → All IsBelowParent rows
      → (tables : List TableInfo) × (load_tables D schemas rows ≡ ok tables)
  unfolding load_tables
  load_tables-succeeds rows o loads parents below =
      let (tables, loaded, _) =
        fold_result_total (add_table_row D schemas) Ready add_table_row-Ready [] rows []
          (tt, NotBehind-nil rows, o, loads, parents_first [] rows o below parents) in
      (reverse tables, rw loaded refl)
