-- ===== src/Metadata/Tables/Groups.antt =====
-- The ids of the tables that the table loop makes from rows in the order of the query's ORDER BY.
use mathlib.Core.List.{reverse, reverse-cons, map-append}
use pg_ducklake_next.Base.{
  ℕ, ◌≤◌, ◌<◌, ◌≡◌, refl, subst, ap, ◌∙◌, ◌⊎◌, Option, none, some, List, [], ◌∷◌, ◌++◌, map, All,
  All-map, All-reverse, All-append, arith, Bool-cases, ◌==◌, inl, inr, if◌then◌else◌,
}
use pg_ducklake_next.Base.Result.{ok, >>=-eq-ok, ok-injective, fold_result}
use pg_ducklake_next.Metadata.Values.{DuckDb}
use pg_ducklake_next.Metadata.Schemas.{Schemas}
use pg_ducklake_next.Metadata.Tables.{
  TableRow, TableInfo, starts_table, add_column, begin_table, add_table_row, load_tables,
}
use pg_ducklake_next.Metadata.Tables.Lossless.{begin_table-new, begin_table-old}

-- NULLS FIRST
abbrev pub NullsFirst : Option ℕ → Option ℕ → Type 0
NullsFirst none b = Unit
NullsFirst (some a) none = ⊥
NullsFirst (some a) (some b) = a ≤ b

-- `ORDER BY table_id, parent_column NULLS FIRST`; the last key, `column_order`, is not used.
abbrev pub RowLe : {V : Type 0} → TableRow V → TableRow V → Type 0
RowLe r q =
    (r.table_id < q.table_id)
    ⊎ ((r.table_id ≡ q.table_id) × NullsFirst r.parent_column q.parent_column)

abbrev pub IsOrdered : {V : Type 0} → List (TableRow V) → Type 0
IsOrdered [] = Unit
IsOrdered (r ∷ rows) = All (RowLe r) rows × IsOrdered rows

abbrev pub Ascending : List ℕ → Type 0
Ascending [] = Unit
Ascending (n ∷ ns) = All (λ m. n < m) ns × Ascending ns

abbrev pub Descending : List ℕ → Type 0
Descending [] = Unit
Descending (n ∷ ns) = All (λ m. m < n) ns × Descending ns

abbrev pub table_ids : List TableInfo → List ℕ
table_ids = map (λ t. t.id)

Ascending-append_last :
    (ns : List ℕ) (n : ℕ) → Ascending ns → All (λ m. m < n) ns → Ascending (ns ++ n ∷ [])
Ascending-append_last [] n a h = (tt, tt)
Ascending-append_last (m ∷ ns) n a h =
    (All-append (λ k. m < k) ns (n ∷ []) a.0 (h.0, tt), Ascending-append_last ns n a.1 h.1)

table_ids-reverse : (ts : List TableInfo) → table_ids (reverse ts) ≡ reverse (table_ids ts)
table_ids-reverse [] = refl
table_ids-reverse (t ∷ ts) =
    rw (reverse-cons t ts, reverse-cons t.id (table_ids ts), map-append, table_ids-reverse ts) refl

pub Ascending-reverse : (ns : List ℕ) → Descending ns → Ascending (reverse ns)
Ascending-reverse [] d = tt
Ascending-reverse (n ∷ ns) d = rw (reverse-cons n ns) (
    Ascending-append_last (reverse ns) n (Ascending-reverse ns d.1)
      (All-reverse (λ m. m < n) ns d.0))

-- Where the rows that follow are not before the last table, a row of another table is after it.
extend-Descending :
    (tables : List TableInfo) (n : ℕ)
    → Descending (table_ids tables)
    → All (λ m. m ≤ n) (table_ids tables)
    → Descending (if starts_table tables n then n ∷ table_ids tables else table_ids tables)
unfolding starts_table
extend-Descending [] n d h = (tt, tt)
extend-Descending (back ∷ older) n d h = elim (Bool-cases (back.id == n)) [
  | inl same ↦ rw same d
  | inr other ↦
      let before : back.id < n = ground (arith, h.0) in
      rw other ((before, All-map (table_ids older) (λ m lt. omega arith) d.0), d)
]

extend-le :
    (tables : List TableInfo) (n k : ℕ)
    → All (λ m. m ≤ n) (table_ids tables)
    → n ≤ k
    → All (λ m. m ≤ k) (if starts_table tables n then n ∷ table_ids tables else table_ids tables)
extend-le tables n k h le =
    let below = All-map {Q = λ m. m ≤ k} (table_ids tables) (λ m le'. omega arith) h in
    elim (Bool-cases (starts_table tables n)) [
      | inl new ↦ rw new (le, below)
      | inr old ↦ rw old below
    ]

pub row_le : {V : Type 0} (r q : TableRow V) → RowLe r q → r.table_id ≤ q.table_id
row_le r q (inl lt) = omega arith
row_le r q (inr (same, _)) = omega arith

module _ (D : DuckDb) where
  -- The second half of a round keeps the ids.
  add_column-ids :
      (tables tables' : List TableInfo) (row : TableRow D.Value)
      → add_column D tables row ≡ ok tables'
      → table_ids tables' ≡ table_ids tables
  unfolding add_column
  add_column-ids [] tables' row h = cc
  add_column-ids (back ∷ older) tables' row h = ground arith

  -- A round adds the row's table id, unless it is that of the last table.
  add_table_row-ids :
      (schemas : Schemas) (tables tables' : List TableInfo) (row : TableRow D.Value)
      → add_table_row D schemas tables row ≡ ok tables'
      → table_ids tables' ≡ (
          if starts_table tables row.table_id
          then row.table_id ∷ table_ids tables
          else table_ids tables)
  unfolding add_table_row
  add_table_row-ids schemas tables tables' row h =
      let (begun, began, added) = >>=-eq-ok (begin_table D schemas tables row) _ h in
      let kept = add_column-ids begun tables' row added in
      elim (Bool-cases (starts_table tables row.table_id)) [
        | inl new ↦
            let (t, e, same, _) = begin_table-new D schemas tables begun row new began in
            rw new (kept ∙ rw (e, same) refl)
        | inr old ↦
            rw old (kept ∙ ap table_ids (begin_table-old D schemas tables begun row old began))
      ]

  fold-Descending :
      (schemas : Schemas) (rows : List (TableRow D.Value)) (tables tables' : List TableInfo)
      → IsOrdered rows
      → Descending (table_ids tables)
      → All (λ r. All (λ m. m ≤ r.table_id) (table_ids tables)) rows
      → fold_result (add_table_row D schemas) tables rows ≡ ok tables'
      → Descending (table_ids tables')
  unfolding fold_result
  fold-Descending schemas [] tables tables' o d h e =
      subst (λ l. Descending (table_ids l)) (ok-injective e) d
  fold-Descending schemas (row ∷ rows) tables tables' o d h e =
      let (next, first, rest) = >>=-eq-ok (add_table_row D schemas tables row) _ e in
      let ids = add_table_row-ids schemas tables next row first in
      fold-Descending schemas rows next tables' o.1
        (rw ids (extend-Descending tables row.table_id d h.0))
        (All-map rows
          (λ r le. rw ids (extend-le tables row.table_id r.table_id h.0 (row_le row r le))) o.0)
        rest

  All-empty : (rows : List (TableRow D.Value)) → All (λ r. All (λ m. m ≤ r.table_id) []) rows
  All-empty [] = tt
  All-empty (r ∷ rows) = (tt, All-empty rows)

  -- From rows in the order of ORDER BY, a loop that does not throw makes tables with strictly
  -- ascending ids: no id twice.
  pub load_tables-Ascending :
      (schemas : Schemas) (rows : List (TableRow D.Value)) (tables : List TableInfo)
      → IsOrdered rows
      → load_tables D schemas rows ≡ ok tables
      → Ascending (table_ids tables)
  unfolding load_tables
  load_tables-Ascending schemas rows tables o h =
      let (reversed, loaded, turned) =
        >>=-eq-ok (fold_result (add_table_row D schemas) [] rows) _ h in
      let d = fold-Descending schemas rows [] reversed o tt (All-empty rows) loaded in
      subst (λ l. Ascending (table_ids l)) (ok-injective turned)
        (rw (table_ids-reverse reversed) (Ascending-reverse (table_ids reversed) d))
