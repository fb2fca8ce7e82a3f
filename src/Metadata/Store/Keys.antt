-- ===== src/Metadata/Store/Keys.antt =====
-- The columns of the loaded tables against the records of the metadata tables.
use mathlib.Core.List.{Perm, Permᴰ, map-map}
use mathlib.Core.List.Perm
use pg_ducklake_next.Base.{
  ℕ, ◌≡◌, refl, sym, ap, ◌∙◌, subst, none, some, List, [], ◌∷◌, map, All, All-map, concat_map,
  concat_map_cong, map-concat_map, Option-cases, inl, inr, arith,
}
use pg_ducklake_next.Base.Result.{ok, >>=-eq-ok, ok-injective}
use pg_ducklake_next.Metadata.Columns.{ColumnInfo}
use pg_ducklake_next.Metadata.Values.{DuckDb, load_tags}
use pg_ducklake_next.Metadata.Tables.{TableRow, load_unless_null, column_of_row}
use pg_ducklake_next.Metadata.Tables.Collected.{TableEntry}
use pg_ducklake_next.Metadata.Tables.Lossless.{entry_of_row, row_entries}
use pg_ducklake_next.Metadata.Records.{Store, TableRecord, ColumnRecord}
use pg_ducklake_next.Metadata.Store.{
  Aggregates, visible_tables, row_of_join, join_of_table, table_query,
}
use pg_ducklake_next.Metadata.Store.Joins.{visible_columns, join_of_table-visible}
use pg_ducklake_next.Metadata.Store.Answer.{IsTableOk}

-- An entry without the tags of its column.
abbrev pub untagged : TableEntry → TableEntry
untagged (id, (parent, c)) = (id, (parent, record c { tags = [] }))

-- What the records of a table and of a column say of the column.
abbrev pub column_key : TableRecord → ColumnRecord → TableEntry
column_key t c = (
  t.table_id,
  (
    c.parent_column,
    record {
      id = c.column_id;
      name = c.column_name;
      column_type = c.column_type;
      initial_default = c.initial_default;
      default_value = c.default_value;
      nulls_allowed = c.nulls_allowed;
      tags = [];
    },
  ),
)

-- The columns of the metadata tables at a snapshot: the visible columns of the visible tables.
abbrev pub columns_at : Store → ℕ → List TableEntry
columns_at store snapshot =
    concat_map (λ t. map (column_key t) (visible_columns store snapshot t))
      (visible_tables store snapshot)

module _ (D : DuckDb) where
  abbrev pub row_key : TableRow D.Value → TableEntry
  row_key r = (
    r.table_id,
    (
      r.parent_column,
      record {
        id = elim r.column_id [ none ↦ 0 | some id ↦ id ];
        name = r.column_name;
        column_type = r.column_type;
        initial_default = r.initial_default;
        default_value = r.default_value;
        nulls_allowed = r.nulls_allowed;
        tags = [];
      },
    ),
  )

  entry_of_row-key :
      (r : TableRow D.Value) (e : TableEntry) → entry_of_row D r ≡ ok e → untagged e ≡ row_key r
  unfolding column_of_row
  entry_of_row-key r e h = elim (Option-cases r.column_id) [
    | inl null ↦ ground arith
    | inr (id, present) ↦
        let (c, read, done) = >>=-eq-ok (column_of_row D r id) _ (rw present at h) in
        let (ts, listed, made) = >>=-eq-ok (load_unless_null (load_tags D) r.column_tags) _ read in
        ap untagged (sym (ok-injective done))
        ∙ ap (λ (x : ColumnInfo). untagged (r.table_id, (r.parent_column, x)))
            (sym (ok-injective made))
        ∙ rw present refl
  ]

  pub row_entries-key :
      (rows : List (TableRow D.Value)) (es : List TableEntry)
      → row_entries D rows ≡ ok es
      → map untagged es ≡ map row_key rows
  row_entries-key [] es h = ap (map untagged) (sym (ok-injective h))
  row_entries-key (r ∷ rows) es h =
      let (e, one, more) = >>=-eq-ok (entry_of_row D r) _ h in
      let (others, rest, all) = >>=-eq-ok (row_entries D rows) _ more in
      ap (map untagged) (sym (ok-injective all))
      ∙ rw (entry_of_row-key r e one, row_entries-key rows others rest) refl

module _ (D : DuckDb) (G : Aggregates D.Value) (store : Store) (snapshot : ℕ) where
  abbrev join : TableRecord → List (TableRow D.Value)
  join = join_of_table D.Value G store snapshot

  join-key :
      (t : TableRecord)
      → IsTableOk D G store snapshot t
      → map (row_key D) (join t) ≡ map (column_key t) (visible_columns store snapshot t)
  unfolding row_of_join
  join-key t o =
      ap (map (row_key D)) (join_of_table-visible D.Value G store snapshot t o.has_columns)
      ∙ map-map (row_key D) (λ c. row_of_join D.Value G store snapshot t (some c))
          (visible_columns store snapshot t)

  table_query-key :
      All (IsTableOk D G store snapshot) (visible_tables store snapshot)
      → map (row_key D) (table_query D.Value G store snapshot) ≡ columns_at store snapshot
  unfolding table_query
  table_query-key h =
      let tables = visible_tables store snapshot in
      map-concat_map (row_key D) join tables
      ∙ concat_map_cong (λ t. map (row_key D) (join t))
          (λ t. map (column_key t) (visible_columns store snapshot t)) tables
          (All-map tables join-key h)

  -- The entries of the rows are the columns at the snapshot.
  pub row_entries-columns_at :
      All (IsTableOk D G store snapshot) (visible_tables store snapshot)
      → (rows : List (TableRow D.Value)) → Permᴰ (table_query D.Value G store snapshot) rows
      → (es : List TableEntry) → row_entries D rows ≡ ok es
      → Perm (map untagged es) (columns_at store snapshot)
  row_entries-columns_at h rows p es read =
      subst (λ l. Perm (map untagged es) l) (table_query-key h)
        (subst (λ l. Perm l (map (row_key D) (table_query D.Value G store snapshot)))
          (sym (row_entries-key D rows es read)) (Perm.map (row_key D) (Perm.symm ∣ p ∣₁)))
