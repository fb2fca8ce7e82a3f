-- ===== src/Metadata/Store/Joins.antt =====
-- The rows that the second query joins to a table that has columns.
use mathlib.Core.List.{map-map}
use pg_ducklake_next.Base.{
  ℕ, ◌≡◌, ◌≢◌, refl, ap, ◌∙◌, ◌&&◌, ◌==◌, some, List, [], ◌∷◌, map, select, select-select,
  Bool-cases, inl, inr,
}
use pg_ducklake_next.Metadata.Records.{Store, TableRecord, ColumnRecord}
use pg_ducklake_next.Metadata.Store.{
  Aggregates, is_visible, or_null, keeps_column, columns_of, row_of_join, join_of_table,
}

-- The columns of a table that are visible.
abbrev pub visible_columns : Store → ℕ → TableRecord → List ColumnRecord
visible_columns store snapshot t =
    select (λ c. c.table_id == t.table_id && is_visible snapshot c.lifetime) store.columns

or_null-some : {A : Type 0} → (xs : List A) → xs ≢ [] → or_null xs ≡ map some xs
unfolding or_null
or_null-some [] h = absurd (h refl)
or_null-some (x ∷ xs) h = refl

select-keeps_column :
    (snapshot : ℕ) (cs : List ColumnRecord)
    → select (keeps_column snapshot) (map some cs)
      ≡ map some (select (λ c. is_visible snapshot c.lifetime) cs)
unfolding keeps_column
select-keeps_column snapshot [] = refl
select-keeps_column snapshot (c ∷ cs) = elim (Bool-cases (is_visible snapshot c.lifetime)) [
  | inl shown ↦ rw shown (ap (λ l. some c ∷ l) (select-keeps_column snapshot cs))
  | inr hidden ↦ rw hidden (select-keeps_column snapshot cs)
]

module _ (V : Type 0) (G : Aggregates V) (store : Store) (snapshot : ℕ) where
  -- A table with columns, visible or not, has a row for each visible one and no other.
  pub join_of_table-visible :
      (t : TableRecord)
      → columns_of store t ≢ []
      → join_of_table V G store snapshot t
        ≡ map (λ c. row_of_join V G store snapshot t (some c)) (visible_columns store snapshot t)
  unfolding join_of_table
  join_of_table-visible t some_column =
      let columns = columns_of store t in
      let shown = select (λ c. is_visible snapshot c.lifetime) columns in
      let row = row_of_join V G store snapshot t in
      ap (λ cs. map row (select (keeps_column snapshot) cs)) (or_null-some columns some_column)
      ∙ ap (λ cs. map row cs) (select-keeps_column snapshot columns)
      ∙ map-map row some shown
      ∙ ap (λ cs. map (λ c. row (some c)) cs)
          (select-select (λ c. c.table_id == t.table_id) (λ c. is_visible snapshot c.lifetime)
            store.columns)
