-- ===== src/Spi/Cells/Physical.antt =====
-- The cells of the chunks against the types of their columns.
use pg_ducklake_next.Base.{
  ℕ, ◌+◌, ◌<◌, ◌^◌, ◌≡◌, ◌≢◌, sym, Option, List, [], ◌∷◌, map, length, All, subst, Option-cases,
  inl, inr,
}
use pg_ducklake_next.Types.Columns.{TypeOid, time_oid, LogicalType, column_type}
use pg_ducklake_next.Types.Values.{Written}
use pg_ducklake_next.Types.Values.Layout.{
  PhysicalType, IsInternal, HasNoElements, physical, convert_value-physical,
}
use pg_ducklake_next.Spi.Chunks.{Cell, unset, invalid, valid, Chunk, cell_of, chunks_of}
use pg_ducklake_next.Spi.Chunks.Fill.{column_cells}
use pg_ducklake_next.Spi.Chunks.Rows.{expected_chunk, chunks_of-batches}
use pg_ducklake_next.Spi.Cells.{Attribute, CellReader, datum_to_convert, convert_cell, spi_tuples}

All-of-map :
    {A B : Type 0} (f : A → B) (P : B → Type 0)
    → ((x : A) → P (f x))
    → (xs : List A) → All P (map f xs)
All-of-map f P h [] = tt
All-of-map f P h (x ∷ xs) = (h x, All-of-map f P h xs)

module _ (R : CellReader) (internal_type : LogicalType → PhysicalType)
    (get_element_type : TypeOid → Option TypeOid) where
  -- A cell is NULL or a value as a vector of that physical type holds it.
  abbrev pub IsCellOf : PhysicalType → Cell (Written R.reader) → Type 0
  IsCellOf p unset = ⊥
  IsCellOf p invalid = Unit
  IsCellOf p (valid v) = physical R.reader v ≡ p

  -- One vector for each attribute, with cells of the column's type.
  abbrev pub AreColumnsOf : List Attribute → List (List (Cell (Written R.reader))) → Type 0
  AreColumnsOf [] [] = Unit
  AreColumnsOf [] (cells ∷ columns) = ⊥
  AreColumnsOf (attr ∷ attrs) [] = ⊥
  AreColumnsOf (attr ∷ attrs) (cells ∷ columns) =
      All (IsCellOf (internal_type (column_type get_element_type attr.atttypid attr.attndims)))
        cells
      × AreColumnsOf attrs columns

  abbrev pub IsNoTime : Attribute → Type 0
  IsNoTime attr = attr.atttypid ≢ time_oid

  cell_of-IsCellOf :
      IsInternal internal_type
      → HasNoElements get_element_type
      → (attr : Attribute) (column : ℕ) (tuple : R.Tuple) → IsNoTime attr
      → IsCellOf
          (internal_type (column_type get_element_type attr.atttypid attr.attndims))
          (cell_of (spi_tuples R) attr column tuple)
  unfolding convert_cell
  cell_of-IsCellOf I g attr column tuple other = elim (Option-cases (R.get_binval tuple column)) [
    | inl null ↦ rw (null, IsCellOf) tt
    | inr (datum, got) ↦
        rw (got, IsCellOf)
          (convert_value-physical R.reader internal_type I get_element_type g attr.atttypid
            attr.attndims (datum_to_convert R attr.is_varlena datum) other)
  ]

  column_cells-AreColumnsOf :
      IsInternal internal_type
      → HasNoElements get_element_type
      → (attrs : List Attribute) (column : ℕ) (here : List R.Tuple) → All IsNoTime attrs
      → AreColumnsOf attrs (column_cells (spi_tuples R) attrs column here)
  column_cells-AreColumnsOf I g [] column here other = tt
  column_cells-AreColumnsOf I g (attr ∷ attrs) column here other = (
    All-of-map (cell_of (spi_tuples R) attr column) _
        (λ tuple. cell_of-IsCellOf I g attr column tuple other.0) here,
    column_cells-AreColumnsOf I g attrs (column + 1) here other.1,
  )

  -- Where DuckDB's physical types are the documented ones and no scalar type that the file names is
  -- an array for PostgreSQL: in every chunk of a result of fewer than 2 ^ 31 tuples without a
  -- `time` column, there is one vector for each column, of which each place is written, as NULL or
  -- as a value that DuckDB's vector of the column's type holds, whether the datum was detoasted or
  -- not.
  pub chunks_of-AreColumnsOf :
      IsInternal internal_type
      → HasNoElements get_element_type
      → (attrs : List Attribute) (vals : List R.Tuple) → All IsNoTime attrs
      → length vals < 2 ^ 31
      → All
          (λ (c : Chunk (Written R.reader)). AreColumnsOf attrs c.columns)
          (chunks_of (spi_tuples R) attrs vals)
  chunks_of-AreColumnsOf I g attrs vals other few =
      let (batches, flat, small, same) = chunks_of-batches (spi_tuples R) attrs vals few in
      subst (All (λ (c : Chunk (Written R.reader)). AreColumnsOf attrs c.columns)) (sym same) (
        All-of-map (expected_chunk (spi_tuples R) attrs) _
          (λ batch. column_cells-AreColumnsOf I g attrs 0 batch other) batches)
