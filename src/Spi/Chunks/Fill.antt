-- ===== src/Spi/Chunks/Fill.antt =====
-- What the two inner loops of `InsertSPITupleTableIntoChunk` write.
use mathlib.Core.List.{append_assoc}
use mathlib.Core.Path.{ap₂}
use pg_ducklake_next.Base.{
  ℕ, zero, suc, ◌+◌, ◌≡◌, refl, ap, ◌∙◌, some, List, [], ◌∷◌, ◌++◌, map, set, length, length-append,
  get_elem?, arith,
}
use pg_ducklake_next.Spi.Chunks.{
  Cell, fresh_vector, TupleAccess, cell_of, fill_row, fill_column, insert_columns,
}

set-append {ℓ} :
    {A : Type ℓ} (xs : List A) (y : A) (ys : List A) (v : A)
    → set (xs ++ y ∷ ys) (length xs) v ≡ xs ++ v ∷ ys
set-append [] y ys v = refl
set-append (x ∷ xs) y ys v = ap (◌∷◌ x) (set-append xs y ys v)

get_elem?-middle {ℓ} :
    {A : Type ℓ} (xs : List A) (y : A) (ys : List A) → get_elem? (xs ++ y ∷ ys) (length xs) ≡ some y
get_elem?-middle [] y ys = refl
get_elem?-middle (x ∷ xs) y ys = get_elem?-middle xs y ys

module _ (T : TupleAccess) where
  open T use {Attribute, Tuple, V}

  fill_row-cell :
      (attr : Attribute) (column : ℕ) (before : List Tuple) (t : Tuple) (after : List Tuple)
      (start_idx row : ℕ) (done : List (Cell V)) (x : Cell V) (rest : List (Cell V))
      → length before ≡ start_idx + row
      → length done ≡ row
      → fill_row T attr column (before ++ t ∷ after) start_idx row (done ++ x ∷ rest)
        ≡ done ++ cell_of T attr column t ∷ rest
  unfolding fill_row
  fill_row-cell attr column before t after start_idx row done x rest eb ed =
      let cell = cell_of T attr column t in
      let found : get_elem? (before ++ t ∷ after) (start_idx + row) ≡ some t =
        rw (← eb) (get_elem?-middle before t after) in
      let written : set (done ++ x ∷ rest) row cell ≡ done ++ cell ∷ rest =
        rw (← ed) (set-append done x rest cell) in
      rw (found, fill_row) written

  -- The places `done` are written; the loop writes the cells of `here` over `rest`.
  fill_column-cells :
      (attr : Attribute) (column : ℕ) (before here after : List Tuple) (start_idx row : ℕ)
      (done rest : List (Cell V))
      → length before ≡ start_idx + row
      → length done ≡ row
      → length rest ≡ length here
      → fill_column T attr column
          (before ++ (here ++ after))
          start_idx
          row
          (length here)
          (done ++ rest)
        ≡ done ++ map (cell_of T attr column) here
  unfolding fill_column
  fill_column-cells attr column before [] after start_idx row done [] eb ed er = refl
  fill_column-cells attr column before [] after start_idx row done (x ∷ rest) eb ed er =
      absurd (omega arith)
  fill_column-cells attr column before (t ∷ here) after start_idx row done [] eb ed er =
      absurd (omega arith)
  fill_column-cells attr column before (t ∷ here) after start_idx row done (x ∷ rest) eb ed er =
      let cell = cell_of T attr column t in
      let filled =
        fill_row-cell attr column before t (here ++ after) start_idx row done x rest eb ed in
      let ih =
        fill_column-cells attr column (before ++ t ∷ []) here after start_idx (row + 1)
          (done ++ cell ∷ []) rest (omega (arith, length-append before (t ∷ [])))
          (omega (arith, length-append done (cell ∷ []))) (omega arith) in
      ap
        (fill_column T attr column (before ++ (t ∷ (here ++ after))) start_idx (row + 1)
          (length here))
        filled
      ∙ (rw
          (
            append_assoc before (t ∷ []) (here ++ after),
            append_assoc done (cell ∷ []) rest,
            append_assoc done (cell ∷ []) (map (cell_of T attr column) here),
          )
          at ih)

  -- The cells of the tuples, a vector for each column from the index `column` on.
  abbrev pub column_cells : List Attribute → ℕ → List Tuple → List (List (Cell V))
  column_cells [] column here = []
  column_cells (attr ∷ attrs) column here =
      map (cell_of T attr column) here ∷ column_cells attrs (column + 1) here

  length-fresh_vector : (n : ℕ) → length (fresh_vector {V = V} n) ≡ n
  length-fresh_vector zero = refl
  length-fresh_vector (suc n) = ap suc (length-fresh_vector n)

  -- The tuples from `start_idx` on fill the vectors of every column.
  pub insert_columns-cells :
      (attrs : List Attribute) (column : ℕ) (before here after : List Tuple) (start_idx : ℕ)
      → length before ≡ start_idx
      → insert_columns T attrs column
          (before ++ (here ++ after))
          start_idx
          (length here)
          (length here)
        ≡ column_cells attrs column here
  unfolding insert_columns
  insert_columns-cells [] column before here after start_idx e = refl
  insert_columns-cells (attr ∷ attrs) column before here after start_idx e =
      ap₂ (λ (x : List (Cell V)) (xs : List (List (Cell V))). x ∷ xs)
        (fill_column-cells attr column before here after start_idx 0 [] (fresh_vector (length here))
          (omega arith) refl (length-fresh_vector (length here)))
        (insert_columns-cells attrs (column + 1) before here after start_idx e)
