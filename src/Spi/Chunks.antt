-- ===== src/Spi/Chunks.antt =====
-- `InsertSPITupleTableIntoChunk` and the chunk loop of `CreateSPIResult`
-- (src/pgducklake_metadata_manager.cpp).
pub mod Fill
pub mod Rows
use Prim.Native.Nat.{min}
use pg_ducklake_next.Base.{
  ℕ, zero, suc, ◌+◌, ◌-◌, ◌%◌, ◌^◌, Option, none, some, List, [], ◌∷◌, ltb, set, length, get_elem?,
  if◌then◌else◌,
}

-- `STANDARD_VECTOR_SIZE`, DuckDB's default.
abbrev pub standard_vector_size : ℕ
standard_vector_size = 2048

-- A place of a flat vector: not written, marked invalid, or a value.
pub data Cell (V : Type 0) : Type 0 where
  unset : Cell V
  invalid : Cell V
  valid : V → Cell V

-- A `DataChunk` after `SetCardinality`: a flat vector for each column.
pub record Chunk (V : Type 0) : Type 0 where
  pub cardinality : ℕ
  pub columns : List (List (Cell V))

-- `Initialize(allocator, types, capacity)` makes such a vector for a column.
abbrev pub fresh_vector : {V : Type 0} → ℕ → List (Cell V)
fresh_vector zero = []
fresh_vector (suc n) = unset ∷ fresh_vector n

-- The columns (`Form_pg_attribute`), the tuples, `SPI_getbinval` of a tuple at a column from 0 on
-- (none for NULL), and the conversion of a datum for a column, detoasting included.
pub record TupleAccess : Type 1 where
  pub Attribute : Type 0
  pub Tuple : Type 0
  pub Datum : Type 0
  pub V : Type 0
  pub get_binval : Tuple → ℕ → Option Datum
  pub convert : Attribute → Datum → V

-- `MinValue<int>(STANDARD_VECTOR_SIZE, num_rows - row_idx)` as an `idx_t`: the difference is cut to
-- an `int`, and a negative minimum is extended to 64 bits.
unfoldable pub chunk_size : ℕ → ℕ → ℕ
chunk_size num_rows row_idx =
    let rest = (num_rows - row_idx) % 2 ^ 32 in
    if ltb rest (2 ^ 31) then min standard_vector_size rest else rest + (2 ^ 64 - 2 ^ 32)

-- The `int` that `chunk_size` is again as `num_tuples`: the rounds of the inner loop, none where it
-- is negative.
unfoldable pub tuple_rounds : ℕ → ℕ
tuple_rounds size = let n = size % 2 ^ 32 in if ltb n (2 ^ 31) then n else 0

module _ (T : TupleAccess) where
  open T use {Attribute, Tuple, V, get_binval, convert}

  -- What one round of the inner loop writes for a tuple.
  abbrev pub cell_of : Attribute → ℕ → Tuple → Cell V
  cell_of attr column tuple = elim (get_binval tuple column) [
    | none ↦ invalid
    | some datum ↦ valid (convert attr datum)
  ]

  -- One round of the inner loop. No tuple stands behind the end of `vals`; the assertion of the
  -- source keeps the loop away from it.
  unfoldable pub fill_row : Attribute → ℕ → List Tuple → ℕ → ℕ → List (Cell V) → List (Cell V)
  fill_row attr column vals start_idx row result = elim (get_elem? vals (start_idx + row)) [
    | none ↦ result
    | some tuple ↦ set result row (cell_of attr column tuple)
  ]

  -- The inner loop, from `row` on with `rounds` rounds left.
  unfoldable pub fill_column :
      Attribute → ℕ → List Tuple → ℕ → ℕ → ℕ → List (Cell V) → List (Cell V)
  unfolding fill_row
  fill_column attr column vals start_idx row zero result = result
  fill_column attr column vals start_idx row (suc rounds) result =
      fill_column attr column vals start_idx (row + 1) rounds
        (fill_row attr column vals start_idx row result)

  -- The outer loop over the attributes, from the column index `column` on.
  unfoldable pub insert_columns : List Attribute → ℕ → List Tuple → ℕ → ℕ → ℕ → List (List (Cell V))
  unfolding fill_column
  insert_columns [] column vals start_idx num_tuples capacity = []
  insert_columns (attr ∷ attrs) column vals start_idx num_tuples capacity =
      fill_column attr column vals start_idx 0 num_tuples (fresh_vector capacity)
      ∷ insert_columns attrs (column + 1) vals start_idx num_tuples capacity

  -- The chunk of one round.
  unfoldable pub chunk_at : List Attribute → List Tuple → ℕ → Chunk V
  unfolding chunk_size tuple_rounds insert_columns
  chunk_at attrs vals row_idx =
      let size = chunk_size (length vals) row_idx in
      record {
        cardinality = size;
        columns = insert_columns attrs 0 vals row_idx (tuple_rounds size) size;
      }

  -- The loop, on fuel: `for (row_idx; row_idx < num_rows; row_idx += STANDARD_VECTOR_SIZE)`.
  unfoldable pub chunks_from : ℕ → List Attribute → List Tuple → ℕ → List (Chunk V)
  unfolding chunk_at
  chunks_from zero attrs vals row_idx = []
  chunks_from (suc fuel) attrs vals row_idx =
      let rest = chunks_from fuel attrs vals (row_idx + standard_vector_size) in
      if ltb row_idx (length vals) then chunk_at attrs vals row_idx ∷ rest else []

  -- All chunks of a tuple table. One round for each row is fuel enough.
  unfoldable pub chunks_of : List Attribute → List Tuple → List (Chunk V)
  unfolding chunks_from
  chunks_of attrs vals = chunks_from (length vals) attrs vals 0
