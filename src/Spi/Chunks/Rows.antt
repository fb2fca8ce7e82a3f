-- ===== src/Spi/Chunks/Rows.antt =====
-- The chunks of a tuple table against its tuples.
use mathlib.Core.List.{append_assoc, flatten}
use Prim.Native.Nat.{min}
use pg_ducklake_next.Base.{
  ℕ, zero, suc, ◌+◌, ◌-◌, ◌^◌, ◌≤◌, ◌<◌, ◌≡◌, refl, sym, ap, subst, ◌∙◌, List, [], ◌∷◌, ◌++◌, map,
  length, length-append, length-take, take, drop, take-append-drop, All, arith, ltb, true,
}
use pg_ducklake_next.Spi.Chunks.{
  Chunk, standard_vector_size, TupleAccess, chunk_size, tuple_rounds, chunk_at, chunks_from,
  chunks_of,
}
use pg_ducklake_next.Spi.Chunks.Fill.{column_cells, insert_columns-cells}

-- Below 2 ^ 31 remaining rows the size is the smaller of the vector size and what remains.
chunk_size-min :
    (num_rows row_idx : ℕ)
    → num_rows - row_idx < 2 ^ 31
    → chunk_size num_rows row_idx ≡ min standard_vector_size (num_rows - row_idx)
unfolding chunk_size
chunk_size-min n i h = ground arith

tuple_rounds_self : (size : ℕ) → size < 2 ^ 31 → tuple_rounds size ≡ size
unfolding tuple_rounds
tuple_rounds_self size h = ground arith

module _ (T : TupleAccess) where
  open T use {Attribute, Tuple, V}

  -- The chunk of a batch of tuples.
  abbrev pub expected_chunk : List Attribute → List Tuple → Chunk V
  expected_chunk attrs batch = record {
    cardinality = length batch;
    columns = column_cells T attrs 0 batch;
  }

  chunk_at-batch :
      (attrs : List Attribute) (before batch after : List Tuple)
      → length batch ≡ min standard_vector_size (length (batch ++ after))
      → length (batch ++ after) < 2 ^ 31
      → chunk_at T attrs (before ++ (batch ++ after)) (length before) ≡ expected_chunk attrs batch
  unfolding chunk_at
  chunk_at-batch attrs before batch after e h =
      let total = length (before ++ (batch ++ after)) in
      let rest : total - length before ≡ length (batch ++ after) =
        omega (arith, length-append before (batch ++ after)) in
      let size : chunk_size total (length before) ≡ length batch =
        chunk_size-min total (length before) (omega (arith, rest)) ∙ (rw rest (sym e)) in
      let rounds : tuple_rounds (length batch) ≡ length batch =
        tuple_rounds_self (length batch) (omega arith) in
      rw (size, rounds, insert_columns-cells T attrs 0 before batch after (length before) refl) refl

  chunks_from-end :
      (fuel : ℕ) (attrs : List Attribute) (vals : List Tuple) (row_idx : ℕ)
      → length vals ≤ row_idx
      → chunks_from T fuel attrs vals row_idx ≡ []
  unfolding chunks_from
  chunks_from-end zero attrs vals row_idx h = refl
  chunks_from-end (suc fuel) attrs vals row_idx h = ground arith

  abbrev pub IsBatch : List Tuple → Type 0
  IsBatch batch = (1 ≤ length batch) × (length batch ≤ standard_vector_size)

  -- The rows are cut into batches, and the chunks are those of the batches.
  abbrev pub Splits : List Attribute → List Tuple → List (Chunk V) → Type 0
  Splits attrs vals chunks =
      (batches : List (List Tuple)) × (flatten batches ≡ vals)
      × All IsBatch batches
      × (chunks ≡ map (expected_chunk attrs) batches)

  -- One more round in front of what the later rounds give.
  Splits-cons :
      (fuel : ℕ) (attrs : List Attribute) (before batch after : List Tuple)
      → 1 ≤ length batch
      → length batch ≡ min standard_vector_size (length (batch ++ after))
      → length (batch ++ after) < 2 ^ 31
      → Splits attrs after (
          chunks_from T fuel attrs
            (before ++ (batch ++ after))
            (length before + standard_vector_size))
      → Splits attrs
          (batch ++ after)
          (chunks_from T (suc fuel) attrs (before ++ (batch ++ after)) (length before))
  unfolding chunks_from flatten
  Splits-cons fuel attrs before batch after one e h (batches, flat, ok_batches, same) =
      let more : ltb (length before) (length (before ++ (batch ++ after))) ≡ true =
        let l = length-append before (batch ++ after) in
        let m = length-append batch after in ground arith in
      (
        batch ∷ batches,
        ap (λ (ts : List Tuple). batch ++ ts) flat,
        ((one, omega arith), ok_batches),
        rw (more, chunk_at-batch attrs before batch after e h, same) refl,
      )

  -- The rounds behind a batch: none if the batch is short, else those of the rows behind it.
  Splits-rest :
      (fuel : ℕ) (attrs : List Attribute)
      → ((before after : List Tuple)
          → length after ≤ fuel
          → length after < 2 ^ 31
          → Splits attrs after (chunks_from T fuel attrs (before ++ after) (length before)))
      → (before batch after : List Tuple) → 1 ≤ length batch
      → length batch ≡ min standard_vector_size (length (batch ++ after))
      → length (batch ++ after) ≤ suc fuel
      → length (batch ++ after) < 2 ^ 31
      → Splits attrs after (
          chunks_from T fuel attrs
            (before ++ (batch ++ after))
            (length before + standard_vector_size))
  Splits-rest fuel attrs ih before batch [] one e le h = (
    [],
    unfold flatten in refl,
    tt,
    chunks_from-end fuel attrs (before ++ (batch ++ [])) (length before + standard_vector_size)
        (omega (arith, length-append before (batch ++ []), length-append batch [])),
  )
  Splits-rest fuel attrs ih before batch (t ∷ after) one e le h =
      let l = length-append batch (t ∷ after) in
      let full : length batch ≡ standard_vector_size = omega arith in
      let next : length (before ++ batch) ≡ length before + standard_vector_size =
        omega (arith, length-append before batch) in
      rw (← append_assoc before batch (t ∷ after), ← next)
        (ih (before ++ batch) (t ∷ after) (omega arith) (omega arith))

  chunks_from-Splits :
      (fuel : ℕ) (attrs : List Attribute) (before tail : List Tuple)
      → length tail ≤ fuel
      → length tail < 2 ^ 31
      → Splits attrs tail (chunks_from T fuel attrs (before ++ tail) (length before))
  unfolding flatten
  chunks_from-Splits zero attrs before (t ∷ tail) le h = absurd (omega arith)
  chunks_from-Splits fuel attrs before [] le h = (
    [],
    refl,
    tt,
    chunks_from-end fuel attrs (before ++ []) (length before)
        (omega (arith, length-append before [])),
  )
  chunks_from-Splits (suc fuel) attrs before (t ∷ tail) le h =
      let rows : List Tuple = t ∷ tail in
      let batch = take standard_vector_size rows in
      let after = drop standard_vector_size rows in
      let whole = take-append-drop standard_vector_size rows in
      let size =
        length-take standard_vector_size rows
        ∙ ap (λ (l : List Tuple). min standard_vector_size (length l)) (sym whole) in
      let same = ap (λ (l : List Tuple). length l) whole in
      let rest =
        Splits-rest fuel attrs (λ b a. chunks_from-Splits fuel attrs b a) before batch after
          (omega arith) size (omega arith) (omega arith) in
      subst (λ l. Splits attrs l (chunks_from T (suc fuel) attrs (before ++ l) (length before)))
        whole (Splits-cons fuel attrs before batch after (omega arith) size (omega arith) rest)

  -- The chunks of fewer than 2 ^ 31 tuples are those of batches that together are the tuples, in
  -- order, each of 1 to `standard_vector_size` tuples; a chunk has its batch's size, and in every
  -- column the converted cells of its batch.
  pub chunks_of-batches :
      (attrs : List Attribute) (vals : List Tuple)
      → length vals < 2 ^ 31
      → Splits attrs vals (chunks_of T attrs vals)
  unfolding chunks_of
  chunks_of-batches attrs vals h = chunks_from-Splits (length vals) attrs [] vals (omega arith) h
