-- ===== src/Types/Detoast.antt =====
-- `DetoastPostgresDatum` of src/pgducklake_pg_types.cpp, on the bytes that a `varlena` stands for.
pub mod Contents
use pg_ducklake_next.Base.{ℕ, ◌+◌, ◌-◌, Bool, true, false, List, take}

-- The forms of a value, in the order of the tests: a pointer to the toast table, an expanded
-- object, a compressed value, one with a header of 1 byte, one with a header of 4. A header has the
-- size with the header, as `VARSIZE` reads it.
pub data Varlena : Type 0 where
  on_disk : ℕ → Varlena
  expanded : ℕ → Varlena
  compressed : List ℕ → Varlena
  short : (size : ℕ) → List ℕ → Varlena
  plain : (size : ℕ) → List ℕ → Varlena

-- PostgreSQL's `PG_DETOAST_DATUM` of a pointer and of compressed bytes, and `EOH_get_flat_size`
-- with `EOH_flatten_into`: each gives a size and the bytes behind a header of 4.
pub record Toast : Type 0 where
  pub fetch : ℕ → ℕ × List ℕ
  pub flatten : ℕ → ℕ × List ℕ
  pub decompress : List ℕ → ℕ × List ℕ

abbrev pub varhdrsz : ℕ
varhdrsz = 4

abbrev pub varhdrsz_short : ℕ
varhdrsz_short = 1

module _ (T : Toast) where
  -- The value and `*should_free`.
  unfoldable pub detoast_postgres_datum : Varlena → Varlena × Bool
  detoast_postgres_datum (on_disk pointer) = (plain (T.fetch pointer).0 (T.fetch pointer).1, true)
  detoast_postgres_datum (expanded object) = (plain (T.flatten object).0 (T.flatten object).1, true)
  detoast_postgres_datum (compressed bytes) =
      (plain (T.decompress bytes).0 (T.decompress bytes).1, true)
  detoast_postgres_datum (short size bytes) =
      let data_size = size - varhdrsz_short in
      (plain (data_size + varhdrsz) (take data_size bytes), true)
  detoast_postgres_datum (plain size bytes) = (plain size bytes, false)
