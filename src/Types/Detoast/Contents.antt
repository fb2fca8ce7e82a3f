-- ===== src/Types/Detoast/Contents.antt =====
-- What `DetoastPostgresDatum` returns.
use pg_ducklake_next.Base.{
  ℕ, ◌+◌, ◌-◌, ◌≡◌, refl, ap, zero, suc, [], ◌∷◌, not, Bool, true, false, List, length, take, arith,
}
use pg_ducklake_next.Types.Detoast.{
  Varlena, on_disk, expanded, compressed, short, plain, Toast, detoast_postgres_datum,
}

module _ (T : Toast) where
  -- The bytes that a value stands for.
  abbrev pub contents : Varlena → List ℕ
  contents (on_disk pointer) = (T.fetch pointer).1
  contents (expanded object) = (T.flatten object).1
  contents (compressed bytes) = (T.decompress bytes).1
  contents (short size bytes) = bytes
  contents (plain size bytes) = bytes

  -- The size in a header is that of the header and the bytes.
  abbrev pub IsSized : Varlena → Type 0
  IsSized (on_disk pointer) = (T.fetch pointer).0 ≡ length (T.fetch pointer).1 + 4
  IsSized (expanded object) = (T.flatten object).0 ≡ length (T.flatten object).1 + 4
  IsSized (compressed bytes) = (T.decompress bytes).0 ≡ length (T.decompress bytes).1 + 4
  IsSized (short size bytes) = size ≡ length bytes + 1
  IsSized (plain size bytes) = size ≡ length bytes + 4

  abbrev pub is_plain : Varlena → Bool
  is_plain (plain size bytes) = true
  is_plain (on_disk pointer) = false
  is_plain (expanded object) = false
  is_plain (compressed bytes) = false
  is_plain (short size bytes) = false

  take-length : (bytes : List ℕ) (n : ℕ) → n ≡ length bytes → take n bytes ≡ bytes
  take-length [] zero e = refl
  take-length [] (suc n) e = refl
  take-length (b ∷ bytes) zero e = ground arith
  take-length (b ∷ bytes) (suc n) e =
      ap (λ (bs : List ℕ). b ∷ bs) (take-length bytes n (omega arith))

  -- From a value whose size is right, as PostgreSQL gives it for a value that is fetched, flattened
  -- or decompressed, comes one with a header of 4 bytes, a right size and the same contents; it is
  -- to be freed just if the value had not that form already.
  pub detoast_postgres_datum-contents :
      (v : Varlena)
      → IsSized v
      → (is_plain (detoast_postgres_datum T v).0 ≡ true)
        × IsSized (detoast_postgres_datum T v).0
        × (contents (detoast_postgres_datum T v).0 ≡ contents v)
        × ((detoast_postgres_datum T v).1 ≡ not (is_plain v))
  unfolding detoast_postgres_datum
  detoast_postgres_datum-contents (on_disk pointer) sized = (refl, sized, refl, refl)
  detoast_postgres_datum-contents (expanded object) sized = (refl, sized, refl, refl)
  detoast_postgres_datum-contents (compressed bytes) sized = (refl, sized, refl, refl)
  detoast_postgres_datum-contents (short size bytes) sized =
      let same = take-length bytes (size - 1) (omega arith) in
      (refl, rw same (omega arith), same, refl)
  detoast_postgres_datum-contents (plain size bytes) sized = (refl, sized, refl, refl)
