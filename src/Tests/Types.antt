-- ===== src/Tests/Types.antt =====
-- Conversions of types and values.
use pg_ducklake_next.Base.{ℕ, ◌+◌, ◌≡◌, refl, true, not, Option, none, [], ◌∷◌, arith}
use pg_ducklake_next.Types.Columns.{
  TypeOid, int4_oid, date_oid, timestamp_oid, timestamptz_oid, LogicalType, boolean, smallint,
  integer, bigint, float, double, varchar, date, timestamp, timestamp_tz, time, uuid, json, sqlnull,
  list_of, column_type,
}
use pg_ducklake_next.Types.Values.Midnight.{
  biased32, midnight, between_epochs, convert_value-midnight,
}
use pg_ducklake_next.Types.Values.{DatumReader, as_date, as_timestamp, convert_value}
use pg_ducklake_next.Types.Values.Layout.{
  PhysicalType, bool_data, int16_data, int32_data, int64_data, float_data, double_data,
  varchar_data, int128_data, IsInternal, physical, convert_value-physical,
}
use pg_ducklake_next.Types.Detoast.{short, Toast, detoast_postgres_datum}
use pg_ducklake_next.Types.Detoast.Contents.{
  IsSized, contents, is_plain, detoast_postgres_datum-contents,
}
use pg_ducklake_next.Spi.Chunks.{Chunk, chunks_of}
use pg_ducklake_next.Spi.Cells.{Attribute, CellReader, spi_tuples}
use pg_ducklake_next.Spi.Cells.Physical.{AreColumnsOf, chunks_of-AreColumnsOf}
use pg_ducklake_next.Types.Values.{Written}
use pg_ducklake_next.Base.{All, none, some, false}

abbrev reader : DatumReader
reader = record {
  Datum = ℕ;
  Float = ℕ;
  Double = ℕ;
  get_bool = λ d. true;
  get_int16 = λ d. d;
  get_int32 = λ d. d;
  get_int64 = λ d. d;
  get_float4 = λ d. d;
  get_float8 = λ d. d;
  numeric_float8 = λ d. d;
  get_text = λ d. "text";
  uuid_data = λ d. d ∷ 1 ∷ 2 ∷ 3 ∷ 4 ∷ 5 ∷ 6 ∷ 7 ∷ 8 ∷ 9 ∷ 10 ∷ 11 ∷ 12 ∷ 13 ∷ 14 ∷ 15 ∷ [];
  jsonb_out = λ d. "json";
  output = λ t d. "output";
}

abbrev internal_type : LogicalType → PhysicalType
internal_type boolean = bool_data
internal_type smallint = int16_data
internal_type integer = int32_data
internal_type bigint = int64_data
internal_type float = float_data
internal_type double = double_data
internal_type varchar = varchar_data
internal_type date = int32_data
internal_type timestamp = int64_data
internal_type timestamp_tz = int64_data
internal_type time = int64_data
internal_type uuid = int128_data
internal_type json = varchar_data
internal_type sqlnull = int32_data
internal_type (list_of t) = int64_data

abbrev internal_type-IsInternal : IsInternal internal_type
internal_type-IsInternal = record {
  of_boolean = refl;
  of_smallint = refl;
  of_integer = refl;
  of_bigint = refl;
  of_float = refl;
  of_double = refl;
  of_varchar = refl;
  of_date = refl;
  of_timestamp = refl;
  of_timestamp_tz = refl;
  of_time = refl;
  of_uuid = refl;
  of_json = refl;
}

abbrev no_elements : TypeOid → Option TypeOid
no_elements t = none

convert_value-physical_example :
    physical reader (convert_value reader int4_oid 5)
    ≡ internal_type (column_type no_elements int4_oid 0)
convert_value-physical_example =
    convert_value-physical reader internal_type internal_type-IsInternal no_elements (λ t e. refl)
      int4_oid 0 5 (λ e. absurd (ground arith))

abbrev toast : Toast
toast = record { fetch = λ p. (4, []); flatten = λ p. (4, []); decompress = λ b. (4, []) }

detoast_postgres_datum-contents_example :
    (is_plain toast (detoast_postgres_datum toast (short 3 (7 ∷ 8 ∷ []))).0 ≡ true)
    × IsSized toast (detoast_postgres_datum toast (short 3 (7 ∷ 8 ∷ []))).0
    × (contents toast (detoast_postgres_datum toast (short 3 (7 ∷ 8 ∷ []))).0
        ≡ contents toast (short 3 (7 ∷ 8 ∷ [])))
    × ((detoast_postgres_datum toast (short 3 (7 ∷ 8 ∷ []))).1
        ≡ not (is_plain toast (short 3 (7 ∷ 8 ∷ []))))
detoast_postgres_datum-contents_example =
    detoast_postgres_datum-contents toast (short 3 (7 ∷ 8 ∷ [])) (omega arith)

-- A table of one `int4` column and two rows, the second of them NULL.
abbrev cell_reader : CellReader
cell_reader = record {
  reader = reader;
  toast = toast;
  varlena_of = λ d. short 3 (7 ∷ 8 ∷ []);
  pointer_get_datum = λ v. 0;
  Tuple = Option ℕ;
  get_binval = λ tuple column. tuple;
}

abbrev int4_attribute : Attribute
int4_attribute = record { atttypid = int4_oid; is_varlena = false; attndims = 0 }

chunks_of-AreColumnsOf_example :
    All
      (λ (c : Chunk (Written reader)).
        AreColumnsOf cell_reader internal_type no_elements (int4_attribute ∷ []) c.columns)
      (chunks_of (spi_tuples cell_reader) (int4_attribute ∷ []) (some 5 ∷ none ∷ []))
chunks_of-AreColumnsOf_example =
    chunks_of-AreColumnsOf cell_reader internal_type no_elements internal_type-IsInternal
      (λ t e. refl) (int4_attribute ∷ []) (some 5 ∷ none ∷ []) ((λ e. absurd (ground arith)), tt)
      (omega arith)

-- The 31st of January 2000, and its midnight.
convert_value-midnight_example :
    (day : ℕ) × (convert_value reader date_oid 30 ≡ as_date day)
    × (biased32 day ≡ biased32 30 + between_epochs)
    × (convert_value reader timestamp_oid 2592000000000 ≡ as_timestamp (midnight day))
    × (convert_value reader timestamptz_oid 2592000000000 ≡ as_timestamp (midnight day))
convert_value-midnight_example = convert_value-midnight reader 30 2592000000000 (omega arith) refl
