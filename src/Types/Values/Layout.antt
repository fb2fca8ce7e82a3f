-- ===== src/Types/Values/Layout.antt =====
-- Whether a value is written as what the vector of its column holds.
use pg_ducklake_next.Base.{ℕ, ◌≡◌, ◌≢◌, refl, sym, false, Option, none}
use pg_ducklake_next.Types.Columns.{
  TypeOid, bool_oid, int2_oid, int4_oid, int8_oid, float4_oid, float8_oid, numeric_oid, text_oid,
  varchar_oid, bpchar_oid, name_oid, date_oid, timestamp_oid, timestamptz_oid, time_oid, uuid_oid,
  json_oid, jsonb_oid, other_oid, LogicalType, boolean, smallint, integer, bigint, float, double,
  varchar, date, timestamp, timestamp_tz, time, uuid, json, is_sqlnull, base_duck_type, column_type,
}
use pg_ducklake_next.Types.Values.{
  DatumReader, Written, as_bool, as_int16, as_int32, as_int64, as_float, as_double, as_string,
  as_date, as_timestamp, as_hugeint, convert_value,
}

-- `duckdb::PhysicalType`, as far as it is used.
pub data PhysicalType : Type 0 where
  bool_data int16_data int32_data int64_data float_data double_data varchar_data int128_data :
      PhysicalType

-- What DuckDB documents of the physical types of its logical types.
pub record IsInternal (internal_type : LogicalType → PhysicalType) : Type 0 where
  pub of_boolean : internal_type boolean ≡ bool_data
  pub of_smallint : internal_type smallint ≡ int16_data
  pub of_integer : internal_type integer ≡ int32_data
  pub of_bigint : internal_type bigint ≡ int64_data
  pub of_float : internal_type float ≡ float_data
  pub of_double : internal_type double ≡ double_data
  pub of_varchar : internal_type varchar ≡ varchar_data
  pub of_date : internal_type date ≡ int32_data
  pub of_timestamp : internal_type timestamp ≡ int64_data
  pub of_timestamp_tz : internal_type timestamp_tz ≡ int64_data
  pub of_time : internal_type time ≡ int64_data
  pub of_uuid : internal_type uuid ≡ int128_data
  pub of_json : internal_type json ≡ varchar_data

-- PostgreSQL's scalar types of this file are not arrays.
abbrev pub HasNoElements : (TypeOid → Option TypeOid) → Type 0
HasNoElements get_element_type =
    (t : TypeOid) → is_sqlnull (base_duck_type t) ≡ false → get_element_type t ≡ none

module _ (R : DatumReader) where
  abbrev pub physical : Written R → PhysicalType
  physical (as_bool b) = bool_data
  physical (as_int16 n) = int16_data
  physical (as_int32 n) = int32_data
  physical (as_int64 n) = int64_data
  physical (as_float f) = float_data
  physical (as_double d) = double_data
  physical (as_string s) = varchar_data
  physical (as_date n) = int32_data
  physical (as_timestamp n) = int64_data
  physical (as_hugeint lower upper) = int128_data

  -- Where DuckDB's physical types are the documented ones and no scalar type that the file names is
  -- an array for PostgreSQL, a value of any type but `time` is written as what DuckDB's vector of
  -- the column's type holds.
  pub convert_value-physical :
      (internal_type : LogicalType → PhysicalType)
      → IsInternal internal_type
      → (get_element_type : TypeOid → Option TypeOid) → HasNoElements get_element_type
      → (t : TypeOid) (attndims : ℕ) (value : R.Datum) → t ≢ time_oid
      → physical (convert_value R t value) ≡ internal_type (column_type get_element_type t attndims)
  unfolding convert_value column_type base_duck_type is_sqlnull
  convert_value-physical f I g G bool_oid n value other = rw (G bool_oid refl, I.of_boolean) refl
  convert_value-physical f I g G int2_oid n value other = rw (G int2_oid refl, I.of_smallint) refl
  convert_value-physical f I g G int4_oid n value other = rw (G int4_oid refl, I.of_integer) refl
  convert_value-physical f I g G int8_oid n value other = rw (G int8_oid refl, I.of_bigint) refl
  convert_value-physical f I g G float4_oid n value other = rw (G float4_oid refl, I.of_float) refl
  convert_value-physical f I g G float8_oid n value other = rw (G float8_oid refl, I.of_double) refl
  convert_value-physical f I g G numeric_oid n value other =
      rw (G numeric_oid refl, I.of_double) refl
  convert_value-physical f I g G text_oid n value other = rw (G text_oid refl, I.of_varchar) refl
  convert_value-physical f I g G varchar_oid n value other =
      rw (G varchar_oid refl, I.of_varchar) refl
  convert_value-physical f I g G bpchar_oid n value other =
      rw (G bpchar_oid refl, I.of_varchar) refl
  convert_value-physical f I g G name_oid n value other = rw (G name_oid refl, I.of_varchar) refl
  convert_value-physical f I g G date_oid n value other = rw (G date_oid refl, I.of_date) refl
  convert_value-physical f I g G timestamp_oid n value other =
      rw (G timestamp_oid refl, I.of_timestamp) refl
  convert_value-physical f I g G timestamptz_oid n value other =
      rw (G timestamptz_oid refl, I.of_timestamp_tz) refl
  convert_value-physical f I g G time_oid n value other = elim (other refl) [ ]
  convert_value-physical f I g G uuid_oid n value other = rw (G uuid_oid refl, I.of_uuid) refl
  convert_value-physical f I g G json_oid n value other = rw (G json_oid refl, I.of_json) refl
  convert_value-physical f I g G jsonb_oid n value other = rw (G jsonb_oid refl, I.of_json) refl
  convert_value-physical f I g G (other_oid oid) n value other = sym I.of_varchar

  -- Where DuckDB's physical types are the documented ones and PostgreSQL's `time` is no array, a
  -- value of type `time` is written as text, while the vector of its column holds 64-bit integers.
  pub convert_value-time :
      (internal_type : LogicalType → PhysicalType)
      → IsInternal internal_type
      → (get_element_type : TypeOid → Option TypeOid) → HasNoElements get_element_type
      → (attndims : ℕ) (value : R.Datum)
      → (physical (convert_value R time_oid value) ≡ varchar_data)
        × (internal_type (column_type get_element_type time_oid attndims) ≡ int64_data)
  unfolding convert_value column_type base_duck_type is_sqlnull
  convert_value-time f I g G n value = (refl, rw (G time_oid refl, I.of_time) refl)
