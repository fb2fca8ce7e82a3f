-- ===== src/Types/Values.antt =====
-- `ConvertPostgresToDuckValue`: what it writes at an offset of the result vector. A w-bit integer
-- is its bit pattern, a number below 2 ^ w; where an addition overflows, C++ leaves the result open
-- for signed integers, and the usual wrap-around is written here.
pub mod Layout
pub mod Midnight
use pg_ducklake_next.Base.{
  ℕ, zero, suc, ◌+◌, ◌*◌, ◌%◌, ◌^◌, String, Bool, true, false, List, [], ◌∷◌, take, drop,
}
use pg_ducklake_next.Types.Columns.{
  TypeOid, bool_oid, int2_oid, int4_oid, int8_oid, float4_oid, float8_oid, numeric_oid, text_oid,
  varchar_oid, bpchar_oid, name_oid, date_oid, timestamp_oid, timestamptz_oid, time_oid, uuid_oid,
  json_oid, jsonb_oid, other_oid,
}

-- Days and microseconds from 1970-01-01 to 2000-01-01.
abbrev pub duck_date_offset : ℕ
duck_date_offset = 10957

abbrev pub duck_timestamp_offset : ℕ
duck_timestamp_offset = duck_date_offset * 86400000000

-- PostgreSQL's readers of a Datum; `output` is the type's output function.
pub record DatumReader : Type 1 where
  pub Datum : Type 0
  pub Float : Type 0
  pub Double : Type 0
  pub get_bool : Datum → Bool
  pub get_int16 : Datum → ℕ
  pub get_int32 : Datum → ℕ
  pub get_int64 : Datum → ℕ
  pub get_float4 : Datum → Float
  pub get_float8 : Datum → Double
  pub numeric_float8 : Datum → Double
  pub get_text : Datum → String
  pub uuid_data : Datum → List ℕ
  pub jsonb_out : Datum → String
  pub output : TypeOid → Datum → String

-- `date_t(pg_date + DUCK_DATE_OFFSET)` and `timestamp_t(pg_ts + DUCK_TIMESTAMP_OFFSET)`
unfoldable pub date_of : ℕ → ℕ
date_of pg_date = (pg_date + duck_date_offset) % 2 ^ 32

unfoldable pub timestamp_of : ℕ → ℕ
timestamp_of pg_ts = (pg_ts + duck_timestamp_offset) % 2 ^ 64

-- The number of which the bytes are a copy in memory, the low byte first.
unfoldable pub little_endian : List ℕ → ℕ
little_endian [] = 0
little_endian (b ∷ bs) = b + 256 * little_endian bs

module _ (R : DatumReader) where
  open R use {
    Datum, Float, Double, get_bool, get_int16, get_int32, get_int64, get_float4, get_float8,
    numeric_float8, get_text, uuid_data, jsonb_out, output,
  }

  -- An element of the vector's data, by the C++ type that it is written as; a `hugeint_t` is its
  -- lower and its upper half.
  pub data Written : Type 0 where
    as_bool : Bool → Written
    as_int16 as_int32 as_int64 : ℕ → Written
    as_float : Float → Written
    as_double : Double → Written
    as_string : String → Written
    as_date as_timestamp : ℕ → Written
    as_hugeint : ℕ → ℕ → Written

  unfoldable pub convert_value : TypeOid → Datum → Written
  unfolding date_of timestamp_of little_endian
  convert_value bool_oid value = as_bool (get_bool value)
  convert_value int2_oid value = as_int16 (get_int16 value)
  convert_value int4_oid value = as_int32 (get_int32 value)
  convert_value int8_oid value = as_int64 (get_int64 value)
  convert_value float4_oid value = as_float (get_float4 value)
  convert_value float8_oid value = as_double (get_float8 value)
  convert_value numeric_oid value = as_double (numeric_float8 value)
  convert_value text_oid value = as_string (get_text value)
  convert_value varchar_oid value = as_string (get_text value)
  convert_value bpchar_oid value = as_string (get_text value)
  convert_value name_oid value = as_string (get_text value)
  convert_value date_oid value = as_date (date_of (get_int32 value))
  convert_value timestamp_oid value = as_timestamp (timestamp_of (get_int64 value))
  convert_value timestamptz_oid value = as_timestamp (timestamp_of (get_int64 value))
  convert_value uuid_oid value =
      as_hugeint (little_endian (take 8 (uuid_data value)))
        (little_endian (take 8 (drop 8 (uuid_data value))))
  convert_value json_oid value = as_string (jsonb_out value)
  convert_value jsonb_oid value = as_string (jsonb_out value)
  convert_value time_oid value = as_string (output time_oid value)
  convert_value (other_oid n) value = as_string (output (other_oid n) value)
