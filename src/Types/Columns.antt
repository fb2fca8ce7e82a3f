-- ===== src/Types/Columns.antt =====
-- `ConvertPostgresToBaseDuckType` and `ConvertPostgresToDuckColumnType`.
use pg_ducklake_next.Base.{ℕ, zero, suc, if◌then◌else◌, ◌==◌, Bool, true, false, Option, none, some}

-- The oids that the file names.
pub data TypeOid : Type 0 where
  bool_oid int2_oid int4_oid int8_oid float4_oid float8_oid numeric_oid : TypeOid
  text_oid varchar_oid bpchar_oid name_oid : TypeOid
  date_oid timestamp_oid timestamptz_oid time_oid uuid_oid json_oid jsonb_oid : TypeOid
  other_oid : ℕ → TypeOid

-- `duckdb::LogicalType`, as far as the file names it.
pub data LogicalType : Type 0 where
  boolean smallint integer bigint float double varchar date timestamp timestamp_tz time uuid :
      LogicalType
  json sqlnull : LogicalType
  list_of : LogicalType → LogicalType

unfoldable pub base_duck_type : TypeOid → LogicalType
base_duck_type bool_oid = boolean
base_duck_type int2_oid = smallint
base_duck_type int4_oid = integer
base_duck_type int8_oid = bigint
base_duck_type float4_oid = float
base_duck_type float8_oid = double
base_duck_type numeric_oid = double
base_duck_type text_oid = varchar
base_duck_type varchar_oid = varchar
base_duck_type bpchar_oid = varchar
base_duck_type name_oid = varchar
base_duck_type date_oid = date
base_duck_type timestamp_oid = timestamp
base_duck_type timestamptz_oid = timestamp_tz
base_duck_type time_oid = time
base_duck_type uuid_oid = uuid
base_duck_type json_oid = json
base_duck_type jsonb_oid = json
base_duck_type (other_oid n) = sqlnull

-- `type.id() == LogicalTypeId::SQLNULL`
unfoldable pub is_sqlnull : LogicalType → Bool
is_sqlnull sqlnull = true
is_sqlnull boolean = false
is_sqlnull smallint = false
is_sqlnull integer = false
is_sqlnull bigint = false
is_sqlnull float = false
is_sqlnull double = false
is_sqlnull varchar = false
is_sqlnull date = false
is_sqlnull timestamp = false
is_sqlnull timestamp_tz = false
is_sqlnull time = false
is_sqlnull uuid = false
is_sqlnull json = false
is_sqlnull (list_of t) = false

-- The loop over the dimensions.
unfoldable pub list_type : ℕ → LogicalType → LogicalType
list_type zero t = t
list_type (suc n) t = list_type n (list_of t)

-- The part for an array of `elem_type`.
unfoldable pub array_type : ℕ → TypeOid → LogicalType
unfolding is_sqlnull base_duck_type list_type
array_type attndims elem_type =
    if is_sqlnull (base_duck_type elem_type)
    then varchar
    else list_type (if attndims == 0 then 1 else attndims) (base_duck_type elem_type)

-- The attribute is its type and its number of dimensions; `get_element_type` is PostgreSQL's, with
-- `none` for InvalidOid.
unfoldable pub column_type : (TypeOid → Option TypeOid) → TypeOid → ℕ → LogicalType
unfolding is_sqlnull base_duck_type array_type
column_type get_element_type atttypid attndims =
    if is_sqlnull (base_duck_type atttypid) then varchar else elim (get_element_type atttypid) [
      | none ↦ base_duck_type atttypid
      | some elem_type ↦ array_type attndims elem_type
    ]
