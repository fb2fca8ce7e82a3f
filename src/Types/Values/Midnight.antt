-- ===== src/Types/Values/Midnight.antt =====
-- Dates and timestamps that are converted, against each other.
use pg_ducklake_next.Base.{
  zero, suc, ◌==◌, ◌&&◌, ◌||◌, not, if◌then◌else◌, ℕ, ◌+◌, ◌*◌, ◌-◌, ◌%◌, ◌^◌, ◌<◌, ◌≡◌, refl,
  arith,
}
use pg_ducklake_next.Types.Columns.{date_oid, timestamp_oid, timestamptz_oid}
use pg_ducklake_next.Types.Values.{
  DatumReader, as_date, as_timestamp, date_of, timestamp_of, convert_value,
}

-- The signed number of a 32-bit pattern, plus 2 ^ 31.
abbrev pub biased32 : ℕ → ℕ
biased32 w = (w + 2 ^ 31) % 2 ^ 32

-- The 64 bits of the microseconds of a day's midnight, from the 32 bits of its signed day number:
-- the same for PostgreSQL's epoch and for DuckDB's.
abbrev pub midnight : ℕ → ℕ
midnight day = (biased32 day * 86400000000 + (11 * 2 ^ 64 - 2 ^ 31 * 86400000000)) % 2 ^ 64

-- The Gregorian calendar: a year's days, and those of so many years from one on.
abbrev pub year_days : ℕ → ℕ
year_days year =
    if (year % 4 == 0) && (not (year % 100 == 0) || (year % 400 == 0)) then 366 else 365

abbrev pub days_of_years : ℕ → ℕ → ℕ
days_of_years year zero = 0
days_of_years year (suc n) = year_days year + days_of_years (suc year) n

-- The days from DuckDB's epoch to PostgreSQL's.
abbrev pub between_epochs : ℕ
between_epochs = days_of_years 1970 30

between_epochs-days : between_epochs ≡ 10957
between_epochs-days = refl

date_of-between_epochs :
    (day : ℕ)
    → biased32 day + between_epochs < 2 ^ 32
    → biased32 (date_of day) ≡ biased32 day + between_epochs
unfolding date_of
date_of-between_epochs day h = let e = between_epochs-days in omega (arith, e, h)

midnight-date_of :
    (day : ℕ)
    → biased32 day + between_epochs < 2 ^ 32
    → timestamp_of (midnight day) ≡ midnight (date_of day)
unfolding date_of timestamp_of
midnight-date_of day h = let e = between_epochs-days in omega (arith, e, h)

module _ (R : DatumReader) where
  -- A date whose day stays in 32 bits as a signed number when the days of the years 1970 to 1999
  -- are added is converted to the date that is these days later, as DuckDB's epoch asks. A
  -- timestamp, with time zone or without, that PostgreSQL holds for the date's midnight is
  -- converted to the one that DuckDB holds for the midnight of the converted date.
  pub convert_value-midnight :
      (date timestamp : R.Datum)
      → biased32 (R.get_int32 date) + between_epochs < 2 ^ 32
      → R.get_int64 timestamp ≡ midnight (R.get_int32 date)
      → (day : ℕ) × (convert_value R date_oid date ≡ as_date day)
        × (biased32 day ≡ biased32 (R.get_int32 date) + between_epochs)
        × (convert_value R timestamp_oid timestamp ≡ as_timestamp (midnight day))
        × (convert_value R timestamptz_oid timestamp ≡ as_timestamp (midnight day))
  unfolding convert_value
  convert_value-midnight date timestamp h e =
      let same = midnight-date_of (R.get_int32 date) h in
      (
        date_of (R.get_int32 date),
        refl,
        date_of-between_epochs (R.get_int32 date) h,
        rw (e, same) refl,
        rw (e, same) refl,
      )
