-- ===== src/Spi/Cells.antt =====
-- The conversion of one datum in `InsertSPITupleTableIntoChunk` of
-- src/pgducklake_metadata_manager.cpp: the detoasting and `ConvertPostgresToDuckValue` together,
-- which Spi/Chunks takes as a parameter.
pub mod Physical
use pg_ducklake_next.Base.{ℕ, Bool, true, false, Option}
use pg_ducklake_next.Types.Columns.{TypeOid}
use pg_ducklake_next.Types.Values.{DatumReader, Written, convert_value}
use pg_ducklake_next.Types.Detoast.{Varlena, Toast, detoast_postgres_datum}
use pg_ducklake_next.Spi.Chunks.{TupleAccess}

-- `Form_pg_attribute`: `is_varlena` is `attlen == -1`.
pub record Attribute : Type 0 where
  pub atttypid : TypeOid
  pub is_varlena : Bool
  pub attndims : ℕ

-- PostgreSQL's readers; a datum of variable length is a pointer to a `varlena`.
pub record CellReader : Type 1 where
  pub reader : DatumReader
  pub toast : Toast
  pub varlena_of : reader.Datum → Varlena
  pub pointer_get_datum : Varlena → reader.Datum
  -- `SPI_getbinval`
  pub Tuple : Type 0
  pub get_binval : Tuple → ℕ → Option reader.Datum

module _ (R : CellReader) where
  -- The datum that is converted: by `attlen`, detoasted or as it is.
  unfoldable pub datum_to_convert : Bool → R.reader.Datum → R.reader.Datum
  unfolding detoast_postgres_datum
  datum_to_convert true datum =
      R.pointer_get_datum (detoast_postgres_datum R.toast (R.varlena_of datum)).0
  datum_to_convert false datum = datum

  unfoldable pub convert_cell : Attribute → R.reader.Datum → Written R.reader
  unfolding datum_to_convert convert_value
  convert_cell attr datum =
      convert_value R.reader attr.atttypid (datum_to_convert attr.is_varlena datum)

  -- The tuples of the chunk loop with this conversion.
  abbrev pub spi_tuples : TupleAccess
  spi_tuples = record {
    Attribute = Attribute;
    Tuple = R.Tuple;
    Datum = R.reader.Datum;
    V = Written R.reader;
    get_binval = R.get_binval;
    convert = convert_cell;
  }
