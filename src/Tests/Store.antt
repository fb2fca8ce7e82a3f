-- ===== src/Tests/Store.antt =====
-- The catalog of sample metadata tables: a visible table with a nested column and a column that has
-- ended, a table that has ended, a view and a partition.
use mathlib.Core.List.{Permᴰ}
use mathlib.Core.List.Permᴰ
use pg_ducklake_next.Base.{
  ℕ, ◌≡◌, refl, String, true, Option, none, some, List, [], ◌∷◌, inl, inr, arith,
}
use pg_ducklake_next.Base.{map}
use pg_ducklake_next.Metadata.Tables.Collected.{all_entries}
use pg_ducklake_next.Metadata.Tables.Siblings.{children_of}
use pg_ducklake_next.Metadata.Store.Needs.{IsLoadable, get_catalog_for_snapshot-IsLoadable}
use pg_ducklake_next.Base.{All}
use pg_ducklake_next.Metadata.Store.ColumnOrder.{
  Joined, IsByColumnOrder, AreColumnsUnique, AreAscending, without_tags, info_of,
  get_catalog_for_snapshot-column_order,
}
use pg_ducklake_next.Base.Result.{ok}
use pg_ducklake_next.Metadata.Values.{load_tags, load_inlined_data_tables}
use pg_ducklake_next.Metadata.Schemas.{SchemaRow}
use pg_ducklake_next.Metadata.Tables.{TableRow, load_unless_null}
use pg_ducklake_next.Metadata.Views.{ViewRow}
use pg_ducklake_next.Metadata.Partitions.{PartitionRow}
use pg_ducklake_next.Metadata.Catalog.{Answers, CatalogInfo, get_catalog_for_snapshot}
use pg_ducklake_next.Metadata.Records.{Lifetime, Store, TableRecord, ColumnRecord, ViewRecord}
use pg_ducklake_next.Metadata.Store.{
  Aggregates, is_visible, schema_query, row_of_join, table_query, view_query, partition_query,
  tags_of_object, tags_of_column, inlined_of_table,
}
use pg_ducklake_next.Metadata.Store.Answer.{IsAnswer, IsTableOk, IsStoreOk}
use pg_ducklake_next.Metadata.Store.Refinement.{IsCatalogAt, get_catalog_for_snapshot-refines}
use pg_ducklake_next.Tests.Samples.{Sample, null, text, number, pair, no_items, item, duckdb}

abbrev value_of : Option String → Sample
value_of none = null
value_of (some s) = text s

abbrev tag_list : List (Option String × Option String) → Sample
tag_list [] = no_items
tag_list ((k, v) ∷ tags) = item (pair (value_of k) (value_of v)) (tag_list tags)

abbrev inlined_list : List (String × ℕ) → Sample
inlined_list [] = no_items
inlined_list ((n, v) ∷ tables) = item (pair (text n) (number v)) (inlined_list tables)

abbrev pub aggregates : Aggregates Sample
aggregates = record { tag_array = tag_list; inlined_array = inlined_list }

abbrev from_on : ℕ → Lifetime
from_on b = record { begin_snapshot = some b; end_snapshot = none }

abbrev until : ℕ → Lifetime
until e = record { begin_snapshot = some 0; end_snapshot = some e }

abbrev table_record : ℕ → Lifetime → TableRecord
table_record id lifetime = record {
  table_id = id;
  table_uuid = "u2";
  lifetime = lifetime;
  schema_id = 1;
  table_name = "t";
  path = some "t/";
  path_is_relative = true;
}

abbrev column_record : ℕ → Lifetime → Option ℕ → ColumnRecord
column_record id lifetime parent = record {
  column_id = id;
  column_order = id;
  lifetime = lifetime;
  table_id = 7;
  column_name = "c";
  column_type = "int32";
  initial_default = none;
  default_value = none;
  nulls_allowed = true;
  parent_column = parent;
}

abbrev view_record : ViewRecord
view_record = record {
  view_id = 3;
  view_uuid = "u3";
  lifetime = from_on 2;
  schema_id = 1;
  view_name = "v";
  dialect = "duckdb";
  sql = "SELECT 1";
  column_aliases = "";
}

abbrev pub one_schema : SchemaRow
one_schema = record {
  schema_id = 1;
  schema_uuid = "u1";
  schema_name = "public";
  path = none;
  path_is_relative = true;
}

abbrev pub store : Store
store = record {
  schemas = record { row = one_schema; lifetime = from_on 0 } ∷ [];
  tables = table_record 8 (until 2) ∷ table_record 7 (from_on 1) ∷ [];
  columns =
      column_record 2 (from_on 1) (some 1)
      ∷ column_record 5 (until 2) none
      ∷ column_record 1 (from_on 1) none
      ∷ [];
  tags = record { object_id = 7; lifetime = from_on 1; key = some "k"; value = some "x" } ∷ [];
  column_tags =
      record { table_id = 7; column_id = 1; lifetime = until 2; key = some "k"; value = some "y" }
      ∷ [];
  inlined_data_tables = record { table_id = 7; table_name = "i"; schema_version = 1 } ∷ [];
  views = view_record ∷ [];
  partition_infos = record { partition_id = 4; table_id = 7; lifetime = from_on 1 } ∷ [];
  partition_columns =
      record { partition_id = 4; partition_key_index = 0; column_id = 1; transform = "identity" }
      ∷ [];
}

abbrev joined : ℕ → Option ℕ → TableRow Sample
joined id parent =
    row_of_join Sample aggregates store 4 (table_record 7 (from_on 1))
      (some (column_record id (from_on 1) parent))

abbrev joined_columns : List Joined
joined_columns =
    (table_record 7 (from_on 1), column_record 1 (from_on 1) none)
    ∷ (table_record 7 (from_on 1), column_record 2 (from_on 1) (some 1))
    ∷ []

abbrev pub table_rows : List (TableRow Sample)
table_rows = joined 1 none ∷ joined 2 (some 1) ∷ []

abbrev pub view_rows : List (ViewRow Sample)
view_rows = view_query Sample aggregates store 4

abbrev pub partition_rows : List PartitionRow
partition_rows = partition_query store 4

pub rows-IsAnswer :
    IsAnswer duckdb aggregates store 4 (one_schema ∷ []) table_rows view_rows partition_rows
unfolding schema_query table_query partition_query
rows-IsAnswer = record {
  schemas = Permᴰ.refl _;
  tables = Permᴰ.swap refl refl;
  tables_ordered = ((inr (refl, tt), tt), (tt, tt));
  views = Permᴰ.refl _;
  partitions = Permᴰ.refl _;
  partitions_ordered = (tt, tt);
}

table-IsTableOk : IsTableOk duckdb aggregates store 4 (table_record 7 (from_on 1))
unfolding is_visible tags_of_object inlined_of_table tags_of_column load_tags
    load_inlined_data_tables load_unless_null
table-IsTableOk = record {
  schema = inl refl;
  tags = (_, refl);
  inlined = (_, refl);
  has_columns = λ e. cc;
  columns = (
    record { tags = ([], refl); parent = λ p e. (inr (inl (ground arith)), ground arith) },
    (record { tags = ([], refl); parent = λ p e. absurd (ground arith) }, tt),
  );
}

pub store-IsStoreOk : IsStoreOk duckdb aggregates store 4
unfolding is_visible tags_of_object load_unless_null
store-IsStoreOk = record {
  tables = (table-IsTableOk, tt);
  views = (record { tags = ([], refl); aliases = ([], refl) }, tt);
}

get_catalog_for_snapshot-refines_example :
    (catalog : CatalogInfo) × (get_catalog_for_snapshot duckdb "data/" (record {
      schema_rows = ok (one_schema ∷ []);
      table_rows = ok table_rows;
      view_rows = ok view_rows;
      partition_rows = ok partition_rows;
    })
      ≡ ok catalog)
    × IsCatalogAt duckdb aggregates store 4 "data/" catalog
get_catalog_for_snapshot-refines_example =
    get_catalog_for_snapshot-refines duckdb aggregates store 4 "data/" store-IsStoreOk
      (one_schema ∷ []) table_rows view_rows partition_rows rows-IsAnswer

abbrev answers : Answers Sample
answers = record {
  schema_rows = ok (one_schema ∷ []);
  table_rows = ok table_rows;
  view_rows = ok view_rows;
  partition_rows = ok partition_rows;
}

loaded : (catalog : CatalogInfo) × (get_catalog_for_snapshot duckdb "data/" answers ≡ ok catalog)
loaded =
    let (catalog, e, _) =
      get_catalog_for_snapshot-refines duckdb aggregates store 4 "data/" store-IsStoreOk
        (one_schema ∷ []) table_rows view_rows partition_rows rows-IsAnswer in
    (catalog, e)

columns-IsByColumnOrder : IsByColumnOrder joined_columns
columns-IsByColumnOrder = ((λ e f. cc, tt), (tt, tt))

columns-AreColumnsUnique : AreColumnsUnique joined_columns
columns-AreColumnsUnique = ((λ e f. ground arith, tt), (tt, tt))

get_catalog_for_snapshot-column_order_example :
    (map without_tags (children_of 7 (some 1) (all_entries loaded.0.tables))
      ≡ info_of (column_record 2 (from_on 1) (some 1)) ∷ [])
    × AreAscending (column_record 2 (from_on 1) (some 1) ∷ [])
get_catalog_for_snapshot-column_order_example =
    get_catalog_for_snapshot-column_order duckdb aggregates store 4 joined_columns
      columns-IsByColumnOrder columns-AreColumnsUnique "data/" answers loaded.0 refl loaded.1 7
      (some 1)

get_catalog_for_snapshot-IsLoadable_example :
    All (IsLoadable duckdb aggregates store 4) (table_record 7 (from_on 1) ∷ [])
unfolding is_visible
get_catalog_for_snapshot-IsLoadable_example =
    get_catalog_for_snapshot-IsLoadable duckdb aggregates store 4 table_rows rows-IsAnswer.tables
      "data/" answers loaded.0 refl loaded.1
