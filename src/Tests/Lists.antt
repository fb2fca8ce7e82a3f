-- ===== src/Tests/Lists.antt =====
-- The column tree, the tags and the texts of small inputs.
use mathlib.Core.List.{Perm}
use pg_ducklake_next.Base.{ℕ, ◌≡◌, ◌↔◌, refl, ◌<>◌, true, false, none, some, List, [], ◌∷◌, Any}
use pg_ducklake_next.Base.Result.{ok}
use pg_ducklake_next.Metadata.Columns.{Columns, nil, column, add_child_column}
use pg_ducklake_next.Metadata.Columns.Entries.{entries, has_id, entries-add_child_column}
use pg_ducklake_next.Metadata.Values.{load_tags}
use pg_ducklake_next.Metadata.Values.Tags.{TagStruct, load_tags-structs}
use pg_ducklake_next.Metadata.Sql.{ClassRow, wrap_with_list_aggregation, is_initialized}
use pg_ducklake_next.Metadata.Sql.Joined.{
  comma_separated, IsMetadataTable, wrap_with_list_aggregation-separated, is_initialized_iff,
}
use pg_ducklake_next.Tests.Samples.{Sample, null, text, pair, no_items, item, duckdb, column_of}

-- A column 1 with a nested column 2, and a column 3.
abbrev tree : Columns
tree = column (column_of 1) (column (column_of 2) nil nil) (column (column_of 3) nil nil)

tree-has : has_id tree 2 ≡ true
unfolding has_id
tree-has = refl

tree-has_not : has_id tree 9 ≡ false
unfolding has_id
tree-has_not = refl

entries-add_child_column_example :
    Perm
      (entries none (add_child_column tree 2 (column_of 4)).0)
      ((some 2, column_of 4) ∷ entries none tree)
entries-add_child_column_example = entries-add_child_column none tree 2 (column_of 4) tree-has

abbrev tag_struct : Sample → TagStruct duckdb
tag_struct v = record {
  element = pair (text "k") v;
  key = text "k";
  value = v;
  cast = pair (text "k") v;
  casts = refl;
  has_children = refl;
}

abbrev tag_structs : List (TagStruct duckdb)
tag_structs = tag_struct (text "a") ∷ tag_struct null ∷ []

load_tags-structs_example :
    load_tags duckdb (item (pair (text "k") (text "a")) (item (pair (text "k") null) no_items))
    ≡ ok (record { key = "k"; value = "a" } ∷ [])
load_tags-structs_example =
    load_tags-structs duckdb
      (item (pair (text "k") (text "a")) (item (pair (text "k") null) no_items)) tag_structs refl

wrap_with_list_aggregation-separated_example :
    wrap_with_list_aggregation (("key", "a") ∷ ("value", "b") ∷ [])
    ≡ "json_agg(json_build_object(" <> comma_separated (("key", "a") ∷ ("value", "b") ∷ []) <> "))"
wrap_with_list_aggregation-separated_example =
    wrap_with_list_aggregation-separated (("key", "a") ∷ ("value", "b") ∷ [])

abbrev class_rows : ℕ → List ClassRow
class_rows oid = record { relname = "ducklake_table"; relnamespace = 3; is_relation = true } ∷ []

is_initialized_iff_example :
    (is_initialized (λ name. some 3) class_rows ≡ true)
    ↔ ((oid : ℕ) × (some 3 ≡ some oid) × Any IsMetadataTable (class_rows oid))
is_initialized_iff_example = is_initialized_iff (λ name. some 3) class_rows
