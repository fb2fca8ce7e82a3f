-- ===== src/Metadata/Partitions/Fields.antt =====
-- The partitions that the loop over the partition rows makes, and the fields in them.
use mathlib.Core.List.{reverse, reverse-cons, append_assoc, append-nil, map-append}
use pg_ducklake_next.Base.{
  ℕ, ◌≤◌, ◌<◌, ◌≡◌, refl, sym, ap, true, List, [], ◌∷◌, ◌++◌, map, All, All-map, arith, Bool-cases,
  inl, inr, ◌==◌, ==_iff, if◌then◌else◌,
}
use pg_ducklake_next.Metadata.Tables.Groups.{Ascending, Descending, Ascending-reverse}
use pg_ducklake_next.Metadata.Partitions.{
  PartitionRow, PartitionFieldInfo, PartitionInfo, partition_field, starts_partition,
  add_partition_row, add_partition_rows, load_partitions,
}

abbrev pub TableField : Type 0
TableField = ℕ × PartitionFieldInfo

-- The fields of a partition, with its table.
abbrev pub partition_fields : PartitionInfo → List TableField
partition_fields p = map (λ f. (p.table_id, f)) p.fields

abbrev pub all_fields : List PartitionInfo → List TableField
all_fields [] = []
all_fields (p ∷ ps) = partition_fields p ++ all_fields ps

abbrev pub row_field : PartitionRow → TableField
row_field row = (row.table_id, partition_field row)

all_fields-append :
    (ps qs : List PartitionInfo) → all_fields (ps ++ qs) ≡ all_fields ps ++ all_fields qs
all_fields-append [] qs = refl
all_fields-append (p ∷ ps) qs =
    rw (all_fields-append ps qs, append_assoc (partition_fields p) (all_fields ps) (all_fields qs))
      refl

all_fields-reverse-cons :
    (p : PartitionInfo) (ps : List PartitionInfo)
    → all_fields (reverse (p ∷ ps)) ≡ all_fields (reverse ps) ++ partition_fields p
all_fields-reverse-cons p ps =
    rw (reverse-cons p ps, all_fields-append (reverse ps) (p ∷ []), append-nil (partition_fields p))
      refl

add_partition_row-fields :
    (ps : List PartitionInfo) (row : PartitionRow)
    → all_fields (reverse (add_partition_row ps row))
      ≡ all_fields (reverse ps) ++ row_field row ∷ []
unfolding add_partition_row
add_partition_row-fields [] row = refl
add_partition_row-fields (back ∷ older) row = elim (Bool-cases (back.table_id == row.table_id)) [
  | inl same ↦
      let extended : PartitionInfo = record back {
        fields = back.fields ++ partition_field row ∷ [];
      } in
      let before = all_fields (reverse older) in
      rw
        (
          same,
          all_fields-reverse-cons extended older,
          all_fields-reverse-cons back older,
          map-append {B = TableField} (λ f. (back.table_id, f)) back.fields
              (partition_field row ∷ []),
          append_assoc before (partition_fields back) (row_field row ∷ []),
        )
        (ap (λ id. before ++ (partition_fields back ++ (id, partition_field row) ∷ []))
          ((==_iff back.table_id row.table_id).0 same))
  | inr other ↦ rw other (all_fields-reverse-cons _ (back ∷ older))
]

add_partition_rows-fields :
    (ps : List PartitionInfo) (rows : List PartitionRow)
    → all_fields (reverse (add_partition_rows ps rows))
      ≡ all_fields (reverse ps) ++ map row_field rows
unfolding add_partition_rows
add_partition_rows-fields ps [] = rw (append-nil (all_fields (reverse ps))) refl
add_partition_rows-fields ps (row ∷ rows) =
    rw
      (
        add_partition_rows-fields (add_partition_row ps row) rows,
        add_partition_row-fields ps row,
        append_assoc (all_fields (reverse ps)) (row_field row ∷ []) (map row_field rows),
      )
      refl

-- The fields of the loaded partitions, each with its partition's table, are the fields of the rows
-- with the rows' tables, in row order.
pub load_partitions-fields :
    (rows : List PartitionRow) → all_fields (load_partitions rows) ≡ map row_field rows
unfolding load_partitions
load_partitions-fields rows = add_partition_rows-fields [] rows

-- The query's ORDER BY, as far as it is used here.
abbrev pub IsByTable : List PartitionRow → Type 0
IsByTable [] = Unit
IsByTable (r ∷ rows) = All (λ q. r.table_id ≤ q.table_id) rows × IsByTable rows

abbrev pub partition_tables : List PartitionInfo → List ℕ
partition_tables = map (λ p. p.table_id)

partition_tables-reverse :
    (ps : List PartitionInfo) → partition_tables (reverse ps) ≡ reverse (partition_tables ps)
partition_tables-reverse [] = refl
partition_tables-reverse (p ∷ ps) =
    rw
      (
        reverse-cons p ps,
        reverse-cons p.table_id (partition_tables ps),
        map-append,
        partition_tables-reverse ps,
      )
      refl

add_partition_row-tables :
    (ps : List PartitionInfo) (row : PartitionRow)
    → partition_tables (add_partition_row ps row) ≡ (
        if starts_partition ps row.table_id
        then row.table_id ∷ partition_tables ps
        else partition_tables ps)
unfolding add_partition_row
add_partition_row-tables [] row = refl
add_partition_row-tables (back ∷ older) row = ground arith

add_partition_row-Descending :
    (ps : List PartitionInfo) (row : PartitionRow)
    → Descending (partition_tables ps)
    → All (λ m. m ≤ row.table_id) (partition_tables ps)
    → Descending (partition_tables (add_partition_row ps row))
      × All (λ m. m ≤ row.table_id) (partition_tables (add_partition_row ps row))
unfolding starts_partition
add_partition_row-Descending [] row d h =
    rw (add_partition_row-tables [] row) ((tt, tt), (omega arith, tt))
add_partition_row-Descending (back ∷ older) row d h =
    elim (Bool-cases (back.table_id == row.table_id)) [
      | inl same ↦ rw (add_partition_row-tables (back ∷ older) row, same) (d, h)
      | inr other ↦
          let before : back.table_id < row.table_id = ground (arith, h.0) in
          let below =
            All-map {Q = λ m. m < row.table_id} (partition_tables older) (λ m lt. omega arith)
              d.0 in
          rw (add_partition_row-tables (back ∷ older) row, other)
            (((before, below), d), (omega arith, h))
    ]

add_partition_rows-Descending :
    (ps : List PartitionInfo) (rows : List PartitionRow)
    → IsByTable rows
    → Descending (partition_tables ps)
    → All (λ r. All (λ m. m ≤ r.table_id) (partition_tables ps)) rows
    → Descending (partition_tables (add_partition_rows ps rows))
unfolding add_partition_rows
add_partition_rows-Descending ps [] o d h = d
add_partition_rows-Descending ps (row ∷ rows) o d h =
    let (d', le) = add_partition_row-Descending ps row d h.0 in
    add_partition_rows-Descending (add_partition_row ps row) rows o.1 d' (
      All-map rows
        (λ r rle. All-map (partition_tables (add_partition_row ps row)) (λ m mle. omega arith) le)
        o.0)

All-before : (rows : List PartitionRow) → All (λ r. All (λ m. m ≤ r.table_id) []) rows
All-before [] = tt
All-before (r ∷ rows) = (tt, All-before rows)

-- From rows with ascending table ids the loop makes partitions with strictly ascending table ids:
-- one for each table at most.
pub load_partitions-Ascending :
    (rows : List PartitionRow)
    → IsByTable rows
    → Ascending (partition_tables (load_partitions rows))
unfolding load_partitions
load_partitions-Ascending rows o =
    rw (partition_tables-reverse (add_partition_rows [] rows))
      (Ascending-reverse _ (add_partition_rows-Descending [] rows o tt (All-before rows)))

merge-add_partition_rows :
    (p : PartitionInfo) (rows : List PartitionRow)
    → All (λ r. r.table_id ≡ p.table_id) rows
    → add_partition_rows (p ∷ []) rows
      ≡ record p { fields = p.fields ++ map partition_field rows } ∷ []
unfolding add_partition_rows add_partition_row
merge-add_partition_rows p [] h = rw (append-nil p.fields) refl
merge-add_partition_rows p (row ∷ rows) h =
    let same : (p.table_id == row.table_id) ≡ true = (==_iff p.table_id row.table_id).1 (sym h.0) in
    let extended : PartitionInfo = record p { fields = p.fields ++ partition_field row ∷ [] } in
    rw
      (
        same,
        merge-add_partition_rows extended rows h.1,
        append_assoc p.fields (partition_field row ∷ []) (map partition_field rows),
      )
      refl

-- Rows of one table, whatever their partition ids, make one partition with the id of the first row
-- and the fields of all of them.
pub load_partitions-one_table :
    (row : PartitionRow) (rows : List PartitionRow)
    → All (λ r. r.table_id ≡ row.table_id) rows
    → load_partitions (row ∷ rows)
      ≡ record {
        id = row.partition_id;
        table_id = row.table_id;
        fields = map partition_field (row ∷ rows);
      }
        ∷ []
unfolding load_partitions add_partition_rows add_partition_row
load_partitions-one_table row rows h =
    rw
      (merge-add_partition_rows
        (record {
          id = row.partition_id;
          table_id = row.table_id;
          fields = partition_field row ∷ [];
        })
        rows h)
      refl
