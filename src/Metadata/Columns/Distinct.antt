-- ===== src/Metadata/Columns/Distinct.antt =====
-- Column trees in which no id stands twice.
use pg_ducklake_next.Base.{
  ℕ, ◌≡◌, refl, ◌∙◌, subst, true, false, ◌||◌, ◌==◌, Bool-cases, inl, inr, ==_iff, arith,
}
use pg_ducklake_next.Metadata.Columns.{
  ColumnInfo, Columns, nil, column, push_back, add_child_column,
}
use pg_ducklake_next.Metadata.Columns.Entries.{
  has_id, found-add_child_column, add_child_column-absent, has_id-push_back,
  has_id-add_child_column,
}

-- No id stands twice in the tree.
abbrev pub IsDistinct : Columns → Type 0
IsDistinct nil = Unit
IsDistinct (column col children rest) =
    ((id : ℕ) → (col.id == id || has_id children id) ≡ true → has_id rest id ≡ false)
    × (has_id children col.id ≡ false)
    × IsDistinct children
    × IsDistinct rest

pub push_back-IsDistinct :
    (cs : Columns) (c : ColumnInfo)
    → IsDistinct cs
    → has_id cs c.id ≡ false
    → IsDistinct (push_back cs c)
unfolding push_back has_id
push_back-IsDistinct nil c d new = ((λ id h. refl), refl, tt, tt)
push_back-IsDistinct (column col children rest) c d new = (
  (λ id h. elim (Bool-cases (c.id == id)) [
    | inl same ↦
        let e : c.id ≡ id = (==_iff c.id id).0 same in
        let there : (col.id == c.id || has_id children c.id) ≡ true = rw e h in ground arith
    | inr other ↦ has_id-push_back rest c id ∙ rw (other, d.0 id h) refl
  ]),
  d.1,
  d.2,
  push_back-IsDistinct rest c d.3 (ground arith),
)

-- One more new id below the first column keeps the ids apart.
add_below-IsDistinct :
    (col : ColumnInfo) (children children' rest : Columns) (c : ColumnInfo)
    → IsDistinct (column col children rest)
    → has_id (column col children rest) c.id ≡ false
    → IsDistinct children'
    → ((id : ℕ) → has_id children' id ≡ (c.id == id || has_id children id))
    → IsDistinct (column col children' rest)
unfolding has_id
add_below-IsDistinct col children children' rest c d new distinct has =
    let apart : (id : ℕ) → (col.id == id || has_id children' id) ≡ true → has_id rest id ≡ false =
      λ id h. elim (Bool-cases (c.id == id)) [
        | inl same ↦
            let e : c.id ≡ id = (==_iff c.id id).0 same in
            let free : has_id rest c.id ≡ false = ground arith in
            subst (λ i. has_id rest i ≡ false) e free
        | inr other ↦
            let there : (col.id == id || has_id children id) ≡ true = rw (has id, other) at h in
            d.0 id there
      ] in
    let fresh : has_id children' col.id ≡ false = has col.id ∙ ground (arith, d.1) in
    (apart, fresh, distinct, d.3)

-- A new id below a parent keeps the ids apart.
pub add_child_column-IsDistinct :
    (cs : Columns) (p : ℕ) (c : ColumnInfo)
    → IsDistinct cs
    → has_id cs p ≡ true
    → has_id cs c.id ≡ false
    → IsDistinct (add_child_column cs p c).0
unfolding add_child_column has_id
add_child_column-IsDistinct nil p c d h new = cc
add_child_column-IsDistinct (column col children rest) p c d h new =
    elim (Bool-cases (col.id == p)) [
      | inl here ↦ rw here (
          add_below-IsDistinct col children (push_back children c) rest c d new
            (push_back-IsDistinct children c d.2 (ground arith)) (has_id-push_back children c))
      | inr elsewhere ↦ elim (Bool-cases (has_id children p)) [
        | inl inside ↦
            let found : (add_child_column children p c).1 ≡ true =
              found-add_child_column children p c ∙ inside in
            rw (elsewhere, found)
              (add_below-IsDistinct col children (add_child_column children p c).0 rest c d new
                (add_child_column-IsDistinct children p c d.2 inside (ground arith))
                (λ id. has_id-add_child_column children p c id inside))
        | inr outside ↦
            let missed : (add_child_column children p c).1 ≡ false =
              found-add_child_column children p c ∙ outside in
            let later : has_id rest p ≡ true = ground arith in
            let apart : (id : ℕ)
                → (col.id == id || has_id children id) ≡ true
                → has_id (add_child_column rest p c).0 id ≡ false =
              λ id k. elim (Bool-cases (c.id == id)) [
                | inl same ↦
                    let e : c.id ≡ id = (==_iff c.id id).0 same in
                    let there : (col.id == c.id || has_id children c.id) ≡ true = rw e k in
                    ground arith
                | inr other ↦ has_id-add_child_column rest p c id later ∙ rw (other, d.0 id k) refl
              ] in
            rw (elsewhere, missed, add_child_column-absent children p c outside)
              (apart, d.1, d.2, add_child_column-IsDistinct rest p c d.3 later (ground arith))
      ]
    ]
