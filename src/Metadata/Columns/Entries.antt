-- ===== src/Metadata/Columns/Entries.antt =====
-- A column tree as the collection of its entries: each column with the id of its parent. What
-- `push_back` and `AddChildColumn` do to that collection.
use mathlib.Core.List.{Perm, append_assoc, perm_append_singleton}
use pg_ducklake_next.Base.{
  ℕ, ◌≡◌, refl, Bool, true, false, ◌||◌, Option, some, List, [], ◌∷◌, ◌++◌, arith, ◌==◌, Bool-cases,
  inl, inr, ==_iff, perm_new_left, perm_new_right,
}
use pg_ducklake_next.Metadata.Columns.{
  ColumnInfo, Columns, nil, column, push_back, add_child_column,
}

abbrev pub Entry : Type 0
Entry = Option ℕ × ColumnInfo

-- The entries of the columns that stand under `parent`, and of all below them.
unfoldable pub entries : Option ℕ → Columns → List Entry
entries parent nil = []
entries parent (column col children rest) =
    (parent, col) ∷ (entries (some col.id) children ++ entries parent rest)

-- A column of that id stands somewhere in the tree.
unfoldable pub has_id : Columns → ℕ → Bool
has_id nil id = false
has_id (column col children rest) id = col.id == id || has_id children id || has_id rest id

pub entries-push_back :
    (parent : Option ℕ) (cs : Columns) (c : ColumnInfo)
    → entries parent (push_back cs c) ≡ entries parent cs ++ (parent, c) ∷ []
unfolding entries push_back
entries-push_back parent nil c = refl
entries-push_back parent (column col children rest) c =
    rw
      (
        entries-push_back parent rest c,
        append_assoc (entries (some col.id) children) (entries parent rest),
      )
      refl

-- `AddChildColumn` succeeds exactly when the parent is in the tree, at any depth.
pub found-add_child_column :
    (cs : Columns) (parent_id : ℕ) (c : ColumnInfo)
    → (add_child_column cs parent_id c).1 ≡ has_id cs parent_id
unfolding add_child_column has_id
found-add_child_column nil parent_id c = refl
found-add_child_column (column col children rest) parent_id c =
    ground
      (arith, found-add_child_column children parent_id c, found-add_child_column rest parent_id c)

-- If the parent is not in the tree, `AddChildColumn` changes nothing.
pub add_child_column-absent :
    (cs : Columns) (parent_id : ℕ) (c : ColumnInfo)
    → has_id cs parent_id ≡ false
    → (add_child_column cs parent_id c).0 ≡ cs
unfolding add_child_column has_id
add_child_column-absent nil parent_id c h = refl
add_child_column-absent (column col children rest) parent_id c h = ground (
  arith,
  found-add_child_column children parent_id c,
  add_child_column-absent children parent_id c,
  add_child_column-absent rest parent_id c,
)

-- If the parent is in the tree, `AddChildColumn` adds one entry, the column under that parent, and
-- keeps every other entry.
pub entries-add_child_column :
    (above : Option ℕ) (cs : Columns) (parent_id : ℕ) (c : ColumnInfo)
    → has_id cs parent_id ≡ true
    → Perm
        (entries above (add_child_column cs parent_id c).0)
        ((some parent_id, c) ∷ entries above cs)
unfolding add_child_column has_id entries
entries-add_child_column above nil parent_id c h = cc
entries-add_child_column above (column col children rest) parent_id c h =
    elim (Bool-cases (col.id == parent_id)) [
      | inl here ↦
          rw (here, entries-push_back (some col.id) children c, ← (==_iff col.id parent_id).0 here)
            (perm_new_left (above, col) (some col.id, c) (entries above rest)
              (perm_append_singleton _ (entries (some col.id) children)))
      | inr elsewhere ↦ elim (Bool-cases (has_id children parent_id)) [
        | inl below ↦
            rw (elsewhere, found-add_child_column children parent_id c, below)
              (perm_new_left (above, col) (some parent_id, c) (entries above rest)
                (entries-add_child_column (some col.id) children parent_id c below))
        | inr behind ↦
            rw
              (
                elsewhere,
                found-add_child_column children parent_id c,
                behind,
                add_child_column-absent children parent_id c behind,
              )
              (perm_new_right (above, col) (some parent_id, c) (entries (some col.id) children)
                (entries-add_child_column above rest parent_id c (ground arith)))
      ]
    ]

pub has_id-push_back :
    (cs : Columns) (c : ColumnInfo) (id : ℕ)
    → has_id (push_back cs c) id ≡ (c.id == id || has_id cs id)
unfolding has_id push_back
has_id-push_back nil c id = ground arith
has_id-push_back (column col children rest) c id = ground (arith, has_id-push_back rest c id)

-- If the parent is in the tree, the ids in the tree after `AddChildColumn` are the new column's and
-- those that were there.
pub has_id-add_child_column :
    (cs : Columns) (parent_id : ℕ) (c : ColumnInfo) (id : ℕ)
    → has_id cs parent_id ≡ true
    → has_id (add_child_column cs parent_id c).0 id ≡ (c.id == id || has_id cs id)
unfolding add_child_column has_id
has_id-add_child_column nil parent_id c id h = cc
has_id-add_child_column (column col children rest) parent_id c id h = ground (
  arith,
  found-add_child_column children parent_id c,
  has_id-push_back children c id,
  has_id-add_child_column children parent_id c id,
  has_id-add_child_column rest parent_id c id,
  add_child_column-absent children parent_id c,
)
