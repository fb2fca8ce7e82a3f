-- ===== src/Metadata/Tables/Parents.antt =====
-- Rows of nested columns, behind the rows of their parents.
use mathlib.Core.List.{append_assoc}
use pg_ducklake_next.Base.{
  ℕ, ◌≤◌, ◌<◌, ◌≡◌, some, List, [], ◌∷◌, ◌++◌, All, Any, Any-All, Any-append, All-zip, Option-cases,
  arith, inl, inr,
}
use pg_ducklake_next.Metadata.Tables.{TableRow}
use pg_ducklake_next.Metadata.Tables.Groups.{RowLe, IsOrdered}

-- The row is one of the column `id` of that table.
abbrev pub IsColumn : {V : Type 0} → ℕ → ℕ → TableRow V → Type 0
IsColumn table_id id q = (q.table_id ≡ table_id) × (q.column_id ≡ some id)

-- Every parent that a row names has its own row in the same table, among `rows`.
abbrev pub HasParents : {V : Type 0} → List (TableRow V) → TableRow V → Type 0
HasParents rows r = (p : ℕ) → r.parent_column ≡ some p → Any (IsColumn r.table_id p) rows

-- A nested column has a larger id than its parent.
abbrev pub IsBelowParent : {V : Type 0} → TableRow V → Type 0
IsBelowParent r = (p id : ℕ) → r.parent_column ≡ some p → r.column_id ≡ some id → p < id

-- No row of the list comes behind the parents that it names.
abbrev pub ParentsFirst : {V : Type 0} → List (TableRow V) → List (TableRow V) → Type 0
ParentsFirst done [] = Unit
ParentsFirst done (r ∷ rest) = HasParents done r × ParentsFirst (done ++ r ∷ []) rest

-- A parent's row does not stand at or behind the row that names it.
parent_not_behind :
    {V : Type 0} (r q : TableRow V) (p : ℕ)
    → r.parent_column ≡ some p
    → IsColumn r.table_id p q
    → IsBelowParent q
    → RowLe r q
    → ⊥
parent_not_behind r q p e c b (inl lt) = absurd (omega arith)
parent_not_behind r q p e c b (inr (same, nf)) = elim (Option-cases q.parent_column) [
  | inl top ↦ rw (e, top) at nf
  | inr (p', above) ↦
      let le : p ≤ p' = rw (e, above) at nf in let lt : p' < p = b p' p above c.1 in omega arith
]

pub parents_first :
    {V : Type 0} (done rest : List (TableRow V))
    → IsOrdered rest
    → All IsBelowParent rest
    → All (HasParents (done ++ rest)) rest
    → ParentsFirst done rest
parents_first done [] o b h = tt
parents_first {V} done (r ∷ rest) o b h = (
  λ p e. elim (Any-append (IsColumn r.table_id p) done (r ∷ rest) (h.0 p e)) [
    | inl before ↦ before
    | inr (inl itself) ↦ absurd (omega (arith, b.0 p p e itself.1))
    | inr (inr behind) ↦
        let (q, c, x) =
          Any-All {P = IsColumn r.table_id p} {Q = λ q. RowLe r q × IsBelowParent q} rest behind
            (All-zip (RowLe r) IsBelowParent rest o.0 b.1) in
        absurd (parent_not_behind r q p e c x.1 x.0)
  ],
  parents_first (done ++ r ∷ []) rest o.1 b.1 (rw (append_assoc done (r ∷ []) rest) h.1),
)
