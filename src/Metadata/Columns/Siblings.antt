-- ===== src/Metadata/Columns/Siblings.antt =====
-- The order of the columns below one parent.
use mathlib.Core.List.{append-nil, append_assoc}
use pg_ducklake_next.Base.{
  ℕ, ◌≡◌, refl, sym, ap, ◌∙◌, Bool, true, false, ◌==◌, if◌then◌else◌, Option, none, some, List, [],
  ◌∷◌, ◌++◌, Bool-cases, inl, inr, ==_iff, arith,
}
use pg_ducklake_next.Metadata.Columns.{ColumnInfo, Columns, nil, column, add_child_column}
use pg_ducklake_next.Metadata.Columns.Entries.{
  Entry, entries, has_id, entries-push_back, found-add_child_column, add_child_column-absent,
}
use pg_ducklake_next.Metadata.Columns.Distinct.{IsDistinct}

-- The same parent, or the top both times.
abbrev pub same_parent : Option ℕ → Option ℕ → Bool
same_parent none none = true
same_parent none (some b) = false
same_parent (some a) none = false
same_parent (some a) (some b) = a == b

-- The columns of the entries below one parent, in order.
abbrev pub children_in : Option ℕ → List Entry → List ColumnInfo
children_in q [] = []
children_in q ((parent, c) ∷ es) =
    let rest = children_in q es in if same_parent q parent then c ∷ rest else rest

pub children_in-append :
    (q : Option ℕ) (xs ys : List Entry)
    → children_in q (xs ++ ys) ≡ children_in q xs ++ children_in q ys
children_in-append q [] ys = refl
children_in-append q ((parent, c) ∷ xs) ys = elim (Bool-cases (same_parent q parent)) [
  | inl here ↦ rw here (ap (λ (l : List ColumnInfo). c ∷ l) (children_in-append q xs ys))
  | inr elsewhere ↦ rw elsewhere (children_in-append q xs ys)
]

-- Where no column has the id, nothing stands below it.
children_in-absent :
    (cs : Columns) (above : Option ℕ) (p : ℕ)
    → has_id cs p ≡ false
    → same_parent (some p) above ≡ false
    → children_in (some p) (entries above cs) ≡ []
unfolding entries has_id
children_in-absent nil above p h a = refl
children_in-absent (column col children rest) above p h a =
    let not_here : (p == col.id) ≡ false = ground arith in
    let below = children_in-absent children (some col.id) p (ground arith) not_here in
    let behind = children_in-absent rest above p (ground arith) a in
    rw
      (
        a,
        children_in-append (some p) (entries (some col.id) children) (entries above rest),
        below,
        behind,
      )
      refl

abbrev added : ℕ → ColumnInfo → Option ℕ → List ColumnInfo
added p c q = children_in q ((some p, c) ∷ [])

-- What is added below `p` commutes with entries that have nothing below it.
added_comm :
    (p : ℕ) (c : ColumnInfo) (q : Option ℕ) (es : List Entry)
    → children_in (some p) es ≡ []
    → added p c q ++ children_in q es ≡ children_in q es ++ added p c q
added_comm p c none es h = sym (append-nil (children_in none es))
added_comm p c (some b) es h = elim (Bool-cases (b == p)) [
  | inr other ↦ rw other (sym (append-nil (children_in (some b) es)))
  | inl same ↦
      let e : b ≡ p = (==_iff b p).0 same in
      let empty : children_in (some b) es ≡ [] = rw e h in rw (same, empty) refl
]

-- The parts of a list of columns.
children_in-column :
    (q : Option ℕ) (above : Option ℕ) (col : ColumnInfo) (children rest : List Entry)
    → children_in q ((above, col) ∷ (children ++ rest))
      ≡ children_in q ((above, col) ∷ []) ++ (children_in q children ++ children_in q rest)
children_in-column q above col children rest =
    children_in-append q ((above, col) ∷ []) (children ++ rest)
    ∙ ap (λ l. children_in q ((above, col) ∷ []) ++ l) (children_in-append q children rest)

-- A column that is added comes behind its siblings, and every other parent keeps its columns in
-- order.
pub children_in-add_child_column :
    (cs : Columns) (above : Option ℕ) (p : ℕ) (c : ColumnInfo) (q : Option ℕ)
    → IsDistinct cs
    → has_id cs p ≡ true
    → same_parent (some p) above ≡ false
    → children_in q (entries above (add_child_column cs p c).0)
      ≡ children_in q (entries above cs) ++ added p c q
unfolding entries has_id add_child_column
children_in-add_child_column nil above p c q d h a = cc
children_in-add_child_column (column col children rest) above p c q d h a =
    let head = children_in q ((above, col) ∷ []) in
    let below = entries (some col.id) children in
    let behind = entries above rest in
    let before_rest =
      λ (below' : List Entry) (e : children_in q below' ≡ children_in q below ++ added p c q)
          (free : has_id rest p ≡ false).
        children_in-column q above col below' behind
        ∙ ap (λ l. head ++ (l ++ children_in q behind)) e
        ∙ ap (λ l. head ++ l)
            (append_assoc (children_in q below) (added p c q) (children_in q behind)
              ∙ ap (λ l. children_in q below ++ l)
                  (added_comm p c q behind (children_in-absent rest above p free a))
              ∙ sym (append_assoc (children_in q below) (children_in q behind) (added p c q)))
        ∙ sym (append_assoc head (children_in q below ++ children_in q behind) (added p c q))
        ∙ ap (λ l. l ++ added p c q) (sym (children_in-column q above col below behind)) in
    elim (Bool-cases (col.id == p)) [
      | inl here ↦
          let same : col.id ≡ p = (==_iff col.id p).0 here in
          rw here (
            before_rest _
              (ap (children_in q) (entries-push_back (some col.id) children c)
                ∙ children_in-append q below ((some col.id, c) ∷ [])
                ∙ ap (λ id. children_in q below ++ children_in q ((some id, c) ∷ [])) same)
              (d.0 p (rw here refl)))
      | inr elsewhere ↦ elim (Bool-cases (has_id children p)) [
        | inl inside ↦
            let found : (add_child_column children p c).1 ≡ true =
              found-add_child_column children p c ∙ inside in
            rw (elsewhere, found)
              (before_rest _
                (children_in-add_child_column children (some col.id) p c q d.2 inside
                  (ground arith))
                (d.0 p (rw (elsewhere, inside) refl)))
        | inr outside ↦
            let missed : (add_child_column children p c).1 ≡ false =
              found-add_child_column children p c ∙ outside in
            let later : has_id rest p ≡ true = ground arith in
            rw (elsewhere, missed, add_child_column-absent children p c outside)
              (children_in-column q above col below (entries above (add_child_column rest p c).0)
                ∙ ap (λ l. head ++ (children_in q below ++ l))
                    (children_in-add_child_column rest above p c q d.3 later a)
                ∙ ap (λ l. head ++ l)
                    (sym (append_assoc (children_in q below) (children_in q behind) (added p c q)))
                ∙ sym
                    (append_assoc head (children_in q below ++ children_in q behind) (added p c q))
                ∙ ap (λ l. l ++ added p c q) (sym (children_in-column q above col below behind)))
      ]
    ]
