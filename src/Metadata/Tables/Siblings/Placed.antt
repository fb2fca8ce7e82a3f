-- ===== src/Metadata/Tables/Siblings/Placed.antt =====
-- What a column that is placed in the last table adds below each parent.
use mathlib.Core.List.{reverse, reverse-cons, append-nil, append_assoc}
use pg_ducklake_next.Base.{
  ℕ, ◌≡◌, refl, sym, ap, ◌∙◌, subst, Bool, true, false, ◌||◌, ◌==◌, if◌then◌else◌, Option, none,
  some, List, [], ◌∷◌, ◌++◌, Bool-cases, inl, inr, arith,
}
use pg_ducklake_next.Base.Result.{ok, ok-injective}
use pg_ducklake_next.Metadata.Columns.{ColumnInfo, add_child_column}
use pg_ducklake_next.Metadata.Columns.Entries.{
  entries, has_id, entries-push_back, found-add_child_column, has_id-push_back,
  has_id-add_child_column,
}
use pg_ducklake_next.Metadata.Columns.Distinct.{
  IsDistinct, push_back-IsDistinct, add_child_column-IsDistinct,
}
use pg_ducklake_next.Metadata.Columns.Siblings.{
  children_in, children_in-append, children_in-add_child_column,
}
use pg_ducklake_next.Metadata.Values.{DuckDb}
use pg_ducklake_next.Metadata.Tables.{TableInfo, place_column}
use pg_ducklake_next.Metadata.Tables.Collected.{table_entries, all_entries}
use pg_ducklake_next.Metadata.Tables.Lossless.{all_entries-append}
use pg_ducklake_next.Metadata.Tables.Siblings.{children_of, children_of-append, children_of-table}

-- A placed column comes last below its parent.
pub record Placed (t t' : TableInfo) (parent : Option ℕ) (c : ColumnInfo) : Type 0 where
  pub id : t'.id ≡ t.id
  pub children :
      (q : Option ℕ)
      → children_in q (entries none t'.columns)
        ≡ children_in q (entries none t.columns ++ (parent, c) ∷ [])
  pub distinct : IsDistinct t'.columns
  pub has : (id : ℕ) → has_id t'.columns id ≡ (c.id == id || has_id t.columns id)

pub place_column-Placed :
    (t t' : TableInfo) (parent : Option ℕ) (c : ColumnInfo)
    → IsDistinct t.columns
    → has_id t.columns c.id ≡ false
    → place_column t parent c ≡ ok t'
    → Placed t t' parent c
unfolding place_column
place_column-Placed t t' none c d new h =
    subst (λ (x : TableInfo). Placed t x none c) (ok-injective h)
      (record {
        id = refl;
        children = λ q. ap (children_in q) (entries-push_back none t.columns c);
        distinct = push_back-IsDistinct t.columns c d new;
        has = has_id-push_back t.columns c;
      })
place_column-Placed t t' (some p) c d new h = elim (Bool-cases (has_id t.columns p)) [
  | inl present ↦
      let found : (add_child_column t.columns p c).1 ≡ true =
        found-add_child_column t.columns p c ∙ present in
      subst (λ (x : TableInfo). Placed t x (some p) c) (ok-injective (rw found at h))
        (record {
          id = refl;
          children = λ q.
              children_in-add_child_column t.columns none p c q d present refl
              ∙ sym (children_in-append q (entries none t.columns) ((some p, c) ∷ []));
          distinct = add_child_column-IsDistinct t.columns p c d present new;
          has = λ id. has_id-add_child_column t.columns p c id present;
        })
  | inr absent ↦ ground (arith, found-add_child_column t.columns p c)
]

pub unless_nil : (l : List ColumnInfo) (b : Bool) → l ++ (if b then [] else []) ≡ l
unless_nil l true = append-nil l
unless_nil l false = append-nil l

module _ (D : DuckDb) where
  -- The tables' entries below one parent, the last table apart.
  pub children_of-last :
      (t : TableInfo) (older : List TableInfo) (id : ℕ) (q : Option ℕ)
      → children_of id q (all_entries (reverse (t ∷ older)))
        ≡ children_of id q (all_entries (reverse older))
          ++ (if t.id == id then children_in q (entries none t.columns) else [])
  children_of-last t older id q =
      rw
        (
          reverse-cons t older,
          all_entries-append D (reverse older) (t ∷ []),
          append-nil (table_entries t),
        )
        (children_of-append id q (all_entries (reverse older)) (table_entries t)
          ∙ ap (λ l. children_of id q (all_entries (reverse older)) ++ l)
              (children_of-table id q t.id (entries none t.columns)))

  -- The columns below one parent, after a column has been placed in the last table.
  pub children_of-Placed :
      (back back' : TableInfo) (older : List TableInfo) (parent : Option ℕ) (c : ColumnInfo)
      (id : ℕ) (q : Option ℕ)
      → Placed back back' parent c
      → children_of id q (all_entries (reverse (back' ∷ older)))
        ≡ children_of id q (all_entries (reverse (back ∷ older)))
          ++ children_of id q ((back.id, (parent, c)) ∷ [])
  children_of-Placed back back' older parent c id q p =
      let earlier = children_of id q (all_entries (reverse older)) in
      let one : children_of id q ((back.id, (parent, c)) ∷ [])
          ≡ (if back.id == id then children_in q ((parent, c) ∷ []) else []) =
        children_of-table id q back.id ((parent, c) ∷ []) in
      children_of-last back' older id q
      ∙ rw
          (
            p.id,
            p.children q,
            one,
            children_in-append q (entries none back.columns) ((parent, c) ∷ []),
            children_of-last back older id q,
          )
          (elim (Bool-cases (back.id == id)) [
            | inl here ↦ rw here (
                sym (
                  append_assoc earlier (children_in q (entries none back.columns))
                    (children_in q ((parent, c) ∷ []))))
            | inr elsewhere ↦ rw elsewhere (sym (append-nil (earlier ++ [])))
          ])
