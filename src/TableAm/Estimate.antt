-- ===== src/TableAm/Estimate.antt =====
-- The size estimate of src/pgducklake_table_am.cpp for the planner.
use pg_ducklake_next.Base.{
  ℕ, ◌*◌, ◌≡◌, ◌∙◌, refl, Bool, true, false, ◌||◌, ◌==◌, if◌then◌else◌, Option, none, some, ==_refl,
  arith,
}
use pg_ducklake_next.Base.Result.{ok}
use pg_ducklake_next.TableAm.{
  Host, Estimates, nothing, size, set_zero, estimate_rel_size, Memory, size_of, estimate_size, run,
}

abbrev pub points_at : Option ℕ → ℕ → Bool
points_at none a = false
points_at (some p) a = a == p

-- One of the four pointers leads there.
abbrev pub is_estimate : Estimates → ℕ → Bool
is_estimate e a =
    points_at e.attr_widths a
    || points_at e.pages a
    || points_at e.tuples a
    || points_at e.allvisfrac a

set_zero-points_at :
    (p : Option ℕ) (words : ℕ → ℕ) (a : ℕ)
    → set_zero p words a ≡ (if points_at p a then 0 else words a)
unfolding set_zero
set_zero-points_at none words a = refl
set_zero-points_at (some p) words a = refl

estimate_rel_size-is_estimate :
    (e : Estimates) (words : ℕ → ℕ) (a : ℕ)
    → estimate_rel_size e words a ≡ (if is_estimate e a then 0 else words a)
unfolding estimate_rel_size
estimate_rel_size-is_estimate e words a =
    rw
      (
        set_zero-points_at e.allvisfrac,
        set_zero-points_at e.tuples,
        set_zero-points_at e.pages,
        set_zero-points_at e.attr_widths,
      )
      (ground arith)

pointed : (e : Estimates) (p : ℕ) → e.pages ≡ some p → is_estimate e p ≡ true
pointed e p here = let last : points_at e.pages p ≡ true = rw here (==_refl p) in ground arith

module _ (H : Host) where
  -- The call for the size estimate returns for any pointers, null or the same ones among them.
  -- After it the numbers that the pointers lead to are zero, all others and the open scans are as
  -- before, and the number of pages, if asked for, is that of the relation's size by the size
  -- callback, for any size of a page.
  pub run-estimate_size :
      (e : Estimates) (m : Memory H)
      → (m' : Memory H) × (run H (estimate_size e) m ≡ ok (nothing, m'))
        × (m'.scans ≡ m.scans)
        × ((a : ℕ) → m'.words a ≡ (if is_estimate e a then 0 else m.words a))
        × ((p page_size : ℕ)
            → e.pages ≡ some p
            → run H size_of m' ≡ ok (size (m'.words p * page_size), m'))
  unfolding run
  run-estimate_size e m =
      let m' : Memory H = record m { words = estimate_rel_size e m.words } in
      let zero_pages : (p : ℕ) → e.pages ≡ some p → m'.words p ≡ 0 =
        λ p here. estimate_rel_size-is_estimate e m.words p ∙ ground (arith, pointed e p here) in
      (
        m',
        refl,
        refl,
        estimate_rel_size-is_estimate e m.words,
        λ p page_size here.
            let none_used : 0 * page_size ≡ 0 = omega arith in
            rw (zero_pages p here, none_used) refl,
      )
