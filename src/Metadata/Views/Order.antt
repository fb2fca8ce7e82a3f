-- ===== src/Metadata/Views/Order.antt =====
-- The order of the views that the loop over the view rows loads.
use mathlib.Core.List.{append_assoc, append-nil}
use pg_ducklake_next.Base.{◌≡◌, refl, List, [], ◌∷◌, ◌++◌, map, All}
use pg_ducklake_next.Base.Result.{ok, fold_result}
use pg_ducklake_next.Metadata.Values.{DuckDb}
use pg_ducklake_next.Metadata.Views.{ViewRow, ViewInfo, view_of_row, add_view_row, load_views}

module _ (D : DuckDb) where
  -- A row with the view that it describes.
  abbrev pub Reads : ViewRow D.Value × ViewInfo → Type 0
  Reads (row, view) = view_of_row D row ≡ ok view

  fold-views :
      (before : List ViewInfo) (ps : List (ViewRow D.Value × ViewInfo))
      → All Reads ps
      → fold_result (add_view_row D) before (map (λ p. p.0) ps) ≡ ok (before ++ map (λ p. p.1) ps)
  unfolding fold_result add_view_row
  fold-views before [] h = rw (append-nil before) refl
  fold-views before ((row, view) ∷ ps) h =
      rw
        (
          h.0,
          fold-views (before ++ view ∷ []) ps h.1,
          append_assoc before (view ∷ []) (map (λ p. p.1) ps),
        )
        refl

  -- If every view row can be read, the loop loads one view for each row, in row order.
  pub load_views-order :
      (ps : List (ViewRow D.Value × ViewInfo))
      → All Reads ps
      → load_views D (map (λ p. p.0) ps) ≡ ok (map (λ p. p.1) ps)
  unfolding load_views
  load_views-order ps h = fold-views [] ps h
