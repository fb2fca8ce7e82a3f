-- ===== src/Metadata/Store/ViewRows.antt =====
-- The views of the metadata tables, and what is loaded for them.
use mathlib.Core.List.{Perm, Permᴰ, map-map}
use mathlib.Core.List.Perm
use pg_ducklake_next.Base.{
  ℕ, ◌≡◌, refl, sym, ap, ◌∙◌, List, [], ◌∷◌, map, All, All-map, All-perm, All-of-map, subst,
}
use pg_ducklake_next.Base.Result.{ok, >>=-eq-ok, ok-injective}
use pg_ducklake_next.Metadata.Values.{DuckDb, load_tags}
use pg_ducklake_next.Metadata.Tables.{load_unless_null}
use pg_ducklake_next.Metadata.Views.{ViewRow, ViewInfo, view_of_row}
use pg_ducklake_next.Metadata.Views.Order.{Reads}
use pg_ducklake_next.Metadata.Records.{Store, ViewRecord}
use pg_ducklake_next.Metadata.Store.{Aggregates, visible_views, row_of_view, view_query}
use pg_ducklake_next.Metadata.Store.Answer.{IsViewOk}

-- A view without its tags and column aliases.
abbrev pub plain_view : ViewInfo → ViewInfo
plain_view v = record v { column_aliases = []; tags = [] }

abbrev pub view_key : ViewRecord → ViewInfo
view_key v = record {
  id = v.view_id;
  uuid = v.view_uuid;
  schema_id = v.schema_id;
  name = v.view_name;
  dialect = v.dialect;
  sql = v.sql;
  column_aliases = [];
  tags = [];
}

module _ (D : DuckDb) where
  abbrev row_key : ViewRow D.Value → ViewInfo
  row_key r = record {
    id = r.view_id;
    uuid = r.view_uuid;
    schema_id = r.schema_id;
    name = r.view_name;
    dialect = r.dialect;
    sql = r.sql;
    column_aliases = [];
    tags = [];
  }

  abbrev pub CanRead : ViewRow D.Value → Type 0
  CanRead r = (info : ViewInfo) × (view_of_row D r ≡ ok info)

  -- The rows that can be read, with what is read.
  pub read_all :
      (rows : List (ViewRow D.Value))
      → All CanRead rows
      → (ps : List (ViewRow D.Value × ViewInfo)) × (map (λ p. p.0) ps ≡ rows) × All (Reads D) ps
  read_all [] h = ([], refl, tt)
  read_all (r ∷ rows) h =
      let (info, read) = h.0 in
      let (ps, same, reads) = read_all rows h.1 in
      ((r, info) ∷ ps, ap (λ l. r ∷ l) same, (read, reads))

  view_of_row-key :
      (r : ViewRow D.Value) (info : ViewInfo)
      → view_of_row D r ≡ ok info
      → plain_view info ≡ row_key r
  unfolding view_of_row
  view_of_row-key r info h =
      let (names, parsed, more) = >>=-eq-ok (D.parse_quoted_list r.column_aliases) _ h in
      let (ts, read, done) = >>=-eq-ok (load_unless_null (load_tags D) r.tag) _ more in
      ap plain_view (sym (ok-injective done))

  pub Reads-key :
      (ps : List (ViewRow D.Value × ViewInfo))
      → All (Reads D) ps
      → map plain_view (map (λ p. p.1) ps) ≡ map row_key (map (λ p. p.0) ps)
  Reads-key [] h = refl
  Reads-key ((r, info) ∷ ps) h = rw (view_of_row-key r info h.0, Reads-key ps h.1) refl

module _ (D : DuckDb) (G : Aggregates D.Value) (store : Store) (snapshot : ℕ) where
  row_of_view-CanRead :
      (v : ViewRecord)
      → IsViewOk D G store snapshot v
      → CanRead D (row_of_view D.Value G store snapshot v)
  unfolding row_of_view view_of_row
  row_of_view-CanRead v o =
      let (names, parsed) = o.aliases in
      let (ts, read) = o.tags in
      (record (view_key v) { column_aliases = names; tags = ts }, rw (parsed, read) refl)

  -- The rows of the third query can be read, in any order, as the visible views.
  pub view_query-Reads :
      All (IsViewOk D G store snapshot) (visible_views store snapshot)
      → (rows : List (ViewRow D.Value)) → Permᴰ (view_query D.Value G store snapshot) rows
      → (ps : List (ViewRow D.Value × ViewInfo)) × (map (λ p. p.0) ps ≡ rows)
        × All (Reads D) ps
        × Perm (map plain_view (map (λ p. p.1) ps)) (map view_key (visible_views store snapshot))
  unfolding view_query row_of_view
  view_query-Reads h rows p =
      let views = visible_views store snapshot in
      let reads = All-perm (CanRead D) p (
        All-of-map (CanRead D) (row_of_view D.Value G store snapshot) views
          (All-map views row_of_view-CanRead h)) in
      let (ps, same, all) = read_all D rows reads in
      (
        ps,
        same,
        all,
        subst (λ l. Perm l (map view_key views))
            (sym (Reads-key D ps all ∙ ap (map (row_key D)) same))
            (subst (λ l. Perm (map (row_key D) rows) l)
              (map-map (row_key D) (row_of_view D.Value G store snapshot) views)
              (Perm.map (row_key D) (Perm.symm ∣ p ∣₁))),
      )
