-- ===== src/Metadata/Sql/Joined.antt =====
-- What the two loops of src/pgducklake_metadata_manager.cpp over fields and classes compute.
use text.Mathlib.Text.{◌==◌, starts_with}
use text.Mathlib.TextEquality.{eq_iff}
use text.Mathlib.TextLemmas.{append-eq-nil_iff, append_assoc, append-nil, nil-append}
use pg_ducklake_next.Base.{
  ℕ, ◌≡◌, refl, ◌↔◌, ◌≢◌, sym, ap, ◌∙◌, String, ◌<>◌, true, false, Option, some, List, [], ◌∷◌, Any,
  inl, inr, arith, Bool-cases, Option-cases, subst,
}
use pg_ducklake_next.Metadata.Sql.{
  add_fields, wrap_with_list_aggregation, ClassRow, scan_for_table, is_initialized,
}

abbrev pub field_text : String × String → String
field_text (first, second) = "'" <> first <> "', " <> second

abbrev pub comma_tail : List (String × String) → String
comma_tail [] = ""
comma_tail (field ∷ fields) = ", " <> (field_text field <> comma_tail fields)

-- The fields separated by ", ".
abbrev pub comma_separated : List (String × String) → String
comma_separated [] = ""
comma_separated (field ∷ fields) = field_text field <> comma_tail fields

not_empty : (s : String) → s ≢ "" → (s == "") ≡ false
not_empty s h = elim (Bool-cases (s == "")) [
  | inl empty ↦ absurd (h ((eq_iff s "").0 empty))
  | inr other ↦ other
]

quote_not_empty : ◌≢◌ {A = String} "'" ""
quote_not_empty h = ground (arith, eq_iff "'" "")

left_empty : (p q : String) → p <> q ≡ "" → p ≡ ""
left_empty p q h = (append-eq-nil_iff.0 h).0

right_empty : (p q : String) → p <> q ≡ "" → q ≡ ""
right_empty p q h = (append-eq-nil_iff.0 h).1

field_text_not_empty : (field : String × String) → field_text field ≢ ""
field_text_not_empty (first, second) h =
    quote_not_empty (left_empty "'" (first <> "', " <> second) h)

add_fields-tail :
    (before : String) (fields : List (String × String))
    → before ≢ ""
    → add_fields before fields ≡ before <> comma_tail fields
unfolding add_fields
add_fields-tail before [] h = sym (append-nil before)
add_fields-tail before ((a, b) ∷ fields) h =
    let next = (before <> ", ") <> field_text (a, b) in
    rw
      (
        not_empty before h,
        add_fields-tail next fields
            (λ e. field_text_not_empty (a, b) (right_empty (before <> ", ") (field_text (a, b)) e)),
      )
      (append_assoc (before <> ", ") (field_text (a, b)) (comma_tail fields)
        ∙ append_assoc before ", " _)

-- `WrapWithListAggregation` gives the pairs 'first', second, separated by commas, between the two
-- calls of PostgreSQL that build an array of objects.
pub wrap_with_list_aggregation-separated :
    (fields : List (String × String))
    → wrap_with_list_aggregation fields
      ≡ "json_agg(json_build_object(" <> comma_separated fields <> "))"
unfolding wrap_with_list_aggregation
wrap_with_list_aggregation-separated [] = refl
wrap_with_list_aggregation-separated ((a, b) ∷ fields) =
    ap (λ (s : String). "json_agg(json_build_object(" <> s <> "))")
      (ap (λ (s : String). add_fields s fields) (nil-append (field_text (a, b)))
        ∙ add_fields-tail (field_text (a, b)) fields (field_text_not_empty (a, b)))

-- The row is of a plain table whose name begins with "ducklake_".
abbrev pub IsMetadataTable : ClassRow → Type 0
IsMetadataTable row = (starts_with row.relname "ducklake_" ≡ true) × (row.is_relation ≡ true)

scan_for_table-Any :
    (rows : List ClassRow) → (scan_for_table rows ≡ true) ↔ Any IsMetadataTable rows
unfolding scan_for_table
scan_for_table-Any [] = (λ h. cc, λ h. absurd h)
scan_for_table-Any (row ∷ rows) = (
  λ h. ground (arith, (scan_for_table-Any rows).0),
  λ h. ground (arith, (scan_for_table-Any rows).1),
)

-- `IsInitialized` is true exactly where the namespace "ducklake" exists and the scan by its oid
-- gives a row of a plain table whose name begins with "ducklake_".
pub is_initialized_iff :
    (namespace_oid : String → Option ℕ) (class_scan : ℕ → List ClassRow)
    → (is_initialized namespace_oid class_scan ≡ true)
      ↔ ((oid : ℕ) × (namespace_oid "ducklake" ≡ some oid) × Any IsMetadataTable (class_scan oid))
unfolding is_initialized
is_initialized_iff namespace_oid class_scan = elim (Option-cases (namespace_oid "ducklake")) [
  | inl absent ↦ (λ h. absurd (ground arith), λ h. absurd (ground (arith, h.1)))
  | inr (oid, present) ↦ (
    λ h. (oid, present, (scan_for_table-Any (class_scan oid)).0 (ground arith)),
    λ h.
        let same : h.0 ≡ oid = ground (arith, h.1) in
        rw (present, is_initialized)
          ((scan_for_table-Any (class_scan oid)).1
            (subst (λ o. Any IsMetadataTable (class_scan o)) same h.2)),
  )
]
