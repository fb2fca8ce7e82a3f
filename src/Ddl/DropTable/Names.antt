-- ===== src/Ddl/DropTable/Names.antt =====
-- The names in the DROP TABLE of `ducklake_drop_trigger`.
use text.Mathlib.TextLemmas.{append_assoc}
use pg_ducklake_next.Base.{◌≡◌, String, ◌<>◌, ap, ◌∙◌}
use pg_ducklake_next.Ddl.DropTable.{drop_ddl}

-- The statement for a table `b` of a schema whose name is `s` and `a` with a dot between is that
-- for a table of the schema `s` whose name is `a` and `b` with a dot between.
pub drop_ddl-dot : (s a b : String) → drop_ddl (s <> "." <> a, b) ≡ drop_ddl (s, a <> "." <> b)
unfolding drop_ddl
drop_ddl-dot s a b =
    ap (λ (names : String). "DROP TABLE IF EXISTS pgducklake." <> names)
      (append_assoc s ("." <> a) ("." <> b)
        ∙ ap (λ (rest : String). s <> rest) (append_assoc "." a ("." <> b)))
