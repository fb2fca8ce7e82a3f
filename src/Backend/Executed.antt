-- ===== src/Backend/Executed.antt =====
-- How far a sequence of SPI queries has come, and how deep the run stands then.
use mathlib.Core.List.{append_assoc}
use pg_ducklake_next.Base.{◌≡◌, ap, ◌∙◌, String, List, [], ◌∷◌, ◌++◌}
use pg_ducklake_next.Backend.{History, spi_executes}
use pg_ducklake_next.Backend.Depth.{depth_of, deeper}

-- Of the queries, those up to one that failed.
pub record IsUpTo (qs done : List String) : Type 0 where
  pub before : List String
  pub failed : String
  pub rest : List String
  pub whole : qs ≡ before ++ failed ∷ rest
  pub tried : done ≡ before ++ failed ∷ []

pub IsUpTo-later :
    (q : String) (qs done : List String) → IsUpTo qs done → IsUpTo (q ∷ qs) (q ∷ done)
IsUpTo-later q qs done u = record {
  before = q ∷ u.before;
  failed = u.failed;
  rest = u.rest;
  whole = ap (λ (l : List String). q ∷ l) u.whole;
  tried = ap (λ (l : List String). q ∷ l) u.tried;
}

-- All queries have run, at the same depth; or one has failed, one deeper, and none behind it has
-- run.
pub record AllRan (h : History) (qs : List String) (h' : History) : Type 0 where
  pub depth : depth_of h' ≡ depth_of h
  pub executed : spi_executes h' ≡ spi_executes h ++ qs

pub record OneFailed (h : History) (qs : List String) (h' : History) : Type 0 where
  pub depth : depth_of h' ≡ deeper (depth_of h)
  pub tried : List String
  pub up_to : IsUpTo qs tried
  pub executed : spi_executes h' ≡ spi_executes h ++ tried

-- The queries have run up to some point, at the same depth.
pub record SomeRan (h : History) (qs : List String) (h' : History) : Type 0 where
  pub depth : depth_of h' ≡ depth_of h
  pub tried : List String
  pub rest : List String
  pub whole : qs ≡ tried ++ rest
  pub executed : spi_executes h' ≡ spi_executes h ++ tried

-- One more query, before the others.
module _ (h k h' : History) (q : String) (qs : List String) (level : depth_of k ≡ depth_of h)
    (first : spi_executes k ≡ spi_executes h ++ q ∷ []) where
  executed-later :
      (done : List String)
      → spi_executes h' ≡ spi_executes k ++ done
      → spi_executes h' ≡ spi_executes h ++ q ∷ done
  executed-later done e = e ∙ rw first (append_assoc (spi_executes h) (q ∷ []) done)

  pub AllRan-later : AllRan k qs h' → AllRan h (q ∷ qs) h'
  AllRan-later a = record { depth = a.depth ∙ level; executed = executed-later qs a.executed }

  pub OneFailed-later : OneFailed k qs h' → OneFailed h (q ∷ qs) h'
  OneFailed-later o = record {
    depth = o.depth ∙ ap deeper level;
    tried = q ∷ o.tried;
    up_to = IsUpTo-later q qs o.tried o.up_to;
    executed = executed-later o.tried o.executed;
  }

  pub SomeRan-later : SomeRan k qs h' → SomeRan h (q ∷ qs) h'
  SomeRan-later s = record {
    depth = s.depth ∙ level;
    tried = q ∷ s.tried;
    rest = s.rest;
    whole = ap (λ (l : List String). q ∷ l) s.whole;
    executed = executed-later s.tried s.executed;
  }
