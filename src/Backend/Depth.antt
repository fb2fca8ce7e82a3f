-- ===== src/Backend/Depth.antt =====
-- How deep a run stands in the four things that PostgreSQL nests: SPI connections, active
-- snapshots, GUC nest levels and stack bases.
use Prim.Native.Nat.{pred}
use pg_ducklake_next.Base.{ℕ, suc, [], ◌∷◌, ◌++◌, ◌≡◌, refl}
use pg_ducklake_next.Backend.{
  Call, set_stack_base, restore_stack_base, spi_connect, spi_finish, push_active_snapshot,
  pop_active_snapshot, new_guc_nest_level, at_eoxact_guc, History,
}

pub record Depth : Type 0 where
  pub spi : ℕ
  pub snapshots : ℕ
  pub gucs : ℕ
  pub stacks : ℕ

-- One more of each.
abbrev pub deeper : Depth → Depth
deeper d = record {
  spi = suc d.spi;
  snapshots = suc d.snapshots;
  gucs = suc d.gucs;
  stacks = suc d.stacks;
}

-- What one call opens or closes, as PostgreSQL documents it; `AtEOXact_GUC` where no GUC level
-- above its own is open.
abbrev pub after_call : Depth → Call → Depth
after_call d spi_connect = record d { spi = suc d.spi }
after_call d spi_finish = record d { spi = pred d.spi }
after_call d push_active_snapshot = record d { snapshots = suc d.snapshots }
after_call d pop_active_snapshot = record d { snapshots = pred d.snapshots }
after_call d new_guc_nest_level = record d { gucs = suc d.gucs }
after_call d (at_eoxact_guc level) = record d { gucs = pred d.gucs }
after_call d set_stack_base = record d { stacks = suc d.stacks }
after_call d restore_stack_base = record d { stacks = pred d.stacks }
after_call d _ = d

abbrev pub depth_from : Depth → History → Depth
depth_from d [] = d
depth_from d (c ∷ cs) = depth_from (after_call d c) cs

abbrev pub depth_of : History → Depth
depth_of = depth_from (record { spi = 0; snapshots = 0; gucs = 0; stacks = 0 })

pub depth-append :
    (d : Depth) (h k : History) → depth_from d (h ++ k) ≡ depth_from (depth_from d h) k
depth-append d [] k = refl
depth-append d (c ∷ h) k = depth-append (after_call d c) h k
