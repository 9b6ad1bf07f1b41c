-- ===== src/Lifecycle.antt =====
-- internal/lifecycle: the two flags that the handlers read and set.
use stage_sync.Base.{Bool, true, false}
pub mod Probes

-- `Optimize.on` and `Readiness.ready`
pub record Flags : Type 0 where
  pub on : Bool
  pub ready : Bool

-- The zero `Optimize`, and `NewReadiness`.
abbrev pub new_flags : Flags
new_flags = record { on = false; ready = true }

-- `Set`
abbrev pub set_on : Bool → Flags → Flags
set_on v f = record { on = v; ready = f.ready }

-- `SetDraining`
abbrev pub set_draining : Flags → Flags
set_draining f = record { on = f.on; ready = false }
