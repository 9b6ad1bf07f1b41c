-- ===== src/Lifecycle/Probes.antt =====
-- internal/lifecycle: draining is for good, whatever else happens to the flags.
use stage_sync.Base.{Bool, false, List, [], ◌∷◌, ◌≡◌, refl}
use stage_sync.Lifecycle.{Flags, set_on, set_draining}

-- An operation on the flags.
pub data Op : Type 0 where
  toggle : Bool → Op
  drain : Op

abbrev pub run_ops : List Op → Flags → Flags
run_ops [] f = f
run_ops (toggle v ∷ ops) f = run_ops ops (set_on v f)
run_ops (drain ∷ ops) f = run_ops ops (set_draining f)

pub still_draining : (ops : List Op) (f : Flags) → f.ready ≡ false → (run_ops ops f).ready ≡ false
still_draining [] f h = h
still_draining (toggle v ∷ ops) f h = still_draining ops (set_on v f) h
still_draining (drain ∷ ops) f h = still_draining ops (set_draining f) refl
