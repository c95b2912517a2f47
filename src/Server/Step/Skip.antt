-- ===== src/Server/Step/Skip.antt =====
-- trace.c: skip_breakpoint steps on the program's own instruction and puts the break instruction back.
use mtrace.Base.{ℕ, ◌≡◌, false, some}
use mtrace.Server.ProcMemory.{ProcBytes}
use mtrace.Server.Breakpoint.{Breakpoint, Leader, Target, sw_off}
use mtrace.Server.Breakpoint.Text.{IsText}
use mtrace.Server.Breakpoint.Switch.{IsTraced}
use mtrace.Server.Step.{Stepping, with_breakpoints}

module _ (target : Target) (text : ProcBytes) (traced : IsTraced target) (s : Stepping) (p b : ℕ)
    (bp : Breakpoint) where
  module _ (off : Leader) (has_text : IsText target text off)
      (off_here : off.heap b ≡ some (sw_off bp)) (live : bp.deleted ≡ false) where
    abbrev s0 : Stepping
    s0 = with_breakpoints s off
