-- ===== src/Server/Breakpoint/Tests.antt =====
-- breakpoint.c: runs on one breakpoint, and witnesses.
use mtrace.Base.{
  ℕ, ◌≡◌, refl, true, false, none, some, [], ◌∷◌, Outcome, ok, aborted, fault, diverged,
}
use mtrace.Dict.{Dict, dict_init, with_bucket}
use mtrace.Server.ProcMemory.{
  ProcBytes, copy_from_to_proc, copy_from_to_loop, copy_to_proc, copy_to_loop, patched, write,
  bytes, set_byte,
}
use mtrace.Server.Breakpoint.{
  Breakpoint, bp_sw, Leader, Target, bp_at, require, store_bp, same_bytes, enable_sw_breakpoint,
  disable_sw_breakpoint, breakpoint_enable, breakpoint_disable,
}
use mtrace.Server.Breakpoint.Setup.{target_address_cmp}
use mtrace.Server.Breakpoint.Text.{IsText}
use mtrace.Server.Breakpoint.New.{made, with_made}
use mtrace.Server.Events.{event_breakpoint, Status, no_event}
use mtrace.Server.Step.{Stepping, StepAnswers}

-- What a run of a breakpoint unfolds.
program : Unit {0}
unfolding breakpoint_enable breakpoint_disable enable_sw_breakpoint disable_sw_breakpoint bp_at
    require store_bp same_bytes copy_from_to_proc copy_from_to_loop copy_to_proc copy_to_loop
    patched write bytes set_byte dict_init
program = tt

-- A target with the break instruction of ARM, whose text is a ramp.
abbrev arm : Target
arm = record {
  os = record { word = 4; readable = λ x. true; writable = λ x. true; eio = false };
  break_value = 240 ∷ 1 ∷ 240 ∷ 231 ∷ [];
  nohwbp = false;
}

abbrev ramp : ProcBytes
ramp x = x

abbrev small_table : Dict ℕ
small_table = dict_init 1 (λ k. 0) target_address_cmp

abbrev bare : Leader
bare = record {
  memory = ramp;
  stopped = false;
  heap = λ q. none;
  fresh = 0;
  breakpoints = some small_table;
}

nothing : {A : Type 0} → (b : Breakpoint) → none ≡ some b → A
nothing b e = absurd (clash e)
  where
    clash : none ≡ some b → ⊥
    clash e = cc

bare-IsText : IsText arm ramp bare
bare-IsText = record {
  each = λ p b h. nothing b h;
  clean = λ x k. refl;
  apart = λ p q b c ne h k u v. nothing b h;
}

abbrev entered : Dict ℕ
entered = with_bucket small_table 0 (record { key = 64; value = 0 } ∷ [])

abbrev one_made : Leader
one_made = with_made arm ramp bare bare-IsText 64 none bp_sw 0 entered

abbrev the_one : Breakpoint
the_one = made arm ramp bare bare-IsText 64 none bp_sw 0

-- The leader that a call leaves.
abbrev left_by : Outcome Leader → Leader
left_by (ok t) = t
left_by aborted = bare
left_by fault = bare
left_by diverged = bare

abbrev one_on : Leader
unfolding breakpoint_enable
one_on = left_by (breakpoint_enable arm one_made 0)

one_on_memory : one_on.memory 64 ≡ 240
unfolding program
one_on_memory = refl

abbrev one_on_bp : Breakpoint
one_on_bp = record the_one { enabled = true; sw = true; orig_value = 64 ∷ 65 ∷ 66 ∷ 67 ∷ [] }

-- A thread at the breakpoint, and a single step that ends with SIGTRAP.
abbrev halted : Stepping
halted = record {
  group = record {
    tasks =
        record {
          pid = 7;
          attached = true;
          stopped = true;
          is_new = false;
          bad = false;
          event = record { type = event_breakpoint; value = 0 };
        }
        ∷ [];
    threads_stopped = 1;
    event_head = [];
    breakpoints = one_on;
  };
  skip_bp = λ q. none;
  ran_on = [];
}

abbrev one_step : StepAnswers
one_step = record {
  started = true;
  status = some (Status.stopped 5 no_event);
  answers = record { message = 0; child = false; ours = none; context = true; at = 0 };
}
