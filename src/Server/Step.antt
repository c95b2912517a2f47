-- ===== src/Server/Step.antt =====
-- trace.c and sysdeps/linux-gnu/trace.c: a thread that stands at a breakpoint goes on behind it, by a single
-- step with the break instruction taken out.
pub mod Met
pub mod Taken
pub mod Kept
pub mod Skip
use mtrace.Base.{
  ℕ, ◌==◌, Bool, true, false, not, ◌&&◌, Option, none, some, List, ◌∷◌, Outcome, ok, ◌>>=◌,
}
use mtrace.Process.State.{Store, update}
use mtrace.Server.ProcMemory.{ProcBytes}
use mtrace.Server.Breakpoint.{
  Leader, Target, require, bp_at, breakpoint_enable, breakpoint_disable, breakpoint_get,
}
use mtrace.Server.Events.{
  EventType, event_none, event_signal, event_breakpoint, Task, Group, Status, Answers,
  event_is_none, sigtrap, with_event, _process_event, task_at, store_task, continue_task,
  queue_event,
}

-- The threads of a leader with `skip_bp` of each, by pid, and the memories that a single step has run on, the
-- last one first. What the instruction itself stores is not followed.
pub record Stepping : Type 0 where
  pub group : Group
  pub skip_bp : Store ℕ
  pub ran_on : List ProcBytes

-- What the kernel answers to a single step: whether it starts, and the status that `wait_task` gives.
pub record StepAnswers : Type 0 where
  pub started : Bool
  pub status : Option Status
  pub answers : Answers

-- The results -1, 0 and 1 of `handle_singlestep`.
pub data StepResult : Type 0 where
  step_failed step_done step_queued : StepResult

abbrev pub event_is_signal : EventType → Bool
event_is_signal event_signal = true
event_is_signal _ = false

abbrev pub event_is_breakpoint : EventType → Bool
event_is_breakpoint event_breakpoint = true
event_is_breakpoint _ = false

abbrev pub no_skip : Option ℕ → Bool
no_skip none = true
no_skip (some b) = false

unfoldable pub queue_step : Stepping → ℕ → StepResult → Outcome (StepResult × Stepping)
queue_step s p res = queue_event s.group p >>= λ g. ok (res, record s { group = g })

-- Behind `_process_event`: a SIGTRAP that no instruction of the program raised is the end of the step.
unfoldable pub end_step :
    Stepping → ℕ → ℕ → Bool → Option ℕ × Task → Outcome (StepResult × Stepping)
end_step s p b break_insn (none, u) = ok (step_done, record s { group = store_task s.group p u })
end_step s p b break_insn (some sig, u) = do
  _ ← require u.stopped
  _ ← require (not (event_is_none u.event.type))
  _ ← require (not (event_is_breakpoint u.event.type))
  let s1 = record s { group = store_task s.group p u }
  elim (event_is_signal u.event.type && (sig == sigtrap)) [
    | false ↦ queue_step s1 p step_queued
    | true ↦ elim break_insn [
      | true ↦ queue_step s1 p step_done
      | false ↦
          ok
            (step_done, record s { group = store_task s.group p (with_event u event_breakpoint b) })
    ]
  ]

unfoldable pub handle_singlestep : StepAnswers → Stepping → ℕ → ℕ → Outcome (StepResult × Stepping)
handle_singlestep w s p b = do
  t ← task_at s.group p
  _ ← require t.stopped
  _ ← require (no_skip (s.skip_bp p))
  bp ← bp_at s.group.breakpoints b
  _ ← require (not bp.enabled)
  let t1 = with_event t event_none t.event.value
  let g1 = store_task s.group p t1
  elim w.started [
    | false ↦ ok (step_failed, record s { group = g1 })
    | true ↦
        let s1 = record s { group = g1; ran_on = g1.breakpoints.memory ∷ s.ran_on } in
        elim w.status [
          | none ↦ ok (step_done, s1)
          | some st ↦ _process_event w.answers st t1 >>= end_step s1 p b bp.break_insn
        ]
  ]

abbrev pub with_breakpoints : Stepping → Leader → Stepping
with_breakpoints s l = record s { group = record s.group { breakpoints = l } }

abbrev pub go_on : Stepping → ℕ → Outcome Stepping
go_on s p = continue_task s.group p >>= λ g. ok (record s { group = g })

-- A step that did not end is remembered in `skip_bp`, with a reference to the breakpoint.
unfoldable pub keep_skip : Stepping → ℕ → ℕ → Outcome Stepping
keep_skip s p b = do
  l ← breakpoint_get s.group.breakpoints (some b)
  ok (record (with_breakpoints s l) { skip_bp = update s.skip_bp p (some b) })

unfoldable pub skipped : Stepping → ℕ → ℕ → StepResult → Outcome Stepping
skipped s p b step_done = go_on s p
skipped s p b step_failed = keep_skip s p b
skipped s p b step_queued = keep_skip s p b

module _ (target : Target) where
  unfoldable pub skip_breakpoint : StepAnswers → Stepping → ℕ → ℕ → Outcome Stepping
  skip_breakpoint w s p b = do
    t ← task_at s.group p
    _ ← require (event_is_breakpoint t.event.type)
    _ ← require t.stopped
    _ ← require (no_skip (s.skip_bp p))
    bp ← bp_at s.group.breakpoints b
    elim (bp.sw && bp.enabled) [
      | false ↦ go_on s p
      | true ↦ do
        off ← breakpoint_disable target s.group.breakpoints b
        (res, s1) ← handle_singlestep w (with_breakpoints s off) p b
        on ← breakpoint_enable target s1.group.breakpoints b
        skipped (with_breakpoints s1 on) p b res
    ]
