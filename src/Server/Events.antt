-- ===== src/Server/Events.antt =====
-- event.c, event.h and sysdeps/linux-gnu/trace.c: the threads of one leader, what `waitpid` reports of them,
-- and the queue of their events.
pub mod Members
pub mod Halted
pub mod Stopping
use mtrace.Base.{
  ℕ, suc, ◌+◌, ◌-◌, ◌%◌, ◌==◌, ltb, if◌then◌else◌, Bool, true, false, not, ◌&&◌, Option, none, some,
  List, [], ◌∷◌, ◌++◌, length, Outcome, ok, aborted, fault, diverged, ◌>>=◌,
}
use mtrace.Base.Word.{w32}
use mtrace.Server.Breakpoint.{Leader, require, bp_at, breakpoint_find, breakpoint_get}

pub data EventType : Type 0 where
  event_none event_signal event_about_exit event_exit event_exit_signal event_fork event_clone
        event_vfork event_exec event_breakpoint event_new :
      EventType

-- `value` is the union: a signal, an exit status, a new pid, or a pointer to a breakpoint.
pub record Event : Type 0 where
  pub type : EventType
  pub value : ℕ

pub record Task : Type 0 where
  pub pid : ℕ
  pub attached : Bool
  pub stopped : Bool
  pub is_new : Bool
  pub bad : Bool
  pub event : Event

-- A leader with its threads, itself among them: `threads` is the length of `tasks`. The breakpoints are
-- those of the leader, and the queue holds the tasks by their pids.
pub record Group : Type 0 where
  pub tasks : List Task
  pub threads_stopped : ℕ
  pub event_head : List ℕ
  pub breakpoints : Leader

-- The ptrace event in the upper half of a status, and an unknown one.
pub data TraceEvent : Type 0 where
  no_event trace_fork trace_vfork trace_clone trace_exec trace_exit unknown_event : TraceEvent

-- What `waitpid` gives: a thread that a signal killed, that exited, or that a signal and a ptrace event
-- stopped.
pub data Status : Type 0 where
  signaled exited : ℕ → Status
  stopped : ℕ → TraceEvent → Status
  continued : Status

-- What else the kernel answers: the message of a ptrace event, whether the process that it names is known
-- or can be added, whether a stop signal is ours (nothing where the kernel does not say), whether
-- the registers can be read, and the address of a breakpoint that the program counter is at.
pub record Answers : Type 0 where
  pub message : ℕ
  pub child : Bool
  pub ours : Option Bool
  pub context : Bool
  pub at : ℕ

abbrev pub sigtrap : ℕ
sigtrap = 5

abbrev pub sigstop : ℕ
sigstop = 19

abbrev pub event_is_none : EventType → Bool
event_is_none event_none = true
event_is_none _ = false

unfoldable pub with_event : Task → EventType → ℕ → Task
with_event t ty v = record t { event = record { type = ty; value = v } }

-- The result of a function that gives -1 is nothing.
unfoldable pub child_event : Answers → EventType → Task → Option ℕ × Task
child_event w ty t = elim (w.message == 0) [
  | true ↦ (none, t)
  | false ↦ elim w.child [ false ↦ (none, t) | true ↦ (some 0, with_event t ty w.message) ]
]

-- A stop signal that mtrace itself sent is not passed on.
unfoldable pub passed_on : Answers → ℕ → ℕ
passed_on w sig = elim (sig == sigstop) [
  | false ↦ sig
  | true ↦ elim w.ours [ none ↦ 0 | some b ↦ if b then 0 else sig ]
]

unfoldable pub signal_event : Answers → ℕ → Task → Option ℕ × Task
signal_event w sig t = let s = passed_on w sig in (some s, with_event t event_signal s)

abbrev pub is_no_event : TraceEvent → Bool
is_no_event no_event = true
is_no_event _ = false

unfoldable pub stop_event : Answers → ℕ → TraceEvent → Task → Option ℕ × Task
stop_event w sig trace_fork t = child_event w event_fork t
stop_event w sig trace_vfork t = child_event w event_vfork t
stop_event w sig trace_clone t = child_event w event_clone t
stop_event w sig trace_exec t = (some 0, with_event t event_exec t.event.value)
stop_event w sig trace_exit t = (some 0, with_event t event_about_exit w.message)
stop_event w sig _ t = signal_event w sig t

unfoldable pub classify : Answers → Status → Task → Option ℕ × Task
classify w (signaled n) t = (some 0, with_event t event_exit_signal n)
classify w (exited n) t = (some 0, with_event t event_exit n)
classify w continued t = (none, t)
classify w (stopped sig ev) t = elim t.is_new [
  | true ↦ elim (sig == sigstop && is_no_event ev) [
    | true ↦ (some 0, with_event t event_new 0)
    | false ↦ stop_event w sig ev (record t { bad = true })
  ]
  | false ↦ stop_event w sig ev t
]

unfoldable pub _process_event : Answers → Status → Task → Outcome (Option ℕ × Task)
_process_event w st t = do
  _ ← require (event_is_none t.event.type)
  ok (classify w st (record t { stopped = true }))

unfoldable pub find_member : List Task → ℕ → Option Task
find_member [] p = none
find_member (t ∷ ts) p = elim (t.pid == p) [ true ↦ some t | false ↦ find_member ts p ]

-- A write to the fields of a thread.
unfoldable pub set_member : List Task → ℕ → Task → List Task
set_member [] p u = []
set_member (t ∷ ts) p u = elim (t.pid == p) [ true ↦ u ∷ ts | false ↦ t ∷ set_member ts p u ]

unfoldable pub task_at : Group → ℕ → Outcome Task
task_at g p = elim (find_member g.tasks p) [ none ↦ fault | some t ↦ ok t ]

unfoldable pub store_task : Group → ℕ → Task → Group
store_task g p t = record g { tasks = set_member g.tasks p t }

-- The result of PTRACE_CONT is not part of the state.
unfoldable pub continue_task : Group → ℕ → Outcome Group
continue_task g p = do
  t ← task_at g p
  _ ← require t.stopped
  ok (
      store_task (record g { threads_stopped = (g.threads_stopped + w32 - 1) % w32 }) p
        (record t { stopped = false; event = record { type = event_none; value = t.event.value } }))

-- A thread that stopped with SIGTRAP may have hit a breakpoint. The Boolean is whether the task is returned.
unfoldable pub trapped : Answers → Group → ℕ → Task → Outcome (Bool × Group)
trapped w g p t = elim w.context [
  | false ↦ continue_task (store_task g p (with_event t event_none t.event.value)) p >>= λ h.
      ok (false, h)
  | true ↦ do
    hit ← breakpoint_find g.breakpoints w.at
    elim hit [
      | none ↦ ok (true, g)
      | some b ↦ do
        bp ← bp_at g.breakpoints b
        _ ← require bp.enabled
        bps ← breakpoint_get g.breakpoints (some b)
        ok (true, store_task (record g { breakpoints = bps }) p (with_event t event_breakpoint b))
    ]
]

unfoldable pub process_event : Answers → Status → Group → ℕ → Outcome (Bool × Group)
process_event w st g p = do
  t ← task_at g p
  _ ← require (not t.stopped)
  let g1 = record g { threads_stopped = (g.threads_stopped + 1) % w32 }
  (sig, u) ← _process_event w st t
  let g2 = store_task g1 p u
  elim sig [
    | none ↦ continue_task g2 p >>= λ h. ok (false, h)
    | some s ↦ elim (event_is_none u.event.type) [
      | true ↦ continue_task g2 p >>= λ h. ok (false, h)
      | false ↦ elim (s == sigtrap) [ false ↦ ok (true, g2) | true ↦ trapped w g2 p u ]
    ]
  ]

unfoldable pub queue_event : Group → ℕ → Outcome Group
queue_event g p = do
  t ← task_at g p
  _ ← require (not (event_is_none t.event.type))
  _ ← require t.stopped
  ok (record g { event_head = g.event_head ++ p ∷ [] })

unfoldable pub drop_pid : List ℕ → ℕ → List ℕ
drop_pid [] q = []
drop_pid (n ∷ ns) q = elim (n == q) [ true ↦ ns | false ↦ n ∷ drop_pid ns q ]

unfoldable pub remove_event : Group → ℕ → Outcome Group
remove_event g p = do
  t ← task_at g p
  ok (
      store_task (record g { event_head = drop_pid g.event_head p }) p
        (with_event t event_none t.event.value))

-- A report of `waitpid` on one of the threads.
pub record Report : Type 0 where
  pub pid : ℕ
  pub status : Status
  pub answers : Answers

-- `wait_event` on a thread of the group. The Boolean is whether it returns the task. A report of a thread
-- that is stopped already only changes its event, or ends in an assertion.
unfoldable pub wait_event : Report → Group → Outcome (Bool × Group)
wait_event r g = elim (find_member g.tasks r.pid) [
  | none ↦ ok (false, g)
  | some t ↦ elim t.stopped [
    | false ↦ process_event r.answers r.status g r.pid
    | true ↦ elim r.status [
      | signaled n ↦ ok (false, store_task g r.pid (with_event t event_exit_signal n))
      | exited n ↦ ok (false, store_task g r.pid (with_event t event_exit n))
      | stopped sig trace_exit ↦
          ok (false, store_task g r.pid (with_event t event_about_exit r.answers.message))
      | _ ↦ process_event r.answers r.status g r.pid
    ]
  ]
]

unfoldable pub queue_returned : ℕ → Bool × Group → Outcome Group
queue_returned p (true, g) = queue_event g p
queue_returned p (false, g) = ok g

-- The loop of `stop_threads`, over the reports that come. Where none comes any more it waits for ever.
unfoldable pub stop_loop : List Report → Group → Outcome Group
stop_loop [] g = elim (length g.tasks == g.threads_stopped) [
  | true ↦ ok g
  | false ↦ elim (ltb g.threads_stopped (length g.tasks)) [ false ↦ aborted | true ↦ diverged ]
]
stop_loop (r ∷ rs) g = elim (length g.tasks == g.threads_stopped) [
  | true ↦ ok g
  | false ↦ elim (ltb g.threads_stopped (length g.tasks)) [
    | false ↦ aborted
    | true ↦ wait_event r g >>= queue_returned r.pid >>= stop_loop rs
  ]
]
