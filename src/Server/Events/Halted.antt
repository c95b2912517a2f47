-- ===== src/Server/Events/Halted.antt =====
-- sysdeps/linux-gnu/trace.c: a report that keeps a thread stopped.
use mtrace.Base.{
  ℕ, ◌+◌, ◌%◌, ◌==◌, ◌≡◌, refl, ◌≢◌, sym, subst, ◌∙◌, inl, inr, Bool, true, false, ◌&&◌, Option,
  none, some, [], ◌∷◌, ◌++◌, arith, Bool-cases, ok, ◌>>=◌,
}
use mtrace.Base.Word.{w32}
use mtrace.Server.Breakpoint.{require}
use mtrace.Server.Events.{
  event_new, Task, Group, Status, signaled, exited, stopped, continued, TraceEvent, no_event,
  trace_fork, trace_vfork, trace_clone, trace_exec, trace_exit, unknown_event, is_no_event, Answers,
  Report, event_is_none, sigtrap, sigstop, with_event, passed_on, signal_event, stop_event,
  classify, _process_event, task_at, find_member, store_task, process_event, queue_event,
  wait_event, queue_returned,
}
use mtrace.Server.Events.Members.{find-pid, find-set-same}

-- Reports of a thread that died, that is about to exit or has called exec, or that a signal other than
-- SIGTRAP stopped.
abbrev pub Halts : Status → Type 0
Halts (signaled n) = Unit
Halts (exited n) = Unit
Halts (stopped sig no_event) = sig ≢ sigtrap
Halts (stopped sig trace_exec) = Unit
Halts (stopped sig trace_exit) = Unit
Halts _ = ⊥

-- The thread as it is classified: it keeps its pid, it is stopped, and it has an event.
pub record IsHalted (t : Task) (w : Option ℕ × Task) : Type 0 where
  pub sig : ℕ
  pub given : w.0 ≡ some sig
  pub no_trap : sig == sigtrap ≡ false
  pub pid : w.1.pid ≡ t.pid
  pub stops : w.1.stopped ≡ t.stopped
  pub event : event_is_none w.1.event.type ≡ false

passed_on-no_trap : (w : Answers) (sig : ℕ) → sig ≢ sigtrap → passed_on w sig == sigtrap ≡ false
unfolding passed_on
passed_on-no_trap w sig ne = elim (Bool-cases (sig == sigstop)) [
  | inr f ↦ rw (f, passed_on) (ground arith)
  | inl e ↦ ours e w.ours refl
]
  where
    ours :
        sig == sigstop ≡ true → (o : Option Bool) → w.ours ≡ o → passed_on w sig == sigtrap ≡ false
    ours e none q = rw (e, q, passed_on) refl
    ours e (some true) q = rw (e, q, passed_on) refl
    ours e (some false) q = rw (e, q, passed_on) (ground arith)

signal-IsHalted :
    (w : Answers) (sig : ℕ) (t : Task) → sig ≢ sigtrap → IsHalted t (signal_event w sig t)
unfolding signal_event with_event
signal-IsHalted w sig t ne = record {
  sig = passed_on w sig;
  given = refl;
  no_trap = passed_on-no_trap w sig ne;
  pid = refl;
  stops = refl;
  event = refl;
}

stop_event-IsHalted :
    (w : Answers) (sig : ℕ) (ev : TraceEvent) (t : Task)
    → Halts (stopped sig ev)
    → IsHalted t (stop_event w sig ev t)
unfolding stop_event with_event
stop_event-IsHalted w sig no_event t h = signal-IsHalted w sig t h
stop_event-IsHalted w sig trace_exec t h = record {
  sig = 0;
  given = refl;
  no_trap = refl;
  pid = refl;
  stops = refl;
  event = refl;
}
stop_event-IsHalted w sig trace_exit t h = record {
  sig = 0;
  given = refl;
  no_trap = refl;
  pid = refl;
  stops = refl;
  event = refl;
}
stop_event-IsHalted w sig trace_fork t h = absurd h
stop_event-IsHalted w sig trace_vfork t h = absurd h
stop_event-IsHalted w sig trace_clone t h = absurd h
stop_event-IsHalted w sig unknown_event t h = absurd h

new-IsHalted : (t : Task) → IsHalted t (some 0, with_event t event_new 0)
unfolding with_event
new-IsHalted t = record {
  sig = 0;
  given = refl;
  no_trap = refl;
  pid = refl;
  stops = refl;
  event = refl;
}

pub classify_new :
    (w : Answers) (sig : ℕ) (ev : TraceEvent) (t : Task)
    → t.is_new ≡ true
    → (sig == sigstop && is_no_event ev) ≡ true
    → classify w (stopped sig ev) t ≡ (some 0, with_event t event_new 0)
unfolding classify
classify_new w sig ev t new e = simp (new, e, classify)

pub classify_bad :
    (w : Answers) (sig : ℕ) (ev : TraceEvent) (t : Task)
    → t.is_new ≡ true
    → (sig == sigstop && is_no_event ev) ≡ false
    → classify w (stopped sig ev) t ≡ stop_event w sig ev (record t { bad = true })
unfolding classify
classify_bad w sig ev t new e = simp (new, e, classify)

pub classify_old :
    (w : Answers) (sig : ℕ) (ev : TraceEvent) (t : Task)
    → t.is_new ≡ false
    → classify w (stopped sig ev) t ≡ stop_event w sig ev t
unfolding classify
classify_old w sig ev t old = simp (old, classify)

classify-IsHalted : (w : Answers) (st : Status) (t : Task) → Halts st → IsHalted t (classify w st t)
unfolding classify with_event
classify-IsHalted w (signaled n) t h = record {
  sig = 0;
  given = refl;
  no_trap = refl;
  pid = refl;
  stops = refl;
  event = refl;
}
classify-IsHalted w (exited n) t h = record {
  sig = 0;
  given = refl;
  no_trap = refl;
  pid = refl;
  stops = refl;
  event = refl;
}
classify-IsHalted w continued t h = absurd h
classify-IsHalted w (stopped sig ev) t h = elim (Bool-cases t.is_new) [
  | inl new ↦ elim (Bool-cases (sig == sigstop && is_no_event ev)) [
    | inl e ↦ subst (IsHalted t) (sym (classify_new w sig ev t new e)) (new-IsHalted t)
    | inr f ↦
        let k = stop_event-IsHalted w sig ev (record t { bad = true }) h in
        subst (IsHalted t) (sym (classify_bad w sig ev t new f)) (record {
          sig = k.sig;
          given = k.given;
          no_trap = k.no_trap;
          pid = k.pid;
          stops = k.stops;
          event = k.event;
        })
  ]
  | inr old ↦
      subst (IsHalted t) (sym (classify_old w sig ev t old)) (stop_event-IsHalted w sig ev t h)
]

module _ (r : Report) (g : Group) (t : Task) (here : find_member g.tasks r.pid ≡ some t)
    (running : t.stopped ≡ false) (idle : event_is_none t.event.type ≡ true)
    (h : Halts r.status) where
  abbrev pub met : Task
  met = (classify r.answers r.status (record t { stopped = true })).1

  abbrev pub counted : Group
  counted = record g { threads_stopped = (g.threads_stopped + 1) % w32 }

  met-IsHalted :
      IsHalted
        (record t { stopped = true })
        (classify r.answers r.status (record t { stopped = true }))
  met-IsHalted = classify-IsHalted r.answers r.status (record t { stopped = true }) h

  pub met-pid : met.pid ≡ r.pid
  met-pid = met-IsHalted.pid ∙ find-pid g.tasks r.pid t here

  pub met-stopped : met.stopped ≡ true
  met-stopped = met-IsHalted.stops

  process_event-runs :
      process_event r.answers r.status g r.pid ≡ ok (true, store_task counted r.pid met)
  unfolding process_event task_at require _process_event
  process_event-runs =
      let k = met-IsHalted in
      simp (
        here, running, idle, k.given, k.event, k.no_trap, process_event, task_at, require,
        _process_event, ◌>>=◌,
      )

  wait_event-runs : wait_event r g ≡ ok (true, store_task counted r.pid met)
  unfolding wait_event
  wait_event-runs = simp (here, running, wait_event) process_event-runs

  abbrev pub queued : Group
  queued = record (store_task counted r.pid met) { event_head = g.event_head ++ r.pid ∷ [] }

  queue_event-runs : queue_event (store_task counted r.pid met) r.pid ≡ ok queued
  unfolding queue_event task_at require store_task
  queue_event-runs =
      let k = met-IsHalted in
      let f = find-set-same g.tasks r.pid t met here met-pid in
      simp (f, k.event, met-stopped, queue_event, task_at, require, store_task, ◌>>=◌)

  pub step-runs : (wait_event r g >>= queue_returned r.pid) ≡ ok queued
  unfolding queue_returned
  step-runs = simp (wait_event-runs, ◌>>=◌, queue_returned) queue_event-runs
