-- ===== src/Server/Step/Met.antt =====
-- sysdeps/linux-gnu/trace.c: what _process_event makes of the end of a single step.
use mtrace.Base.{
  ℕ, ◌==◌, ◌≡◌, refl, sym, subst, inl, inr, true, false, ◌&&◌, Option, none, some, Bool-cases,
}
use mtrace.Server.Events.{
  Task, Status, signaled, exited, stopped, continued, TraceEvent, no_event, trace_fork, trace_vfork,
  trace_clone, trace_exec, trace_exit, unknown_event, is_no_event, Answers, EventType,
  event_is_none, event_fork, event_vfork, event_clone, sigstop, with_event, child_event,
  signal_event, stop_event, classify,
}
use mtrace.Server.Events.Halted.{classify_new, classify_bad, classify_old}
use mtrace.Server.Step.{event_is_breakpoint}

-- Where the result is not -1, the event is one of those that `_process_event` gives.
abbrev pub HasEvent : Option ℕ × Task → Type 0
HasEvent (none, u) = Unit
HasEvent (some n, u) =
    (event_is_none u.event.type ≡ false) × (event_is_breakpoint u.event.type ≡ false)

abbrev pub IsMet : Task → Option ℕ × Task → Type 0
IsMet t w = (w.1.pid ≡ t.pid) × (w.1.stopped ≡ t.stopped) × HasEvent w

child-IsMet :
    (w : Answers) (ty : EventType) (t : Task)
    → event_is_none ty ≡ false
    → event_is_breakpoint ty ≡ false
    → IsMet t (child_event w ty t)
unfolding child_event with_event
child-IsMet w ty t n k = elim (Bool-cases (w.message == 0)) [
  | inl e ↦ rw (e, child_event) (refl, refl, tt)
  | inr f ↦ elim (Bool-cases w.child) [
    | inl c ↦ rw (f, c, child_event) (refl, refl, (n, k))
    | inr c ↦ rw (f, c, child_event) (refl, refl, tt)
  ]
]

stop_event-IsMet :
    (w : Answers) (sig : ℕ) (ev : TraceEvent) (t : Task) → IsMet t (stop_event w sig ev t)
unfolding stop_event with_event signal_event
stop_event-IsMet w sig no_event t = (refl, refl, (refl, refl))
stop_event-IsMet w sig unknown_event t = (refl, refl, (refl, refl))
stop_event-IsMet w sig trace_exec t = (refl, refl, (refl, refl))
stop_event-IsMet w sig trace_exit t = (refl, refl, (refl, refl))
stop_event-IsMet w sig trace_fork t = child-IsMet w event_fork t refl refl
stop_event-IsMet w sig trace_vfork t = child-IsMet w event_vfork t refl refl
stop_event-IsMet w sig trace_clone t = child-IsMet w event_clone t refl refl

pub classify-IsMet : (w : Answers) (st : Status) (t : Task) → IsMet t (classify w st t)
unfolding classify with_event
classify-IsMet w (signaled n) t = (refl, refl, (refl, refl))
classify-IsMet w (exited n) t = (refl, refl, (refl, refl))
classify-IsMet w continued t = (refl, refl, tt)
classify-IsMet w (stopped sig ev) t = elim (Bool-cases t.is_new) [
  | inr old ↦ subst (IsMet t) (sym (classify_old w sig ev t old)) (stop_event-IsMet w sig ev t)
  | inl new ↦ elim (Bool-cases (sig == sigstop && is_no_event ev)) [
    | inl e ↦ subst (IsMet t) (sym (classify_new w sig ev t new e)) (refl, refl, (refl, refl))
    | inr f ↦
        subst (IsMet t) (sym (classify_bad w sig ev t new f))
          (stop_event-IsMet w sig ev (record t { bad = true }))
  ]
]
