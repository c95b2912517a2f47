-- ===== src/Server/Step/Taken.antt =====
-- sysdeps/linux-gnu/trace.c: a single step always ends, and touches neither the breakpoints nor their text.
use mtrace.Base.{
  ℕ, ◌==◌, ◌≡◌, refl, sym, subst, ◌∙◌, ◌⊎◌, inl, inr, Bool, true, false, ◌&&◌, Option, none, some,
  [], ◌∷◌, ◌++◌, Bool-cases, ok, ◌>>=◌, Ends, Ends-map,
}
use mtrace.Server.Breakpoint.{Breakpoint, require, bp_at}
use mtrace.Server.Events.{
  Task, Status, event_is_none, event_none, event_breakpoint, sigtrap, with_event, classify,
  _process_event, task_at, find_member, store_task, queue_event,
}
use mtrace.Server.Events.Members.{find-pid, find-set-same}
use mtrace.Server.Step.{
  Stepping, StepAnswers, StepResult, step_failed, step_done, step_queued, event_is_signal,
  queue_step, end_step, handle_singlestep,
}
use mtrace.Server.Step.Met.{IsMet, classify-IsMet}

-- The thread is stopped, and the step ran on the memory as it was, if it ran.
pub record IsStepped (s : Stepping) (p : ℕ) (r : StepResult × Stepping) : Type 0 where
  pub task : Task
  pub found : find_member r.1.group.tasks p ≡ some task
  pub stops : task.stopped ≡ true
  pub same_breakpoints : r.1.group.breakpoints ≡ s.group.breakpoints
  pub same_skip : r.1.skip_bp ≡ s.skip_bp
  pub ran :
      ((r.0 ≡ step_failed) × (r.1.ran_on ≡ s.ran_on))
      ⊎ (r.1.ran_on ≡ s.group.breakpoints.memory ∷ s.ran_on)

module _ (s : Stepping) (p : ℕ) (t : Task) (here : find_member s.group.tasks p ≡ some t) where
  abbrev stored : Task → Stepping
  stored u = record s { group = store_task s.group p u }

  stored-found : (u : Task) → u.pid ≡ t.pid → find_member (stored u).group.tasks p ≡ some u
  unfolding store_task
  stored-found u e = find-set-same s.group.tasks p t u here (e ∙ find-pid s.group.tasks p t here)

  -- What an end of the step leaves of the state before it.
  abbrev IsLeft : StepResult × Stepping → Type 0
  IsLeft r =
      (u : Task) × (find_member r.1.group.tasks p ≡ some u)
      × (u.stopped ≡ true)
      × (r.1.group.breakpoints ≡ s.group.breakpoints)
      × (r.1.skip_bp ≡ s.skip_bp)
      × (r.1.ran_on ≡ s.ran_on)

  stored-IsLeft :
      (res : StepResult) (u : Task) → u.pid ≡ t.pid → u.stopped ≡ true → IsLeft (res, stored u)
  unfolding store_task
  stored-IsLeft res u e st = (u, stored-found u e, st, refl, refl, refl)

  abbrev queued : Task → Stepping
  queued u = record s {
    group = record (stored u).group { event_head = (stored u).group.event_head ++ p ∷ [] };
  }

  queue_step-runs :
      (res : StepResult) (u : Task)
      → u.pid ≡ t.pid
      → u.stopped ≡ true
      → event_is_none u.event.type ≡ false
      → queue_step (stored u) p res ≡ ok (res, queued u)
  unfolding queue_step queue_event task_at require
  queue_step-runs res u e st ev =
      let f = stored-found u e in simp (f, queue_step, queue_event, task_at, ev, st, require, ◌>>=◌)

  queue_step-IsLeft :
      (res : StepResult) (u : Task)
      → u.pid ≡ t.pid
      → u.stopped ≡ true
      → event_is_none u.event.type ≡ false
      → Ends ⊥ IsLeft (queue_step (stored u) p res)
  unfolding store_task
  queue_step-IsLeft res u e st ev =
      subst (Ends ⊥ IsLeft) (sym (queue_step-runs res u e st ev))
        (u, stored-found u e, st, refl, refl, refl)

  end_step-IsLeft :
      (b : ℕ) (break_insn : Bool) (w : Option ℕ × Task)
      → IsMet t w
      → t.stopped ≡ true
      → Ends ⊥ IsLeft (end_step s p b break_insn w)
  unfolding end_step require with_event
  end_step-IsLeft b break_insn (none, u) m st = stored-IsLeft step_done u m.0 (m.1 ∙ st)
  end_step-IsLeft b break_insn (some sig, u) m st =
      let on = m.1 ∙ st in
      elim (Bool-cases (event_is_signal u.event.type && (sig == sigtrap))) [
        | inr f ↦
            rw (on, m.2.0, m.2.1, f, end_step, require, ◌>>=◌)
              (queue_step-IsLeft step_queued u m.0 on m.2.0)
        | inl e ↦ elim (Bool-cases break_insn) [
          | inl k ↦
              rw (on, m.2.0, m.2.1, e, k, end_step, require, ◌>>=◌)
                (queue_step-IsLeft step_done u m.0 on m.2.0)
          | inr k ↦
              rw (on, m.2.0, m.2.1, e, k, end_step, require, ◌>>=◌, Ends)
                (stored-IsLeft step_done (with_event u event_breakpoint b) m.0 on)
        ]
      ]

module _ (w : StepAnswers) (s : Stepping) (p b : ℕ) (t : Task) (bp : Breakpoint)
    (here : find_member s.group.tasks p ≡ some t) (on : t.stopped ≡ true)
    (free : s.skip_bp p ≡ none) (bp_here : s.group.breakpoints.heap b ≡ some bp)
    (off : bp.enabled ≡ false) where
  abbrev idle : Task
  idle = with_event t event_none t.event.value

  abbrev cleared : Stepping
  cleared = record s { group = store_task s.group p idle }

  abbrev begun : Stepping
  begun = record cleared { ran_on = cleared.group.breakpoints.memory ∷ s.ran_on }

  failed-runs : w.started ≡ false → handle_singlestep w s p b ≡ ok (step_failed, cleared)
  unfolding handle_singlestep task_at require bp_at
  failed-runs e =
      simp (here, on, free, bp_here, off, e, handle_singlestep, task_at, require, bp_at, ◌>>=◌)

  lost-runs : w.started ≡ true → w.status ≡ none → handle_singlestep w s p b ≡ ok (step_done, begun)
  unfolding handle_singlestep task_at require bp_at
  lost-runs e k =
      simp (here, on, free, bp_here, off, e, k, handle_singlestep, task_at, require, bp_at, ◌>>=◌)

  abbrev met : Status → Option ℕ × Task
  met st = classify w.answers st (record idle { stopped = true })

  reported-runs :
      (st : Status)
      → w.started ≡ true
      → w.status ≡ some st
      → handle_singlestep w s p b ≡ end_step begun p b bp.break_insn (met st)
  unfolding handle_singlestep task_at require bp_at _process_event with_event
  reported-runs st e k = simp (
    here, on, free, bp_here, off, e, k, handle_singlestep, task_at, require, bp_at, _process_event,
    ◌>>=◌,
  )

  met-IsMet : (st : Status) → IsMet idle (met st)
  unfolding with_event
  met-IsMet st =
      let m = classify-IsMet w.answers st (record idle { stopped = true }) in
      (m.0, m.1 ∙ sym on, m.2)

  cleared-found : find_member cleared.group.tasks p ≡ some idle
  unfolding with_event
  cleared-found = stored-found s p t here idle refl

  -- A single step of a stopped thread from a breakpoint that is off ends without fault, whatever `waitpid`
  -- reports of it.
  pub handle_singlestep-IsStepped : Ends ⊥ (IsStepped s p) (handle_singlestep w s p b)
  unfolding with_event store_task
  handle_singlestep-IsStepped = elim (Bool-cases w.started) [
    | inr f ↦ subst (Ends ⊥ (IsStepped s p)) (sym (failed-runs f)) (record {
      task = idle;
      found = cleared-found;
      stops = on;
      same_breakpoints = refl;
      same_skip = refl;
      ran = inl (refl, refl);
    })
    | inl e ↦ waited e w.status refl
  ]
    where
      waited :
          w.started ≡ true
          → (o : Option Status) → w.status ≡ o
          → Ends ⊥ (IsStepped s p) (handle_singlestep w s p b)
      waited e none k = subst (Ends ⊥ (IsStepped s p)) (sym (lost-runs e k)) (record {
        task = idle;
        found = cleared-found;
        stops = on;
        same_breakpoints = refl;
        same_skip = refl;
        ran = inr refl;
      })
      waited e (some st) k = subst (Ends ⊥ (IsStepped s p)) (sym (reported-runs st e k)) (
          Ends-map _ _ _ (end_step begun p b bp.break_insn (met st))
            (end_step-IsLeft begun p idle cleared-found b bp.break_insn (met st) (met-IsMet st) on)
            (λ r l. record {
              task = l.0;
              found = l.1;
              stops = l.2;
              same_breakpoints = l.3;
              same_skip = l.4;
              ran = inr l.5;
            }))
