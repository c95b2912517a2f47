-- ===== src/Server/Step/Kept.antt =====
-- trace.c: how skip_breakpoint ends, with the thread running or kept with a reference to the breakpoint.
use mtrace.Base.{
  ℕ, ◌+◌, ◌≡◌, refl, sym, subst, ap, ◌∙◌, ◌⊎◌, inl, inr, true, false, none, some, ◌∷◌, Outcome, ok,
  ◌>>=◌, Ends, Ends-map, ==_refl,
}
use mtrace.Process.State.{update}
use mtrace.Server.ProcMemory.{ProcBytes, bytes}
use mtrace.Server.Breakpoint.{Breakpoint, Leader, Target, require, bp_at, breakpoint_get}
use mtrace.Server.Breakpoint.Text.{span, IsText, changed, changed-here, changed-IsText, split_clean}
use mtrace.Server.Breakpoint.Switch.{IsTraced}
use mtrace.Server.Events.{Task, event_none, find_member, store_task, task_at, continue_task}
use mtrace.Server.Events.Members.{find-pid, find-set-same}
use mtrace.Server.Step.{Stepping, with_breakpoints, go_on, keep_skip}

module _ (target : Target) (text : ProcBytes) (traced : IsTraced target) (s : Stepping) (p b : ℕ)
    (bp : Breakpoint) where
  -- One step more, on a memory that has the program's own bytes at the breakpoint.
  abbrev pub HasRun : Stepping → Type 0
  HasRun s1 =
      (m : ProcBytes) × (s1.ran_on ≡ m ∷ s.ran_on)
      × (bytes m bp.addr (span target text) ≡ bytes text bp.addr (span target text))

  -- The memory is the text under the breakpoints, the breakpoint is in it as before, and the thread goes on
  -- or is kept. It goes on from a breakpoint in the text only by a step on the program's own bytes.
  pub record IsSkipped (s1 : Stepping) : Type 0 where
    pub has_text : IsText target text s1.group.breakpoints
    pub now : Breakpoint
    pub now_here : s1.group.breakpoints.heap b ≡ some now
    pub in_text : now.sw ≡ bp.sw
    pub at_address : now.addr ≡ bp.addr
    pub task : Task
    pub found : find_member s1.group.tasks p ≡ some task
    pub next :
        ((task.stopped ≡ false) × (s1.skip_bp p ≡ none) × (bp.sw ≡ true → HasRun s1))
        ⊎ ((task.stopped ≡ true) × (s1.skip_bp p ≡ some b) × ((s1.ran_on ≡ s.ran_on) ⊎ HasRun s1))

-- breakpoint_get keeps the text.
module _ (target : Target) (text : ProcBytes) (l : Leader) (b : ℕ) (c : Breakpoint)
    (inv : IsText target text l) (here : l.heap b ≡ some c) where
  abbrev held : Breakpoint
  held = record c { refcnt = c.refcnt + 1 }

  abbrev got : Leader
  got = changed target text l b c held l.memory l.stopped

  breakpoint_get-runs : breakpoint_get l (some b) ≡ ok got
  unfolding breakpoint_get bp_at
  breakpoint_get-runs = simp (here, breakpoint_get, bp_at, ◌>>=◌)

  got-IsText : IsText target text got
  got-IsText =
      let k = inv.each b c here in
      changed-IsText target text l b c held l.memory l.stopped inv here
        (record { same = k.same; hw = k.hw; size = k.size; orig = k.orig; gone = k.gone }) refl
        (λ e. e) (λ x f g. split_clean target text l b c inv here x f g)

module _ (s : Stepping) (p : ℕ) (t : Task) (here : find_member s.group.tasks p ≡ some t)
    (on : t.stopped ≡ true) where
  abbrev running : Task
  running = record t {
    stopped = false;
    event = record { type = event_none; value = t.event.value };
  }

  -- A stopped thread goes on, and the breakpoints are left alone.
  abbrev IsGone : Stepping → Type 0
  IsGone s1 =
      (u : Task) × (find_member s1.group.tasks p ≡ some u)
      × (u.stopped ≡ false)
      × (s1.group.breakpoints ≡ s.group.breakpoints)
      × (s1.skip_bp ≡ s.skip_bp)
      × (s1.ran_on ≡ s.ran_on)

  go_on-IsGone : Ends ⊥ IsGone (go_on s p)
  unfolding continue_task task_at require store_task
  go_on-IsGone =
      let f = find-set-same s.group.tasks p t running here (find-pid s.group.tasks p t here) in
      simp (here, on, continue_task, task_at, require, ◌>>=◌) (running, f, refl, refl, refl, refl)

module _ (target : Target) (text : ProcBytes) (traced : IsTraced target) (s : Stepping) (p b : ℕ)
    (bp : Breakpoint) where
  abbrev pub Skipped : Outcome Stepping → Type 0
  Skipped = Ends ⊥ (IsSkipped target text traced s p b bp)

  -- The step is over and the break instruction is back.
  module _ (s1 : Stepping) (t : Task) (here : find_member s1.group.tasks p ≡ some t)
      (on : t.stopped ≡ true) (now : Breakpoint)
      (has_text : IsText target text s1.group.breakpoints)
      (now_here : s1.group.breakpoints.heap b ≡ some now) (in_text : now.sw ≡ bp.sw)
      (at_address : now.addr ≡ bp.addr) where
    pub goes-IsSkipped :
        s1.skip_bp p ≡ none
        → (bp.sw ≡ true → HasRun target text traced s p b bp s1)
        → Skipped (go_on s1 p)
    goes-IsSkipped free ran = Ends-map _ _ _ (go_on s1 p) (go_on-IsGone s1 p t here on) (λ s2 g.
        record {
          has_text = subst (IsText target text) (sym g.3) has_text;
          now = now;
          now_here = ap (λ l. l.heap b) g.3 ∙ now_here;
          in_text = in_text;
          at_address = at_address;
          task = g.0;
          found = g.1;
          next = inl (g.2, ap (λ k. k p) g.4 ∙ free, λ e. let r = ran e in (r.0, g.5 ∙ r.1, r.2));
        })

    kept : Stepping
    kept =
        record (with_breakpoints s1
          (got target text s1.group.breakpoints b now has_text now_here)) {
            skip_bp = update s1.skip_bp p (some b);
          }

    pub kept-IsSkipped :
        (s1.ran_on ≡ s.ran_on) ⊎ HasRun target text traced s p b bp s1 → Skipped (keep_skip s1 p b)
    unfolding keep_skip
    kept-IsSkipped ran =
        rw
          (
            breakpoint_get-runs target text s1.group.breakpoints b now has_text now_here,
            ◌>>=◌,
            Ends,
          )
          (record {
            has_text = got-IsText target text s1.group.breakpoints b now has_text now_here;
            now = held target text s1.group.breakpoints b now has_text now_here;
            now_here = changed-here target text s1.group.breakpoints b now _ _ _;
            in_text = in_text;
            at_address = at_address;
            task = t;
            found = here;
            next = inr (on, rw (==_refl p) refl, ran);
          })
