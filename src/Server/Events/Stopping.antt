-- ===== src/Server/Events/Stopping.antt =====
-- sysdeps/linux-gnu/trace.c: stop_threads ends with all threads stopped.
use mtrace.Base.{
  ℕ, ◌≤◌, ◌<◌, ◌==◌, ltb, ◌≡◌, refl, ◌≢◌, subst, ap, ◌∙◌, inl, inr, true, false, some, List, [],
  ◌∷◌, length, arith, All, Bool-cases, ==_iff, ◌>>=◌, Ends,
}
use mtrace.Base.Word.{w32}
use mtrace.Server.Events.{Task, Group, Report, event_is_none, find_member, store_task, stop_loop}
use mtrace.Server.Events.Members.{
  one_if, one_unless, stopped_count, running_count, find-set-other, length-set, total-set,
  stopped-running, all_stopped,
}
use mtrace.Server.Events.Halted.{Halts, met, met-pid, met-stopped, queued, step-runs}

-- A report that the kernel still has to give: of a thread that runs and has no event yet.
abbrev pub IsDue : Group → Report → Type 0
IsDue g r =
    Halts r.status
    × ((t : Task) × (find_member g.tasks r.pid ≡ some t)
        × (t.stopped ≡ false)
        × (event_is_none t.event.type ≡ true))

abbrev pub AreOnce : List Report → Type 0
AreOnce [] = Unit
AreOnce (r ∷ rs) = All (λ q. r.pid ≢ q.pid) rs × AreOnce rs

-- A leader whose running threads are waited for: the count of the stopped ones is right, and for each
-- running thread there is a report to come.
pub record IsAwaited (rs : List Report) (g : Group) : Type 0 where
  pub counts : g.threads_stopped ≡ stopped_count g.tasks
  pub small : length g.tasks < w32
  pub due : All (IsDue g) rs
  pub once : AreOnce rs
  pub enough : running_count g.tasks ≤ length rs

-- All threads are stopped, and the leader's count says so.
pub record AreStopped (n : ℕ) (g : Group) : Type 0 where
  pub stopped : All (λ t. t.stopped ≡ true) g.tasks
  pub count : g.threads_stopped ≡ n
  pub same : length g.tasks ≡ n

finished :
    (rs : List Report) (g : Group)
    → IsAwaited rs g
    → running_count g.tasks ≡ 0
    → AreStopped (length g.tasks) g
finished rs g w e = record {
  stopped = all_stopped g.tasks e;
  count = omega (arith, w.counts, stopped-running g.tasks);
  same = refl;
}

all_there :
    (rs : List Report) (g : Group)
    → IsAwaited rs g
    → length g.tasks == g.threads_stopped ≡ true
    → running_count g.tasks ≡ 0
all_there rs g w e =
    let k = (==_iff (length g.tasks) g.threads_stopped).0 e in
    omega (arith, k, w.counts, stopped-running g.tasks)

not_there :
    (rs : List Report) (g : Group)
    → IsAwaited rs g
    → length g.tasks == g.threads_stopped ≡ false
    → ltb g.threads_stopped (length g.tasks) ≡ true
not_there rs g w f =
    below (length g.tasks) g.threads_stopped f (omega (arith, w.counts, stopped-running g.tasks))
  where
    below : (n k : ℕ) → n == k ≡ false → k ≤ n → ltb k n ≡ true
    below n k h le = ground arith

module _ (r : Report) (rs : List Report) (g : Group) (w : IsAwaited (r ∷ rs) g) where
  abbrev after : Group
  after = let d = w.due.0 in queued r g d.1.0 d.1.1 d.1.2 d.1.3 d.0

  still-IsDue : (q : Report) → r.pid ≢ q.pid → IsDue g q → IsDue after q
  unfolding store_task
  still-IsDue q ne d =
      let e = w.due.0 in
      (
        d.0,
        (
          d.1.0,
          find-set-other g.tasks r.pid q.pid (met r g e.1.0 e.1.1 e.1.2 e.1.3 e.0)
                (met-pid r g e.1.0 e.1.1 e.1.2 e.1.3 e.0) ne
              ∙ d.1.1,
          d.1.2,
          d.1.3,
        ),
      )

  still_all :
      (qs : List Report) → All (λ q. r.pid ≢ q.pid) qs → All (IsDue g) qs → All (IsDue after) qs
  still_all [] n d = tt
  still_all (q ∷ qs) n d = (still-IsDue q n.0 d.0, still_all qs n.1 d.1)

  after-IsAwaited : IsAwaited rs after × (length after.tasks ≡ length g.tasks)
  unfolding store_task
  after-IsAwaited =
      let d = w.due.0 in
      let u = met r g d.1.0 d.1.1 d.1.2 d.1.3 d.0 in
      let up = ap one_if (met-stopped r g d.1.0 d.1.1 d.1.2 d.1.3 d.0) in
      let down = ap one_unless (met-stopped r g d.1.0 d.1.1 d.1.2 d.1.3 d.0) in
      let was_up = ap one_if d.1.2 in
      let was_down = ap one_unless d.1.2 in
      let s = total-set (λ t. one_if t.stopped) g.tasks r.pid d.1.0 u d.1.1 in
      let q = total-set (λ t. one_unless t.stopped) g.tasks r.pid d.1.0 u d.1.1 in
      let l = length-set g.tasks r.pid u in
      let all = stopped-running g.tasks in
      (
        record {
          counts = omega (arith, w.counts, s, up, was_up, q, down, was_down, all, w.small);
          small = omega (arith, l, w.small);
          due = still_all rs w.once.0 w.due.1;
          once = w.once.1;
          enough = omega (arith, q, down, was_down, w.enough);
        },
        l,
      )

-- stop_threads ends with all threads stopped, whatever their order: it waits for as many reports as there
-- are threads running, where each of them is reported once, by a report that halts it: that it is dead,
-- about to exit, has called exec, or was stopped by a signal other than SIGTRAP. Reports after which the
-- thread runs again are not followed: SIGTRAP and breakpoints, fork, vfork and clone, unknown and continued.
pub stop_loop-AreStopped :
    (rs : List Report) (g : Group)
    → IsAwaited rs g
    → Ends ⊥ (AreStopped (length g.tasks)) (stop_loop rs g)
unfolding stop_loop
stop_loop-AreStopped [] g w =
    let e =
      (==_iff (length g.tasks) g.threads_stopped).1
        (omega (arith, w.counts, w.enough, stopped-running g.tasks)) in
    rw (e, stop_loop, Ends) (finished [] g w (all_there [] g w e))
stop_loop-AreStopped (r ∷ rs) g w = elim (Bool-cases (length g.tasks == g.threads_stopped)) [
  | inl e ↦ rw (e, stop_loop, Ends) (finished (r ∷ rs) g w (all_there (r ∷ rs) g w e))
  | inr f ↦
      let d = w.due.0 in
      let k = after-IsAwaited r rs g w in
      rw (f, not_there (r ∷ rs) g w f, step-runs r g d.1.0 d.1.1 d.1.2 d.1.3 d.0, stop_loop, ◌>>=◌)
        (subst (λ n. Ends ⊥ (AreStopped n) (stop_loop rs (after r rs g w))) k.1
          (stop_loop-AreStopped rs (after r rs g w) k.0))
]
