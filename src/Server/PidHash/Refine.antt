-- ===== src/Server/PidHash/Refine.antt =====
-- task.c: the hash of tasks against a finite map from pids to tasks.
use mtrace.Base.{
  ℕ, ◌<◌, ◌==◌, if◌then◌else◌, ◌≡◌, refl, sym, subst, ◌∙◌, ap, inl, inr, Bool, true, false, Option,
  none, some, List, [], ◌∷◌, ◌++◌, length, length-append, arith, Outcome, ok, fault, ◌>>=◌, Ends,
  Ends-bind, Ends-why, Ends-map, ◌⊎◌, All-append, Bool-cases, ==_iff,
}
use mtrace.Server.PidHash.{
  PidHash, PidTable, empty_table, set_entry, pid_slot, find_task, drop_task, in_entry, pid2task,
  entry_for, insert_pid, delete_pid,
}
use mtrace.Server.PidHash.Entry.{
  IsEntry, IsPlace, IsTable, find_absent, absent_find, find-add, find-drop, All-drop,
  IsDistinct-drop, length-drop, IsDistinct-add,
}

module _ {A : Type 0} (pid : A → ℕ) where
  -- The specification: a finite map.
  abbrev pub TaskMap : Type 0
  TaskMap = ℕ → Option A

  abbrev pub no_tasks : TaskMap
  no_tasks k = none

  abbrev pub added : TaskMap → A → TaskMap
  added m a k = if pid a == k then some a else m k

  abbrev pub removed : TaskMap → ℕ → TaskMap
  removed m p k = if p == k then none else m k

  abbrev pub Shows : PidTable A → TaskMap → Type 0
  Shows h m = (k : ℕ) → pid2task pid h k ≡ m k

  IsTable-set :
      (h : PidTable A) (i : ℕ) (e : PidHash A)
      → IsTable pid h
      → IsEntry pid i e
      → IsTable pid (set_entry h i e)
  unfolding set_entry
  IsTable-set h i e t p j = elim (Bool-cases (i == j)) [
    | inl q ↦ rw (q, IsPlace) (subst (λ n. IsEntry pid n e) ((==_iff i j).0 q) p)
    | inr q ↦ rw (q) (t j)
  ]

  set_entry-here :
      (h : PidTable A) (i j : ℕ) (e : PidHash A) → i == j ≡ true → set_entry h i e j ≡ some e
  unfolding set_entry
  set_entry-here h i j e q = rw (q) refl

  set_entry-there :
      (h : PidTable A) (i j : ℕ) (e : PidHash A) → i == j ≡ false → set_entry h i e j ≡ h j
  unfolding set_entry
  set_entry-there h i j e q = rw (q) refl

  -- A look into the table after one entry is set.
  pid2task-here :
      (h : PidTable A) (i : ℕ) (e : PidHash A) (k : ℕ)
      → i == pid_slot pid k ≡ true
      → pid2task pid (set_entry h i e) k ≡ find_task pid e.tasks k
  unfolding pid2task
  pid2task-here h i e k q = ap (in_entry pid k) (set_entry-here h i (pid_slot pid k) e q)

  pid2task-there :
      (h : PidTable A) (i : ℕ) (e : PidHash A) (k : ℕ)
      → i == pid_slot pid k ≡ false
      → pid2task pid (set_entry h i e) k ≡ pid2task pid h k
  unfolding pid2task
  pid2task-there h i e k q = ap (in_entry pid k) (set_entry-there h i (pid_slot pid k) e q)

  -- An entry that shows what the table shows in its slot.
  record IsCopy (h : PidTable A) (i : ℕ) (e : PidHash A) : Type 0 where
    entry : IsEntry pid i e
    same : (k : ℕ) → i ≡ pid_slot pid k → find_task pid e.tasks k ≡ pid2task pid h k

  IsCopy-of : (h : PidTable A) (i : ℕ) (e : PidHash A) → h i ≡ some e → IsTable pid h → IsCopy h i e
  unfolding pid2task
  IsCopy-of h i e q t = record {
    entry = subst (IsPlace pid i) q (t i);
    same = λ k s. ap (in_entry pid k) (sym q ∙ ap h s);
  }

  no-IsCopy : (h : PidTable A) (i : ℕ) → h i ≡ none → IsCopy h i (record { size = 8; tasks = [] })
  unfolding pid2task
  no-IsCopy h i q = record {
    entry = record { home = tt; distinct = tt; room = omega arith };
    same = λ k s. absent_find pid [] k tt ∙ ap (in_entry pid k) (sym q ∙ ap h s);
  }

  -- The entry for a new task is a copy with a free place.
  abbrev IsOpen : PidTable A → ℕ → PidHash A → Type 0
  IsOpen h i e = IsCopy h i e × (length e.tasks < e.size)

  module _ (h : PidTable A) (i : ℕ) (t : IsTable pid h) where
    full-IsOpen :
        (b : Bool) (e : PidHash A)
        → h i ≡ some e
        → e.size == length e.tasks ≡ true
        → Ends (b ≡ false) (IsOpen h i) (entry_for pid b (some e))
    unfolding entry_for
    full-IsOpen true e q f =
        let c = IsCopy-of h i e q t in
        let r = c.entry.room in
        rw (f, entry_for, Ends)
          (
            record {
              entry = record {
                home = c.entry.home;
                distinct = c.entry.distinct;
                room = omega arith;
              };
              same = c.same;
            },
            omega arith,
          )
    full-IsOpen false e q f = rw (f, entry_for, Ends) refl

    entry_for-IsOpen :
        (b : Bool) (o : Option (PidHash A))
        → h i ≡ o
        → Ends (b ≡ false) (IsOpen h i) (entry_for pid b o)
    unfolding entry_for
    entry_for-IsOpen true none q = (no-IsCopy h i q, omega arith)
    entry_for-IsOpen false none q = refl
    entry_for-IsOpen b (some e) q = elim (Bool-cases (e.size == length e.tasks)) [
      | inl f ↦ full-IsOpen b e q f
      | inr f ↦
          let c = IsCopy-of h i e q t in
          let r = c.entry.room in rw (f, entry_for, Ends) (c, ground arith)
    ]

  -- A pid whose slot is another one is another pid.
  other_pid : (p k : ℕ) → pid_slot pid p == pid_slot pid k ≡ false → p == k ≡ false
  other_pid p k q = elim (Bool-cases (p == k)) [
    | inl e ↦ absurd (let r = (==_iff _ _).1 (ap (pid_slot pid) ((==_iff p k).0 e)) in cc)
    | inr e ↦ e
  ]

  -- What an operation leaves: a table that shows the map.
  abbrev pub IsShown : TaskMap → PidTable A → Type 0
  IsShown m h = IsTable pid h × Shows h m

  module _ (h : PidTable A) (m : TaskMap) (shown : IsShown m h) (a : A) where
    insert_set :
        m (pid a) ≡ none
        → (e : PidHash A) → IsOpen h (pid_slot pid (pid a)) e
        → IsShown
            (added m a)
            (set_entry h (pid_slot pid (pid a)) (record e { tasks = e.tasks ++ a ∷ [] }))
    insert_set none_yet e open_e =
        let c = open_e.0 in
        let fresh =
          find_absent pid e.tasks (pid a) (c.same (pid a) refl ∙ shown.1 (pid a) ∙ none_yet) in
        (
          IsTable-set h _ _ shown.0 (record {
            home = All-append _ e.tasks (a ∷ []) c.entry.home (refl, tt);
            distinct = IsDistinct-add pid e.tasks a fresh c.entry.distinct;
            room = omega (arith, length-append e.tasks (a ∷ []), open_e.1);
          }),
          λ k. elim (Bool-cases (pid_slot pid (pid a) == pid_slot pid k)) [
            | inl q ↦
                pid2task-here h _ _ k q
                ∙ find-add pid e.tasks a k fresh
                ∙ ap (λ o. if pid a == k then some a else o)
                    (c.same k ((==_iff _ _).0 q) ∙ shown.1 k)
            | inr q ↦
                pid2task-there h _ _ k q
                ∙ shown.1 k
                ∙ ap (λ b. if b then some a else m k) (sym (other_pid (pid a) k q))
          ],
        )

    insert_pid-IsShown :
        (given : Bool)
        → m (pid a) ≡ none
        → Ends (given ≡ false) (IsShown (added m a)) (insert_pid pid given h a)
    unfolding insert_pid
    insert_pid-IsShown given none_yet =
        Ends-bind _ _ _ (entry_for pid given (h (pid_slot pid (pid a)))) _
          (entry_for-IsOpen h (pid_slot pid (pid a)) shown.0 given _ refl) (insert_set none_yet)

    delete_set :
        (e : PidHash A)
        → IsCopy h (pid_slot pid (pid a)) e
        → IsShown (removed m (pid a)) (
            set_entry h (pid_slot pid (pid a)) (record e { tasks = drop_task pid e.tasks (pid a) }))
    delete_set e c = (
      IsTable-set h _ _ shown.0 (record {
        home = All-drop pid _ e.tasks (pid a) c.entry.home;
        distinct = IsDistinct-drop pid e.tasks (pid a) c.entry.distinct;
        room = omega (arith, length-drop pid e.tasks (pid a), c.entry.room);
      }),
      λ k. elim (Bool-cases (pid_slot pid (pid a) == pid_slot pid k)) [
        | inl q ↦
            pid2task-here h _ _ k q
            ∙ find-drop pid e.tasks (pid a) k c.entry.distinct
            ∙ ap (λ o. if pid a == k then none else o) (c.same k ((==_iff _ _).0 q) ∙ shown.1 k)
        | inr q ↦
            pid2task-there h _ _ k q
            ∙ shown.1 k
            ∙ ap (λ b. if b then none else m k) (sym (other_pid (pid a) k q))
      ],
    )

    delete_pid-IsShown :
        (b : A) → m (pid a) ≡ some b → Ends ⊥ (IsShown (removed m (pid a))) (delete_pid pid h a)
    unfolding delete_pid pid2task
    delete_pid-IsShown b here = by_entry (h (pid_slot pid (pid a))) refl
      where
        by_entry :
            (o : Option (PidHash A))
            → h (pid_slot pid (pid a)) ≡ o
            → Ends ⊥ (IsShown (removed m (pid a))) (elim o [
              | none ↦ fault
              | some e ↦ ok (
                  set_entry h
                    (pid_slot pid (pid a))
                    (record e { tasks = drop_task pid e.tasks (pid a) }))
            ])
        by_entry none q =
            absurd (let r = ap (in_entry pid (pid a)) q in let t = shown.1 (pid a) in cc)
        by_entry (some e) q = delete_set e (IsCopy-of h _ e q shown.0)

  -- A sequence of calls: a new task with the allocator's answer, and a task that goes.
  pub data Op : Type 0 where
    insert : Bool → A → Op
    delete : A → Op

  unfoldable pub run : PidTable A → List Op → Outcome (PidTable A)
  run h [] = ok h
  run h (insert given a ∷ ops) = insert_pid pid given h a >>= λ g. run g ops
  run h (delete a ∷ ops) = delete_pid pid h a >>= λ g. run g ops

  -- The specification runs where each new pid is not in the map and each that goes is.
  abbrev pub Specified : TaskMap → List Op → TaskMap → Type 0
  Specified m [] n = (k : ℕ) → m k ≡ n k
  Specified m (insert given a ∷ ops) n = (m (pid a) ≡ none) × Specified (added m a) ops n
  Specified m (delete a ∷ ops) n = (m (pid a) ≡ some a) × Specified (removed m (pid a)) ops n

  abbrev pub Refused : List Op → Type 0
  Refused [] = ⊥
  Refused (insert given a ∷ ops) = (given ≡ false) ⊎ Refused ops
  Refused (delete a ∷ ops) = Refused ops

  run-IsShown :
      (ops : List Op) (h : PidTable A) (m n : TaskMap)
      → IsShown m h
      → Specified m ops n
      → Ends (Refused ops) (IsShown n) (run h ops)
  unfolding run
  run-IsShown [] h m n s e = (s.0, λ k. s.1 k ∙ e k)
  run-IsShown (insert given a ∷ ops) h m n s e =
      Ends-bind _ (IsShown (added m a)) _ (insert_pid pid given h a) _
        (Ends-why _ _ _ (insert_pid pid given h a) inl (insert_pid-IsShown h m s a given e.0))
        (λ g shown. Ends-why _ _ _ (run g ops) inr (run-IsShown ops g (added m a) n shown e.1))
  run-IsShown (delete a ∷ ops) h m n s e =
      Ends-bind _ (IsShown (removed m (pid a))) _ (delete_pid pid h a) _
        (Ends-why _ _ _ (delete_pid pid h a) (λ f. absurd f) (delete_pid-IsShown h m s a a e.0))
        (λ g shown. run-IsShown ops g (removed m (pid a)) n shown e.1)

  empty_table-IsShown : IsShown no_tasks empty_table
  unfolding pid2task
  empty_table-IsShown = ((λ i. tt), (λ k. refl))

  -- The hash of tasks refines a finite map: after any sequence of insertions and removals that the map
  -- allows, starting from the empty hash, pid2task finds for every pid what the map has, no call follows
  -- a missing entry, and the run stops only where the allocator refused memory to an insertion.
  pub run-refines :
      (ops : List Op) (n : TaskMap)
      → Specified no_tasks ops n
      → Ends (Refused ops) (λ h. (k : ℕ) → pid2task pid h k ≡ n k) (run empty_table ops)
  run-refines ops n e =
      Ends-map _ (IsShown n) _ (run empty_table ops)
        (run-IsShown ops empty_table no_tasks n empty_table-IsShown e) (λ h s. s.1)
