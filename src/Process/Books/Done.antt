-- ===== src/Process/Books/Done.antt =====
-- client/process.c: `process_realloc_done` keeps the books sound.
use mtrace.Base.{
  ℕ, ◌+◌, ◌≤◌, ◌≡◌, refl, inl, inr, ◌==◌, Bool, true, false, not, ◌&&◌, Option, none, some, List,
  [], ◌∷◌, arith, total, total-cons, All, All-map, Bool-cases, Option-cases, ok, Ends, Ends-bind,
  Ends-map,
}
use mtrace.Base.Word.{sub64, low32}
use mtrace.Process.State.{RbStack, ReallocEntry, Process, Env, update}
use mtrace.Process.Handlers.{AllocPayload, alloc_payload}
use mtrace.Process.Realloc.{and_skip, realloc_find, realloc_del, realloc_undo, process_realloc_done}
use mtrace.Process.Books.{
  blocks, stack_ids, is, on, entry_on, refs, StackOk, IsKnown, OptionKnown, EntryKnown, Inv, Fits,
  HasRoom, Grown,
}
use mtrace.Process.Books.Refs.{is_self, refcnt_live}
use mtrace.Process.Books.Steps.{stack_of-runs, stack_put-runs}
use mtrace.Process.Books.Moved.{Moved, SameElsewhere, moved_nodes, moved-IsKnown, moved_option}
use mtrace.Process.Books.Insert.{More, insert-More}

-- `re` stands in the first list, and the second is the first without it.
pub record Removed (re : ReallocEntry) (res rest : List ReallocEntry) : Type 1 where
  pub totals : (f : ReallocEntry → ℕ) → total f res ≡ total f rest + f re
  pub here : (P : ReallocEntry → Type 0) → All P res → P re
  pub others : (P : ReallocEntry → Type 0) → All P res → All P rest

abbrev Finds : List ReallocEntry → Option (ReallocEntry × List ReallocEntry) → Type 1
Finds res none = Unit
Finds res (some (re, rest)) = Removed re res rest

skip-Finds :
    (x : ReallocEntry) (res : List ReallocEntry) (o : Option (ReallocEntry × List ReallocEntry))
    → Finds res o
    → Finds (x ∷ res) (and_skip x o)
skip-Finds x res none h = tt
skip-Finds x res (some (re, rest)) h = record {
  totals = λ f. omega (arith, total-cons f x res, total-cons f x rest, h.totals f);
  here = λ P a. h.here P a.1;
  others = λ P a. (a.0, h.others P a.1);
}

realloc_find-Finds : (pid : ℕ) (res : List ReallocEntry) → Finds res (realloc_find pid res)
unfolding realloc_find
realloc_find-Finds pid [] = tt
realloc_find-Finds pid (x ∷ res) = elim (Bool-cases (x.pid == pid)) [
  | inl e ↦
      rw (e, Finds)
        (record {
          totals = λ f. omega (arith, total-cons f x res);
          here = λ P a. a.0;
          others = λ P a. a.1;
        })
  | inr e ↦ rw (e, Finds) (skip-Finds x res (realloc_find pid res) (realloc_find-Finds pid res))
]

module _ (v : Env) (p : Process) (re : ReallocEntry) (rest : List ReallocEntry) (inv : Inv v p)
    (fits : Fits p) (removed : Removed re p.realloc_list rest) where
  module _ (i : ℕ) (s : RbStack) (e : p.rb_stacks i ≡ some s) (of_i : re.stack_node ≡ some i) where
    abbrev node_ok : StackOk p i s
    node_ok = inv.nodes i s e

    abbrev without_entry : Process
    without_entry = record p {
      rb_stacks = update p.rb_stacks i (some (record s { refcnt = sub64 s.refcnt 1 }));
      stacks =
          update p.stacks i
            (some (record (node_ok.stack) { refcnt = sub64 node_ok.stack.refcnt 1 }));
      realloc_list = rest;
    }

    without_Moved :
        Moved p without_entry i
          (record s { refcnt = sub64 s.refcnt 1 })
          (record (node_ok.stack) { refcnt = sub64 node_ok.stack.refcnt 1 })
    without_Moved = record { rb_stacks = λ j. refl; stacks = λ j. refl }

    entry_on-is : (j : ℕ) → entry_on j re ≡ is j i
    entry_on-is j = rw of_i

    without_elsewhere : SameElsewhere p without_entry i
    without_elsewhere = record {
      ids = λ j h. refl;
      counts = λ j h. refl;
      entries = λ j h. ground (arith, removed.totals (entry_on j), entry_on-is j);
    }

    two_refs : 2 ≤ refs p i
    two_refs = omega (arith, removed.totals (entry_on i), entry_on-is i, is_self i, node_ok.listed)

    without-Inv : Inv v without_entry
    without-Inv = record {
      memory = inv.memory;
      blocks_balanced = inv.blocks_balanced;
      stacks_balanced = inv.stacks_balanced;
      counted = inv.counted;
      trees = inv.trees;
      nodes =
          moved_nodes without_Moved without_elsewhere node_ok.home
            (omega (arith, node_ok.same_refcnt)) node_ok.listed node_ok.counted
            (omega (arith, node_ok.referred, removed.totals (entry_on i), entry_on-is i, is_self i))
            inv.nodes;
      blocks_known =
          All-map (λ b h. moved-IsKnown without_Moved b.stack_node h) (blocks p) inv.blocks_known;
      entries_known =
          All-map (λ x h. moved_option without_Moved x.addr x.stack_node h) rest
            (removed.others (EntryKnown p) inv.entries_known);
      ids_known = All-map (moved-IsKnown without_Moved) (stack_ids p) inv.ids_known;
      unused = λ j h. ground (arith, inv.unused j h, e);
    }

    del_some-Grown : (R : Type 0) → Ends R (Grown v 0 p) (realloc_del re rest p)
    unfolding realloc_del
    del_some-Grown R =
        let live = refcnt_live p i s node_ok fits two_refs in
        rw (of_i, Ends)
          (rw
            (stack_put-runs i p s node_ok.stack e node_ok.home node_ok.stored live
              (rw node_ok.same_refcnt live))
            (record { inv = without-Inv; grows = omega (arith, removed.totals (λ x. 1)) }))

  module _ (no_stack : re.stack_node ≡ none) where
    entry_on-none : (j : ℕ) → entry_on j re ≡ 0
    entry_on-none j = rw no_stack

    abbrev shorter : Process
    shorter = record p { realloc_list = rest }

    shorter_stack : (i : ℕ) (s : RbStack) → StackOk p i s → StackOk shorter i s
    shorter_stack i s k = record {
      home = k.home;
      stack = k.stack;
      stored = k.stored;
      same_refcnt = k.same_refcnt;
      listed = k.listed;
      counted = k.counted;
      referred = omega (arith, k.referred, removed.totals (entry_on i), entry_on-none i);
    }

    shorter-Inv : Inv v shorter
    shorter-Inv = record {
      memory = inv.memory;
      blocks_balanced = inv.blocks_balanced;
      stacks_balanced = inv.stacks_balanced;
      counted = inv.counted;
      trees = inv.trees;
      nodes = λ i s e. shorter_stack i s (inv.nodes i s e);
      blocks_known = inv.blocks_known;
      entries_known = removed.others (EntryKnown shorter) inv.entries_known;
      ids_known = inv.ids_known;
      unused = inv.unused;
    }

    del_none-Grown : (R : Type 0) → Ends R (Grown v 0 p) (realloc_del re rest p)
    unfolding realloc_del
    del_none-Grown R =
        rw (no_stack, Ends)
          (record { inv = shorter-Inv; grows = omega (arith, removed.totals (λ x. 1)) })

  -- `realloc_del` takes the entry out, and the books stay right.
  pub realloc_del-Grown : (R : Type 0) → Ends R (Grown v 0 p) (realloc_del re rest p)
  realloc_del-Grown R = elim (Option-cases re.stack_node) [
    | inl no_stack ↦ del_none-Grown no_stack R
    | inr (i, of_i) ↦
        let known = rw (of_i, OptionKnown) at (removed.here (EntryKnown p) inv.entries_known) in
        del_some-Grown i known.0 known.1 of_i R
  ]

abbrev Undone : Env → Process → Process → Type 0
Undone v p q = Grown v 1 p q × Fits q × (q.realloc_list ≡ p.realloc_list)

undo-Undone :
    (v : Env) (p : Process) (re : ReallocEntry) (i : ℕ)
    → Inv v p
    → HasRoom p
    → re.stack_node ≡ some i
    → IsKnown p i
    → Ends (v.kill ≡ true) (Undone v p) (realloc_undo v re p)
unfolding realloc_undo
undo-Undone v p re i inv room of_i known =
    let n = inv.nodes i known.0 known.1 in
    rw (of_i, Ends)
      (rw (stack_of-runs i p known.0 n.stack known.1 n.home n.stored) (
        Ends-bind (v.kill ≡ true) (λ r. (r.0 ≡ true) × More v p r.1) (Undone v p) _ _
          (insert-More v re.addr re.size i re.flags p inv known)
          λ (done, q) (_, m). (
            record { inv = m.inv; grows = rw (m.ids, m.entries) (omega (arith, m.more)) },
            rw (m.ids, m.entries) (omega (arith, m.more)),
            m.entries,
          )))

-- A block comes back only from an entry that has a call stack.
undo_if :
    (v : Env) (p : Process) (re : ReallocEntry) (test : Bool)
    → Inv v p
    → HasRoom p
    → EntryKnown p re
    → (test ≡ true → (re.addr == 0) ≡ false)
    → Ends (v.kill ≡ true) (Undone v p) (elim test [ true ↦ realloc_undo v re p | false ↦ ok p ])
undo_if v p re false inv room known h =
    (record { inv = inv; grows = omega arith }, omega arith, refl)
undo_if v p re true inv room known h = elim (Option-cases re.stack_node) [
  | inl no_stack ↦
      let zero_addr : re.addr ≡ 0 = rw (no_stack, OptionKnown) at known in
      absurd (ground (arith, h refl))
  | inr (i, of_i) ↦ undo-Undone v p re i inv room of_i (rw (of_i, OptionKnown) at known)
]

-- A well-formed message that ends a reallocation, on sound books with room for their counters, is
-- handled whatever entries are pending. The books are sound again, that is in their pointers,
-- `n_allocations` of the process and its call stacks, `stack_trees` and reference counts, but not in sizes,
-- `total_allocations` and leaks; and they hold at most one reference more. The process stops only under the option for the first error.
pub process_realloc_done-Grown :
    (v : Env) (bytes : List ℕ) (p : Process) (m : AllocPayload)
    → Inv v p
    → HasRoom p
    → alloc_payload p.format bytes ≡ ok m
    → Ends (v.kill ≡ true) (Grown v 1 p) (process_realloc_done v bytes p)
unfolding process_realloc_done
process_realloc_done-Grown v bytes p m inv room decoded = elim (Bool-cases p.tracing) [
  | inr off ↦ rw (off, Ends) (record { inv = inv; grows = omega arith })
  | inl on ↦
      rw (on, Ends)
        (rw (decoded, Ends)
          (elim (Option-cases (realloc_find (low32 m.size) p.realloc_list)) [
            | inl unexpected ↦
                rw (unexpected, Ends)
                  (elim (Bool-cases v.kill) [
                    | inl kill ↦ rw (kill, Ends) kill
                    | inr live ↦ rw (live, Ends) (record { inv = inv; grows = omega arith })
                  ])
            | inr ((re, rest), hit) ↦
                let removed : Removed re p.realloc_list rest =
                  rw (hit, Finds) at (realloc_find-Finds (low32 m.size) p.realloc_list) in
                rw (hit, Ends)
                  (Ends-bind (v.kill ≡ true) (Undone v p) (Grown v 1 p) _ _
                    (undo_if v p re (m.ptr == 0 && not (re.addr == 0)) inv room
                      (removed.here (EntryKnown p) inv.entries_known) (λ h. ground arith))
                    λ q (g, fits_q, same).
                      Ends-map (v.kill ≡ true) (Grown v 0 q) (Grown v 1 p) _
                        (realloc_del-Grown v q re rest g.inv fits_q (rw same removed)
                          (v.kill ≡ true))
                        λ r h. record { inv = h.inv; grows = omega (arith, g.grows, h.grows) })
          ]))
]
