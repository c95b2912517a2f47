-- ===== src/Process/Books/Reset.antt =====
-- client/process.c: `process_reset_allocations` leaves empty books, and its count of allocations is 0.
mod Chain
mod Blocks
use mtrace.Base.{
  ℕ, ◌≤◌, ◌≡◌, refl, sym, ap, ◌∙◌, inl, inr, ◌==◌, true, some, List, [], ◌∷◌, ◌++◌, arith, total,
  total-nil, total-cons, total-append, All, All-append, All-left, All-right, Option-cases, Outcome,
  ok, >>=-eq-ok, Ends, Ends-bind, Ends-map, Ends-with,
}
use mtrace.Base.Word.{sub64}
use mtrace.Rbtree.{Tree, leaf, node, black, get, inorder}
use mtrace.Rbtree.Plain.{plain, cut}
use mtrace.Process.State.{RbBlock, RbStack, ReallocEntry, Process, Env}
use mtrace.Process.Stacks.{stack_put}
use mtrace.Process.Realloc.{realloc_del}
use mtrace.Process.Reset.{
  postorder, one_less, reset_block, reset_blocks, reset_entries, process_reset_allocations,
}
use mtrace.Process.Books.{blocks, one, is, on, refs, StackOk, IsKnown, Inv, Fits, Grown}
use mtrace.Process.Books.Steps.{
  with_rb_stack, with_both, modify-runs, stack_put-runs, update_self, update-update,
}
use mtrace.Process.Books.Same.{same-Inv, touched-Inv}
use mtrace.Process.Books.Refs.{is_self, refcnt_live}
use mtrace.Process.Books.Done.{Removed, realloc_del-Grown}
use mtrace.Process.Books.Delete.{deleted, stack_without, deleted-Inv}
use mtrace.Process.Books.Reset.Chain.{
  SameBlocks, moved-Inv, postorder-SameBlocks, chain, inorder-chain,
}
use mtrace.Process.Books.Reset.Blocks.{loose, left_with, reset_blocks-Inv}

-- The parts of a result.
table_of : Outcome Process → Tree RbBlock
table_of (ok p) = p.block_table
table_of _ = leaf

entries_of : Outcome Process → List ReallocEntry
entries_of (ok p) = p.realloc_list
entries_of _ = []

stack_put-table : (i : ℕ) (p q : Process) → stack_put i p ≡ ok q → p.block_table ≡ q.block_table
unfolding stack_put table_of
stack_put-table i p q h = elim (Option-cases (p.rb_stacks i)) [
  | inl unknown ↦ cc (rw (unknown, stack_put) at h)
  | inr (s, is) ↦ elim (Option-cases (p.stacks s.stack)) [
    | inl dead ↦ cc (rw (is, dead, stack_put) at h)
    | inr (k, stored) ↦ ap table_of (rw (is, stored, stack_put) at h)
  ]
]

realloc_del-tables :
    (re : ReallocEntry) (rest : List ReallocEntry) (p q : Process)
    → realloc_del re rest p ≡ ok q
    → (q.realloc_list ≡ rest) × (p.block_table ≡ q.block_table)
unfolding realloc_del table_of entries_of
realloc_del-tables re rest p q h = elim (Option-cases re.stack_node) [
  | inl no_stack ↦ let e = rw (no_stack, realloc_del) at h in (sym (ap entries_of e), ap table_of e)
  | inr (i, of_i) ↦
      let (r, put_is, e) = >>=-eq-ok q (stack_put i p) _ (rw (of_i, realloc_del) at h) in
      (sym (ap entries_of e), stack_put-table i p r put_is ∙ ap table_of e)
]

head_Removed : (re : ReallocEntry) (rest : List ReallocEntry) → Removed re (re ∷ rest) rest
head_Removed re rest = record {
  totals = λ f. omega (arith, total-cons f re rest);
  here = λ P h. h.0;
  others = λ P h. h.1;
}

module _ (v : Env) where
  abbrev NoEntries : Process → Process → Type 0
  NoEntries p q = Inv v q × (q.realloc_list ≡ []) × (p.block_table ≡ q.block_table)

  -- The loop over the reallocations drops their references.
  reset_entries-NoEntries :
      (rest : List ReallocEntry) (p : Process)
      → Inv v p
      → Fits p
      → p.realloc_list ≡ rest
      → Ends ⊥ (NoEntries p) (reset_entries rest p)
  unfolding reset_entries
  reset_entries-NoEntries [] p inv room is = (inv, is, refl)
  reset_entries-NoEntries (re ∷ rest) p inv room is =
      Ends-bind ⊥ (λ q. Grown v 0 p q × (q.realloc_list ≡ rest) × (p.block_table ≡ q.block_table))
        (NoEntries p) (realloc_del re rest p) _
        (Ends-with ⊥ (Grown v 0 p) _ (realloc_del re rest p)
          (realloc_del-Grown v p re rest inv room (rw is (head_Removed re rest)) ⊥)
          λ q runs g. let t = realloc_del-tables re rest p q runs in (g, t.0, t.1))
        λ q (g, entries, table).
          Ends-map ⊥ (NoEntries q) (NoEntries p) (reset_entries rest q)
            (reset_entries-NoEntries rest q g.inv (omega (arith, g.grows)) entries)
            λ r h. (h.0, h.1, table ∙ h.2)

  -- The books of a process without allocations.
  pub record Emptied (q : Process) : Type 0 where
    pub inv : Inv v q
    pub no_blocks : q.block_table ≡ leaf
    pub no_entries : q.realloc_list ≡ []
    pub n_allocations : q.n_allocations ≡ 0
    pub bytes_used : q.bytes_used ≡ 0
    pub leaks : q.leaks ≡ 0
    pub leaked_bytes : q.leaked_bytes ≡ 0
    pub of_stacks : (i : ℕ) (s : RbStack) → q.rb_stacks i ≡ some s → s.n_allocations ≡ 0

  -- On sound books that fit into their counters, the reset finds a count of 0 once all blocks are booked
  -- out, so that it does not stop. It leaves sound books without blocks and reallocations, with
  -- the counters of the process at 0, and `n_allocations` of each call stack at 0.
  pub process_reset_allocations-Emptied :
      (p : Process) → Inv v p → Fits p → Ends ⊥ Emptied (process_reset_allocations p)
  unfolding process_reset_allocations cut
  process_reset_allocations-Emptied p inv room =
      Ends-bind ⊥ (λ q. Inv (loose v) (left_with [] q) × Fits (left_with [] q)) Emptied
        (reset_blocks (postorder p.block_table) p) _
        (reset_blocks-Inv v (postorder p.block_table) p start
          (omega (arith, room, same.totals one)))
        λ q (i, fits).
          let none_left : (q.n_allocations == 0) ≡ true =
            ground (arith, i.counted, total-nil {A = RbBlock} one) in
          rw (none_left, Ends)
            (Ends-bind ⊥ (NoEntries (cleared q)) Emptied (reset_entries q.realloc_list (cleared q))
              _
              (reset_entries-NoEntries q.realloc_list (cleared q)
                (moved-Inv (loose v) v refl (left_with [] q) leaf
                  (record { totals = λ f. refl; all = λ P h. h }) v.block_ops.leaf-IsBalanced i)
                fits refl)
              λ r h. emptied r h.0 h.1 h.2)
    where
      cleared : Process → Process
      cleared q = record q { block_table = leaf }

      same : SameBlocks (blocks p) (inorder (chain (postorder p.block_table)))
      same = rw (inorder-chain (postorder p.block_table)) (postorder-SameBlocks p.block_table)

      start : Inv (loose v) (left_with (postorder p.block_table) p)
      start = moved-Inv v (loose v) refl p (chain (postorder p.block_table)) same tt inv

      emptied :
          (r : Process)
          → Inv v r
          → r.realloc_list ≡ []
          → leaf ≡ r.block_table
          → Emptied (record r {
            total_allocations = 0;
            bytes_used = 0;
            leaks = 0;
            leaked_bytes = 0;
            tsc = 0;
          })
      emptied r inv_r entries table = record {
        inv =
            same-Inv v
              (record {
                rb_stacks = refl;
                stacks = refl;
                block_table = refl;
                stack_table = refl;
                realloc_list = refl;
                n_allocations = refl;
                stack_trees = refl;
                fresh = refl;
              })
              inv_r.memory inv_r;
        no_blocks = sym table;
        no_entries = entries;
        n_allocations = omega (
          arith,
          inv_r.counted,
          ap (λ t. total one (inorder t)) table,
          total-nil {A = RbBlock} one,
        );
        bytes_used = refl;
        leaks = refl;
        leaked_bytes = refl;
        of_stacks = λ i s e. omega (
          arith,
          (inv_r.nodes i s e).counted,
          ap (λ t. total (on i) (inorder t)) table,
          total-nil (on i),
        );
      }
