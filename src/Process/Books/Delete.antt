-- ===== src/Process/Books/Delete.antt =====
-- client/process.c: what `process_rb_delete_block` does to the books.

use mtrace.Base.{
  ℕ, ◌+◌, ◌≤◌, ◌≡◌, refl, ap, sym, ◌∙◌, inl, inr, ◌==◌, if◌then◌else◌, false, some, List, ◌∷◌, ◌++◌,
  arith, total, total-middle, All-map, All-remove, Bool-cases, ok, Ends,
}
use mtrace.Base.Word.{sub64, low32}
use mtrace.Rbtree.{Trail, get, before, behind}
use mtrace.Rbtree.Paths.{inorder-get}
use mtrace.Process.State.{RbBlock, Stack, RbStack, Process, Env, update}
use mtrace.Process.Stacks.{stack_put}
use mtrace.Process.Blocks.{process_rb_delete_block}
use mtrace.Process.Books.{blocks, stack_ids, one, on, refs, StackOk, IsKnown, Inv, Fits}
use mtrace.Process.Books.Refs.{is_self, refcnt_live}
use mtrace.Process.Books.Steps.{
  update_self, update-update, with_rb_stack, used_less, unleak_stack, released, release_mem-runs,
  modify-runs, stack_put-runs,
}
use mtrace.Message.{MtOperation}
use mtrace.Process.Resolv.{IsMapped}
use mtrace.Process.Books.Add.{Conflict}
use mtrace.Process.Books.Moved.{Moved, SameElsewhere, moved_nodes, moved-IsKnown, moved_option}

-- The books without the block: its call stack, and the process.
abbrev pub less_one : RbStack → RbStack
less_one s = record s { n_allocations = sub64 s.n_allocations 1 }

abbrev pub stack_without : RbBlock → RbStack → RbStack
stack_without b s = record (less_one (used_less b.size (unleak_stack b s))) {
  refcnt = sub64 s.refcnt 1;
}

abbrev pub deleted : Env → Trail → RbBlock → RbStack → Stack → Process → Process
deleted v t b s k p = record p {
  block_table = v.block_ops.rb_erase p.block_table t;
  rb_stacks = update p.rb_stacks b.stack_node (some (stack_without b s));
  stacks = update p.stacks b.stack_node (some (record k { refcnt = sub64 k.refcnt 1 }));
  n_allocations = sub64 p.n_allocations 1;
  bytes_used = sub64 p.bytes_used (low32 b.size);
  leaks = if b.flags.leaked then sub64 p.leaks 1 else p.leaks;
  leaked_bytes = if b.flags.leaked then sub64 p.leaked_bytes b.size else p.leaked_bytes;
}

module _ (v : Env) (t : Trail) (b : RbBlock) (p : Process) (s : RbStack) (k : Stack)
    (e : p.rb_stacks b.stack_node ≡ some s) (home : s.stack ≡ b.stack_node)
    (f : p.stacks b.stack_node ≡ some k) where
  abbrev erased : Process
  erased = record p { block_table = v.block_ops.rb_erase p.block_table t }

  abbrev freed : Process
  freed = released b b.size s erased

  abbrev uncounted : Process
  uncounted =
      with_rb_stack b.stack_node (less_one (used_less b.size (unleak_stack b s)))
        (record freed { n_allocations = sub64 p.n_allocations 1 })

  uncounted_put :
      (sub64 s.refcnt 1 == 0) ≡ false
      → (sub64 k.refcnt 1 == 0) ≡ false
      → stack_put b.stack_node uncounted ≡ ok (deleted v t b s k p)
  uncounted_put live live' =
      rw
        (stack_put-runs b.stack_node uncounted (less_one (used_less b.size (unleak_stack b s))) k
          (update_self freed.rb_stacks b.stack_node _) home f live live')
        (simp update-update)

  pub delete-runs :
      (sub64 s.refcnt 1 == 0) ≡ false
      → (sub64 k.refcnt 1 == 0) ≡ false
      → process_rb_delete_block v t b p ≡ ok (deleted v t b s k p)
  unfolding process_rb_delete_block
  delete-runs live live' = rw (release_mem-runs b b.size erased s e) (
      rw
        (modify-runs b.stack_node less_one
          (record freed { n_allocations = sub64 p.n_allocations 1 })
          (used_less b.size (unleak_stack b s)) (update_self p.rb_stacks b.stack_node _))
        (uncounted_put live live'))

-- The books are sound, and hold one block less.
pub record Fewer (v : Env) (p q : Process) : Type 0 where
  pub inv : Inv v q
  pub fewer : total one (blocks q) + 1 ≡ total one (blocks p)
  pub ids : stack_ids q ≡ stack_ids p
  pub entries : q.realloc_list ≡ p.realloc_list
  pub known : (i : ℕ) → IsKnown p i → IsKnown q i
  pub conflicts : (addrs : List ℕ) (op : MtOperation) → Conflict q addrs op → Conflict p addrs op
  pub mapped : (addrs : List ℕ) → IsMapped p addrs → IsMapped q addrs

module _ (v : Env) (t : Trail) (b : RbBlock) (p : Process) (s : RbStack) (inv : Inv v p)
    (room : Fits p) (at : get p.block_table t ≡ some b)
    (e : p.rb_stacks b.stack_node ≡ some s) where
  abbrev node_ok : StackOk p b.stack_node s
  node_ok = inv.nodes b.stack_node s e

  abbrev without : Process
  without = deleted v t b s node_ok.stack p

  blocks_with : blocks p ≡ before p.block_table t ++ b ∷ behind p.block_table t
  blocks_with = inorder-get p.block_table t b at

  blocks-without : blocks without ≡ before p.block_table t ++ behind p.block_table t
  blocks-without = v.block_ops.erase-inorder p.block_table t b inv.blocks_balanced at

  pub total_deleted : (f : RbBlock → ℕ) → total f (blocks p) ≡ total f (blocks without) + f b
  total_deleted f =
      rw (blocks_with, blocks-without)
        (total-middle f (before p.block_table t) b (behind p.block_table t))

  deleted_Moved :
      Moved p without b.stack_node
        (stack_without b s)
        (record (node_ok.stack) { refcnt = sub64 node_ok.stack.refcnt 1 })
  deleted_Moved = record { rb_stacks = λ j. refl; stacks = λ j. refl }

  pub two_refs : 2 ≤ refs p b.stack_node
  two_refs = omega (arith, total_deleted (on b.stack_node), is_self b.stack_node, node_ok.listed)

  deleted_elsewhere : SameElsewhere p without b.stack_node
  deleted_elsewhere = record {
    ids = λ j h. refl;
    counts = λ j h. ground (arith, total_deleted (on j));
    entries = λ j h. refl;
  }

  pub deleted-Inv : Inv v without
  deleted-Inv = record {
    memory = inv.memory;
    blocks_balanced = v.block_ops.erase-IsBalanced p.block_table t b inv.blocks_balanced at;
    stacks_balanced = inv.stacks_balanced;
    counted = omega (arith, inv.counted, total_deleted one);
    trees = inv.trees;
    nodes =
        moved_nodes deleted_Moved deleted_elsewhere node_ok.home
          (omega (arith, node_ok.same_refcnt)) node_ok.listed
          (omega (arith, node_ok.counted, total_deleted (on b.stack_node), is_self b.stack_node))
          (omega (arith, node_ok.referred, total_deleted (on b.stack_node), is_self b.stack_node))
          inv.nodes;
    blocks_known = rw blocks-without (
        All-map (λ x h. moved-IsKnown deleted_Moved x.stack_node h) _
          (All-remove _ (before p.block_table t) b (behind p.block_table t)
            (rw blocks_with at inv.blocks_known)));
    entries_known =
        All-map (λ re h. moved_option deleted_Moved re.addr re.stack_node h) p.realloc_list
          inv.entries_known;
    ids_known = All-map (λ j h. moved-IsKnown deleted_Moved j h) (stack_ids p) inv.ids_known;
    unused = λ j h. ground (arith, inv.unused j h, e);
  }

  deleted_Conflict :
      (addrs : List ℕ) (op : MtOperation) → Conflict without addrs op → Conflict p addrs op
  deleted_Conflict addrs op c = elim (Bool-cases (b.stack_node == c.id)) [
    | inl here ↦
        let k_eq : record (node_ok.stack) { refcnt = sub64 node_ok.stack.refcnt 1 } ≡ c.stack =
          cc (rw here at c.stored) in
        record {
          id = b.stack_node;
          rb_stack = s;
          stack = node_ok.stack;
          known = e;
          stored = node_ok.stored;
          same_addrs = c.same_addrs ∙ ap (λ (k : Stack). k.addrs) (sym k_eq);
          other_op = λ o. c.other_op (ap (λ (k : Stack). k.operation) (sym k_eq) ∙ o);
        }
    | inr there ↦ record {
      id = c.id;
      rb_stack = c.rb_stack;
      stack = c.stack;
      known = rw there at c.known;
      stored = rw there at c.stored;
      same_addrs = c.same_addrs;
      other_op = c.other_op;
    }
  ]

  -- With room for its counters `process_rb_delete_block` returns, and the books stay right.
  pub delete-Fewer : (R : Type 0) → Ends R (Fewer v p) (process_rb_delete_block v t b p)
  delete-Fewer R =
      rw
        (delete-runs v t b p s node_ok.stack e node_ok.home node_ok.stored
          (refcnt_live p b.stack_node s node_ok room two_refs)
          (rw node_ok.same_refcnt (refcnt_live p b.stack_node s node_ok room two_refs)))
        (record {
          inv = deleted-Inv;
          fewer = omega (arith, total_deleted one);
          ids = refl;
          entries = refl;
          known = moved-IsKnown deleted_Moved;
          conflicts = deleted_Conflict;
          mapped = λ addrs h. h;
        })
