-- ===== src/Process/Books/Insert.antt =====
-- client/process.c: what `process_rb_insert_block` does to the books.
use mtrace.Base.{
  ℕ, ◌+◌, ◌≡◌, refl, true, some, ◌∷◌, ◌++◌, arith, total, total-middle, All-map, All-insert, ok,
  Ends, Ends-bind,
}
use mtrace.Base.Word.{add64}
use mtrace.Rbtree.{Trail, IsSlot, before, behind, rb_link_node}
use mtrace.Rbtree.Paths.{inorder-slot}
use mtrace.Process.State.{Flags, RbBlock, Stack, RbStack, Process, Env, update, answers}
use mtrace.Process.Blocks.{at_least_one, block_place, block_new, process_rb_insert_block}
use mtrace.Process.Search.{IsPlace, block_place-IsPlace}
use mtrace.Process.Books.{blocks, stack_ids, one, on, StackOk, IsKnown, Inv}
use mtrace.Process.Books.Refs.{is_self}
use mtrace.Process.Books.Steps.{
  update_self, update-update, with_rb_stack, modify-runs, stack_get-runs,
}
use mtrace.Process.Books.Moved.{Moved, SameElsewhere, moved_nodes, moved-IsKnown, moved_option}
use mtrace.Process.Books.Same.{same-Inv, answer-true, answers-true}

abbrev pub one_more : ℕ → RbStack → RbStack
one_more size s = record s {
  n_allocations = add64 s.n_allocations 1;
  total_allocations = add64 s.total_allocations 1;
  bytes_used = add64 s.bytes_used size;
}

abbrev pub stack_with : ℕ → RbStack → RbStack
stack_with size s = record (one_more size s) { refcnt = add64 s.refcnt 1 }

abbrev pub inserted : Env → Trail → RbBlock → RbStack → Stack → Process → Process
inserted v t b s k p = record p {
  block_table = v.block_ops.rb_insert_color (rb_link_node p.block_table t b) t;
  rb_stacks = update p.rb_stacks b.stack_node (some (stack_with b.size s));
  stacks = update p.stacks b.stack_node (some (record k { refcnt = add64 k.refcnt 1 }));
  n_allocations = add64 p.n_allocations 1;
}

pub new-runs :
    (v : Env) (t : Trail) (b : RbBlock) (p : Process) (s : RbStack) (k : Stack)
    → p.rb_stacks b.stack_node ≡ some s
    → s.stack ≡ b.stack_node
    → p.stacks b.stack_node ≡ some k
    → block_new v t b p ≡ ok (inserted v t b s k p)
unfolding block_new
new-runs v t b p s k e home f = rw (modify-runs b.stack_node (one_more b.size) p s e) (
    rw
      (stack_get-runs b.stack_node (with_rb_stack b.stack_node (one_more b.size s) p)
        (one_more b.size s) k (update_self p.rb_stacks b.stack_node _) home f)
      (simp update-update))

-- The books are sound, and hold one block more.
pub record More (v : Env) (p q : Process) : Type 0 where
  pub inv : Inv v q
  pub more : total one (blocks q) ≡ total one (blocks p) + 1
  pub ids : stack_ids q ≡ stack_ids p
  pub entries : q.realloc_list ≡ p.realloc_list
  pub known : (i : ℕ) → IsKnown p i → IsKnown q i

module _ (v : Env) (t : Trail) (b : RbBlock) (p : Process) (s : RbStack) (inv : Inv v p)
    (slot : IsSlot p.block_table t) (e : p.rb_stacks b.stack_node ≡ some s) where
  abbrev node_ok : StackOk p b.stack_node s
  node_ok = inv.nodes b.stack_node s e

  abbrev with_block : Process
  with_block = inserted v t b s node_ok.stack p

  blocks-before : blocks p ≡ before p.block_table t ++ behind p.block_table t
  blocks-before = inorder-slot p.block_table t slot

  blocks_after : blocks with_block ≡ before p.block_table t ++ b ∷ behind p.block_table t
  blocks_after = v.block_ops.insert-inorder p.block_table t b inv.blocks_balanced slot

  total_inserted : (f : RbBlock → ℕ) → total f (blocks with_block) ≡ total f (blocks p) + f b
  total_inserted f =
      rw (blocks-before, blocks_after)
        (total-middle f (before p.block_table t) b (behind p.block_table t))

  inserted_Moved :
      Moved p with_block b.stack_node
        (stack_with b.size s)
        (record (node_ok.stack) { refcnt = add64 node_ok.stack.refcnt 1 })
  inserted_Moved = record { rb_stacks = λ j. refl; stacks = λ j. refl }

  inserted_elsewhere : SameElsewhere p with_block b.stack_node
  inserted_elsewhere = record {
    ids = λ j h. refl;
    counts = λ j h. ground (arith, total_inserted (on j));
    entries = λ j h. refl;
  }

  inserted-Inv : Inv v with_block
  inserted-Inv = record {
    memory = inv.memory;
    blocks_balanced = v.block_ops.insert-IsBalanced p.block_table t b inv.blocks_balanced slot;
    stacks_balanced = inv.stacks_balanced;
    counted = omega (arith, inv.counted, total_inserted one);
    trees = inv.trees;
    nodes =
        moved_nodes inserted_Moved inserted_elsewhere node_ok.home
          (omega (arith, node_ok.same_refcnt)) node_ok.listed
          (omega (arith, node_ok.counted, total_inserted (on b.stack_node), is_self b.stack_node))
          (omega (arith, node_ok.referred, total_inserted (on b.stack_node), is_self b.stack_node))
          inv.nodes;
    blocks_known = rw blocks_after (
        All-insert _ (before p.block_table t) b (behind p.block_table t)
          (moved-IsKnown inserted_Moved b.stack_node (s, e))
          (All-map (λ x h. moved-IsKnown inserted_Moved x.stack_node h) _
            (rw blocks-before at inv.blocks_known)));
    entries_known =
        All-map (λ re h. moved_option inserted_Moved re.addr re.stack_node h) p.realloc_list
          inv.entries_known;
    ids_known = All-map (moved-IsKnown inserted_Moved) (stack_ids p) inv.ids_known;
    unused = λ j h. ground (arith, inv.unused j h, e);
  }

  new-More : (R : Type 0) → Ends R (More v p) (block_new v t b p)
  new-More R = rw (new-runs v t b p s node_ok.stack e node_ok.home node_ok.stored) (record {
    inv = inserted-Inv;
    more = total_inserted one;
    ids = refl;
    entries = refl;
    known = moved-IsKnown inserted_Moved;
  })

-- With memory and a known call stack the block is inserted, or the option stops at a collision.
pub insert-More :
    (v : Env) (addr size i : ℕ) (flags : Flags) (p : Process)
    → Inv v p
    → IsKnown p i
    → Ends
        (v.kill ≡ true)
        (λ r. (r.0 ≡ true) × More v p r.1)
        (process_rb_insert_block v addr size (some i) flags p)
unfolding process_rb_insert_block
insert-More v addr size i flags p inv known =
    Ends-bind (v.kill ≡ true) (IsPlace p.block_table addr) _
      (block_place v p.block_table addr (at_least_one size)) _
      (block_place-IsPlace v p.block_table addr (at_least_one size))
      λ t place. rw (answer-true p.memory inv.memory) (
        Ends-bind (v.kill ≡ true) (More v taken) _ (block_new v t block taken) _
          (new-More v t block taken known.0 taken-Inv place.slot known.1 (v.kill ≡ true))
          λ r m. (
            refl,
            record {
              inv = m.inv;
              more = m.more;
              ids = m.ids;
              entries = m.entries;
              known = m.known;
            },
          ))
  where
    taken : Process
    taken = record p { memory = answers p.memory }

    block : RbBlock
    block = record { flags = flags; addr = addr; size = size; stack_node = i }

    taken-Inv : Inv v taken
    taken-Inv =
        same-Inv v
          (record {
            rb_stacks = refl;
            stacks = refl;
            block_table = refl;
            stack_table = refl;
            realloc_list = refl;
            n_allocations = refl;
            stack_trees = refl;
            fresh = refl;
          })
          (answers-true p.memory inv.memory) inv
