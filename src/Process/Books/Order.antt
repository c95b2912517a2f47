-- ===== src/Process/Books/Order.antt =====
-- client/process.c: the block table stays in order, and finds what was inserted.
use mtrace.Base.{
  ℕ, ◌≡◌, refl, ◌≢◌, sym, subst, true, none, some, List, ◌∷◌, ◌++◌, All, All-right, Ends, Ends-bind,
}
use mtrace.Rbtree.{Trail, get, before, behind}
use mtrace.Rbtree.Sorted.{IsSorted, IsSorted-insert, IsSorted-remove}
use mtrace.Rbtree.Paths.{inorder-slot, inorder-get}
use mtrace.Process.State.{Flags, RbBlock, RbStack, Process, Env, answers}
use mtrace.Process.Blocks.{
  at_least_one, block_place, block_new, process_rb_search, process_rb_insert_block,
  process_rb_delete_block,
}
use mtrace.Process.Search.{IsOrdered, IsPlace, block_place-IsPlace, search-none}
use mtrace.Process.Books.{blocks, IsKnown, Inv, Fits}
use mtrace.Process.Books.Refs.{refcnt_live}
use mtrace.Process.Books.Same.{answer-true, answers-true, same-Inv}
use mtrace.Process.Books.Insert.{inserted, new-runs}
use mtrace.Process.Books.Delete.{delete-runs, two_refs}

-- The list with one element more, at some place.
pub record Grows (xs ys : List RbBlock) (b : RbBlock) : Type 0 where
  pub front : List RbBlock
  pub back : List RbBlock
  pub was : xs ≡ front ++ back
  pub now : ys ≡ front ++ b ∷ back

-- A block was opened: the table has it, and stays in order.
pub record Opened (p q : Process) (b : RbBlock) : Type 0 where
  pub grows : Grows (blocks p) (blocks q) b
  pub ordered : IsOrdered p.block_table → IsOrdered q.block_table
  pub found : IsOrdered p.block_table → process_rb_search q.block_table b.addr ≢ none

grown-found :
    (p q : Process) (b : RbBlock)
    → Grows (blocks p) (blocks q) b
    → IsOrdered q.block_table
    → process_rb_search q.block_table b.addr ≢ none
grown-found p q b g order missing =
    (All-right (λ x. x.addr ≢ b.addr) g.front (b ∷ g.back)
        (subst (All (λ x. x.addr ≢ b.addr)) g.now
          (search-none q.block_table b.addr order missing))).0
      refl

module _ (v : Env) (t : Trail) (b : RbBlock) (p : Process) (s : RbStack) (inv : Inv v p)
    (place : IsPlace p.block_table b.addr t) (e : p.rb_stacks b.stack_node ≡ some s) where
  abbrev with_block : Process
  with_block = inserted v t b s (inv.nodes b.stack_node s e).stack p

  grows_here : Grows (blocks p) (blocks with_block) b
  grows_here = record {
    front = before p.block_table t;
    back = behind p.block_table t;
    was = inorder-slot p.block_table t place.slot;
    now = v.block_ops.insert-inorder p.block_table t b inv.blocks_balanced place.slot;
  }

  IsOrdered-here : IsOrdered p.block_table → IsOrdered with_block.block_table
  unfolding grows_here
  IsOrdered-here o = subst (IsSorted (λ (x : RbBlock). x.addr)) (sym grows_here.now) (
      IsSorted-insert (λ (x : RbBlock). x.addr) grows_here.front b grows_here.back
        (subst (IsSorted (λ (x : RbBlock). x.addr)) grows_here.was o) (place.low o) (place.high o))

  new-Opened : (R : Type 0) → Ends R (λ q. Opened p q b) (block_new v t b p)
  new-Opened R =
      let k = inv.nodes b.stack_node s e in
      rw (new-runs v t b p s k.stack e k.home k.stored) (record {
        grows = grows_here;
        ordered = IsOrdered-here;
        found = λ o. grown-found p with_block b grows_here (IsOrdered-here o);
      })

abbrev pub block_of : ℕ → ℕ → ℕ → Flags → RbBlock
block_of addr size i flags = record { flags = flags; addr = addr; size = size; stack_node = i }

-- On sound books and for a live call stack `process_rb_insert_block` returns 0 and adds just this block to
-- the table. An ordered table stays in order, and its search then finds a block at the address. The process
-- stops only under the option for the first error.
pub process_rb_insert_block-Opened :
    (v : Env) (addr size i : ℕ) (flags : Flags) (p : Process)
    → Inv v p
    → IsKnown p i
    → Ends
        (v.kill ≡ true)
        (λ r. (r.0 ≡ true) × Opened p r.1 (block_of addr size i flags))
        (process_rb_insert_block v addr size (some i) flags p)
unfolding process_rb_insert_block
process_rb_insert_block-Opened v addr size i flags p inv known =
    Ends-bind (v.kill ≡ true) (IsPlace p.block_table addr) _
      (block_place v p.block_table addr (at_least_one size)) _
      (block_place-IsPlace v p.block_table addr (at_least_one size))
      λ t place. rw (answer-true p.memory inv.memory) (
        Ends-bind (v.kill ≡ true) (λ q. Opened taken q block) _ (block_new v t block taken) _
          (new-Opened v t block taken known.0 taken-Inv place known.1 (v.kill ≡ true))
          λ r m. (refl, record { grows = m.grows; ordered = m.ordered; found = m.found }))
  where
    taken : Process
    taken = record p { memory = answers p.memory }

    block : RbBlock
    block = block_of addr size i flags

    taken-Inv : Inv v taken
    taken-Inv =
        same-Inv v
          (record {
            rb_stacks = refl;
            stacks = refl;
            block_table = refl;
            stack_table = refl;
            realloc_list = refl;
            n_allocations = refl;
            stack_trees = refl;
            fresh = refl;
          })
          (answers-true p.memory inv.memory) inv

-- A block was closed: the table is without it, and stays in order.
pub record Closed (p q : Process) (b : RbBlock) : Type 0 where
  pub shrinks : Grows (blocks q) (blocks p) b
  pub ordered : IsOrdered p.block_table → IsOrdered q.block_table

-- On sound books that fit into their counters `process_rb_delete_block` takes just this block out of the
-- table. An ordered table stays in order.
pub process_rb_delete_block-Closed :
    (v : Env) (t : Trail) (b : RbBlock) (p : Process)
    → Inv v p
    → Fits p
    → get p.block_table t ≡ some b
    → IsKnown p b.stack_node
    → Ends ⊥ (λ q. Closed p q b) (process_rb_delete_block v t b p)
process_rb_delete_block-Closed v t b p inv room at (s, e) =
    let k = inv.nodes b.stack_node s e in
    let live = refcnt_live p b.stack_node s k room (two_refs v t b p s inv room at e) in
    let was = inorder-get p.block_table t b at in
    let now = v.block_ops.erase-inorder p.block_table t b inv.blocks_balanced at in
    rw (delete-runs v t b p s k.stack e k.home k.stored live (rw k.same_refcnt live)) (record {
      shrinks = record {
        front = before p.block_table t;
        back = behind p.block_table t;
        was = now;
        now = was;
      };
      ordered = λ o. subst (IsSorted (λ (x : RbBlock). x.addr)) (sym now) (
          IsSorted-remove (λ (x : RbBlock). x.addr) (before p.block_table t) b
            (behind p.block_table t) (subst (IsSorted (λ (x : RbBlock). x.addr)) was o));
    })
