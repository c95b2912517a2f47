-- ===== src/Process/Books/Same.antt =====
-- Changes that leave what the invariant speaks of as it is.
use mtrace.Base.{
  ℕ, ◌≡◌, refl, inl, inr, ◌==◌, ==_iff, sym, ◌∙◌, Bool, true, Option, none, some, List, [], ◌∷◌,
  arith, ◌++◌, ap, total, total-middle, All, All-map, All_at, All-insert, All-remove, Bool-cases,
  Ends,
}
use mtrace.Rbtree.{Trail, get, put, before, behind}
use mtrace.Rbtree.Paths.{inorder-get, inorder-put}
use mtrace.Process.State.{RbBlock, RbStack, Process, Env, answer, answers}
use mtrace.Process.Stacks.{modify_stack}
use mtrace.Process.Books.{
  blocks, stack_ids, one, is, on, StackOk, IsKnown, OptionKnown, HasMemory, Inv, Grown,
}
use mtrace.Process.Books.Steps.{with_rb_stack, modify-runs}
use mtrace.Process.Books.Moved.{Moved, moved_nodes, moved-IsKnown, moved_option}

-- The books of both processes are the same, whatever the other fields hold.
pub record SameBooks (p q : Process) : Type 0 where
  pub rb_stacks : q.rb_stacks ≡ p.rb_stacks
  pub stacks : q.stacks ≡ p.stacks
  pub block_table : q.block_table ≡ p.block_table
  pub stack_table : q.stack_table ≡ p.stack_table
  pub realloc_list : q.realloc_list ≡ p.realloc_list
  pub n_allocations : q.n_allocations ≡ p.n_allocations
  pub stack_trees : q.stack_trees ≡ p.stack_trees
  pub fresh : q.fresh ≡ p.fresh

module _ (v : Env) {p q : Process} (h : SameBooks p q) where
  same_stack : (i : ℕ) (s : RbStack) → StackOk p i s → StackOk q i s
  same_stack i s k = record {
    home = k.home;
    stack = k.stack;
    stored = rw h.stacks k.stored;
    same_refcnt = k.same_refcnt;
    listed = rw h.stack_table k.listed;
    counted = rw h.block_table k.counted;
    referred = rw (h.stack_table, h.block_table, h.realloc_list) k.referred;
  }

  same-IsKnown : (i : ℕ) → IsKnown p i → IsKnown q i
  same-IsKnown i k = (k.0, rw h.rb_stacks k.1)

  same_option : (addr : ℕ) (o : Option ℕ) → OptionKnown p addr o → OptionKnown q addr o
  same_option addr none k = k
  same_option addr (some i) k = same-IsKnown i k

  pub same-Inv : HasMemory q → Inv v p → Inv v q
  same-Inv memory inv = record {
    memory = memory;
    blocks_balanced = rw h.block_table inv.blocks_balanced;
    stacks_balanced = rw h.stack_table inv.stacks_balanced;
    counted = rw (h.block_table, h.n_allocations) inv.counted;
    trees = rw (h.stack_table, h.stack_trees) inv.trees;
    nodes = λ i s e. same_stack i s (inv.nodes i s (rw h.rb_stacks at e));
    blocks_known =
        rw h.block_table (All-map (λ b k. same-IsKnown b.stack_node k) (blocks p) inv.blocks_known);
    entries_known =
        rw h.realloc_list
          (All-map (λ re k. same_option re.addr re.stack_node k) p.realloc_list inv.entries_known);
    ids_known = rw h.stack_table (All-map same-IsKnown (stack_ids p) inv.ids_known);
    unused = λ i k. rw h.rb_stacks (inv.unused i (rw h.fresh at k));
  }

-- `malloc` succeeds, and leaves the books alone.
pub answer-true : (bs : List Bool) → All (λ b. b ≡ true) bs → answer bs ≡ true
answer-true [] h = refl
answer-true (b ∷ bs) h = h.0

pub answers-true : (bs : List Bool) → All (λ b. b ≡ true) bs → All (λ b. b ≡ true) (answers bs)
answers-true [] h = tt
answers-true (b ∷ bs) h = h.1

pub block-IsKnown :
    (v : Env) (p : Process) (t : Trail) (b : RbBlock)
    → Inv v p
    → get p.block_table t ≡ some b
    → IsKnown p b.stack_node
block-IsKnown v p t b inv at =
    All_at _ (before p.block_table t) b (behind p.block_table t)
      (rw (inorder-get p.block_table t b at) at inv.blocks_known)

-- A write to the counters of a call stack that the invariant does not speak of.
pub record SameCounts (s s' : RbStack) : Type 0 where
  pub stack : s'.stack ≡ s.stack
  pub refcnt : s'.refcnt ≡ s.refcnt
  pub n_allocations : s'.n_allocations ≡ s.n_allocations

module _ (v : Env) (p : Process) (i : ℕ) (s s' : RbStack) (inv : Inv v p)
    (e : p.rb_stacks i ≡ some s) (same : SameCounts s s') where
  abbrev node_ok : StackOk p i s
  node_ok = inv.nodes i s e

  pub touched_Moved : Moved p (with_rb_stack i s' p) i s' node_ok.stack
  touched_Moved = record {
    rb_stacks = λ j. refl;
    stacks = λ j. elim (Bool-cases (i == j)) [
      | inl at ↦ rw (at, ← (==_iff i j).0 at) node_ok.stored
      | inr off ↦ rw off
    ];
  }

  pub touched-Inv : Inv v (with_rb_stack i s' p)
  touched-Inv = record {
    memory = inv.memory;
    blocks_balanced = inv.blocks_balanced;
    stacks_balanced = inv.stacks_balanced;
    counted = inv.counted;
    trees = inv.trees;
    nodes =
        moved_nodes touched_Moved
          (record { ids = λ j h. refl; counts = λ j h. refl; entries = λ j h. refl })
          (same.stack ∙ node_ok.home) (node_ok.same_refcnt ∙ sym same.refcnt) node_ok.listed
          (same.n_allocations ∙ node_ok.counted) (same.refcnt ∙ node_ok.referred) inv.nodes;
    blocks_known =
        All-map (λ b h. moved-IsKnown touched_Moved b.stack_node h) (blocks p) inv.blocks_known;
    entries_known =
        All-map (λ re h. moved_option touched_Moved re.addr re.stack_node h) p.realloc_list
          inv.entries_known;
    ids_known = All-map (moved-IsKnown touched_Moved) (stack_ids p) inv.ids_known;
    unused = λ j h. ground (arith, inv.unused j h, e);
  }

pub touch-Grown :
    (v : Env) (R : Type 0) (i : ℕ) (f : RbStack → RbStack) (p : Process)
    → ((s : RbStack) → SameCounts s (f s))
    → Inv v p
    → IsKnown p i
    → Ends R (Grown v 0 p) (modify_stack i f p)
touch-Grown v R i f p same inv (s, e) =
    rw (modify-runs i f p s e)
      (record { inv = touched-Inv v p i s (f s) inv e (same s); grows = omega arith })

-- A write to a block in the table that leaves it on its call stack.
module _ (v : Env) (p : Process) (t : Trail) (b b' : RbBlock) (inv : Inv v p)
    (at : get p.block_table t ≡ some b) (same : b'.stack_node ≡ b.stack_node) where
  abbrev rewritten : Process
  rewritten = record p { block_table = put p.block_table t b' }

  old_blocks : blocks p ≡ before p.block_table t ++ b ∷ behind p.block_table t
  old_blocks = inorder-get p.block_table t b at

  new_blocks : blocks rewritten ≡ before p.block_table t ++ b' ∷ behind p.block_table t
  new_blocks = inorder-put p.block_table t b b' at

  pub total_put : (f : RbBlock → ℕ) → f b' ≡ f b → total f (blocks rewritten) ≡ total f (blocks p)
  total_put f h = omega (
    arith,
    h,
    ap (total f) old_blocks,
    ap (total f) new_blocks,
    total-middle f (before p.block_table t) b (behind p.block_table t),
    total-middle f (before p.block_table t) b' (behind p.block_table t),
  )

  total_on : (j : ℕ) → total (on j) (blocks rewritten) ≡ total (on j) (blocks p)
  total_on j = total_put (on j) (ap (is j) same)

  rewritten_stack : (i : ℕ) (s : RbStack) → StackOk p i s → StackOk rewritten i s
  rewritten_stack i s k = record {
    home = k.home;
    stack = k.stack;
    stored = k.stored;
    same_refcnt = k.same_refcnt;
    listed = k.listed;
    counted = rw (total_on i) k.counted;
    referred = rw (total_on i) k.referred;
  }

  pub put-Inv : Inv v rewritten
  put-Inv = record {
    memory = inv.memory;
    blocks_balanced = v.block_ops.put-IsBalanced p.block_table t b' inv.blocks_balanced;
    stacks_balanced = inv.stacks_balanced;
    counted = rw (total_put one refl) inv.counted;
    trees = inv.trees;
    nodes = λ i s e. rewritten_stack i s (inv.nodes i s e);
    blocks_known = rw new_blocks (
        All-insert _ (before p.block_table t) b' (behind p.block_table t)
          (rw same (block-IsKnown v p t b inv at))
          (All-remove _ (before p.block_table t) b (behind p.block_table t)
            (rw old_blocks at inv.blocks_known)));
    entries_known = inv.entries_known;
    ids_known = inv.ids_known;
    unused = inv.unused;
  }
