-- ===== src/Process/Books/Reset/Chain.antt =====
-- client/process.c: the blocks of a table in another order and in another table.
use mtrace.Base.{
  ℕ, ◌≡◌, refl, ap, List, [], ◌∷◌, ◌++◌, arith, total, total-nil, total-cons, total-append, All,
  All-append, All-left, All-right,
}
use mtrace.Rbtree.{Tree, leaf, node, black, inorder}
use mtrace.Process.State.{RbBlock, RbStack, Process, Env}
use mtrace.Process.Reset.{postorder}
use mtrace.Process.Books.{blocks, one, on, StackOk, IsKnown, Inv}

-- The same blocks in another table, and another order.
pub record SameBlocks (bs cs : List RbBlock) : Type 1 where
  pub totals : (f : RbBlock → ℕ) → total f cs ≡ total f bs
  pub all : (P : RbBlock → Type 0) → All P bs → All P cs

module _ (v w : Env) (stack_ops : w.stack_ops ≡ v.stack_ops) (p : Process) (u : Tree RbBlock)
    (same : SameBlocks (blocks p) (inorder u)) where
  abbrev moved_to : Process
  moved_to = record p { block_table = u }

  moved_stack : (i : ℕ) (s : RbStack) → StackOk p i s → StackOk moved_to i s
  moved_stack i s k = record {
    home = k.home;
    stack = k.stack;
    stored = k.stored;
    same_refcnt = k.same_refcnt;
    listed = k.listed;
    counted = rw (same.totals (on i)) k.counted;
    referred = rw (same.totals (on i)) k.referred;
  }

  pub moved-Inv : w.block_ops.IsBalanced u → Inv v p → Inv w moved_to
  moved-Inv balanced inv = record {
    memory = inv.memory;
    blocks_balanced = balanced;
    stacks_balanced = rw stack_ops inv.stacks_balanced;
    counted = rw (same.totals one) inv.counted;
    trees = inv.trees;
    nodes = λ i s e. moved_stack i s (inv.nodes i s e);
    blocks_known = same.all (λ b. IsKnown p b.stack_node) inv.blocks_known;
    entries_known = inv.entries_known;
    ids_known = inv.ids_known;
    unused = inv.unused;
  }

pub postorder-SameBlocks : (t : Tree RbBlock) → SameBlocks (inorder t) (postorder t)
unfolding postorder
postorder-SameBlocks leaf = record { totals = λ f. refl; all = λ P h. h }
postorder-SameBlocks (node c l b r) = record {
  totals = λ f. omega (
    arith,
    (postorder-SameBlocks l).totals f,
    (postorder-SameBlocks r).totals f,
    total-append f (postorder l) (postorder r ++ b ∷ []),
    total-append f (postorder r) (b ∷ []),
    total-append f (inorder l) (b ∷ inorder r),
    total-cons f b (inorder r),
    total-cons f b [],
    total-nil f,
  );
  all = λ P h.
      let right_part = All-right P (inorder l) (b ∷ inorder r) h in
      All-append P (postorder l) (postorder r ++ b ∷ [])
        ((postorder-SameBlocks l).all P (All-left P (inorder l) (b ∷ inorder r) h))
        (All-append P (postorder r) (b ∷ []) ((postorder-SameBlocks r).all P right_part.1)
          (right_part.0, tt));
}

-- A table of the blocks that are left.
abbrev pub chain : List RbBlock → Tree RbBlock
chain [] = leaf
chain (b ∷ bs) = node black leaf b (chain bs)

pub inorder-chain : (bs : List RbBlock) → inorder (chain bs) ≡ bs
inorder-chain [] = refl
inorder-chain (b ∷ bs) = ap (◌∷◌ b) (inorder-chain bs)
