-- ===== src/Process/Books/Mark.antt =====
-- client/process.c: the books after `process_scan` has marked a block.
use mtrace.Base.{
  ◌⊎◌, sym, subst, ==_iff, ◌+◌, ◌==◌, ap, total, total-middle, ℕ, ◌≡◌, refl, inl, inr, true, false,
  some, arith, Bool-cases, ok,
}
use mtrace.Base.Word.{add64}
use mtrace.Rbtree.{Trail, get, put}
use mtrace.Process.State.{RbBlock, RbStack, Process, Env}
use mtrace.Process.Scan.{as_leaked, mark_leaked}
use mtrace.Rbtree.{before, behind}
use mtrace.Rbtree.Paths.{inorder-get, inorder-put}
use mtrace.Process.Books.{blocks}
use mtrace.Process.Books.Leaks.{AreLeaks, leak_of, leaked_size, if_on}
use mtrace.Process.Books.{Inv}
use mtrace.Process.Books.Steps.{with_rb_stack, modify-runs}
use mtrace.Process.Books.Same.{same-Inv, touched-Inv, put-Inv}

-- The counters of a call stack that gains a leak.
abbrev pub leak_stack : RbBlock → RbStack → RbStack
leak_stack b s = record s { leaks = add64 s.leaks 1; bytes_leaked = add64 s.bytes_leaked b.size }

abbrev pub leaked : Trail → RbBlock → RbStack → Process → Process
leaked t b s p = record (with_rb_stack b.stack_node (leak_stack b s) p) {
  block_table = put p.block_table t (as_leaked b);
  leaks = add64 p.leaks 1;
  leaked_bytes = add64 p.leaked_bytes b.size;
}

pub mark_leaked-runs :
    (t : Trail) (b : RbBlock) (p : Process) (s : RbStack)
    → p.rb_stacks b.stack_node ≡ some s
    → mark_leaked t b p ≡ ok (leaked t b s p)
unfolding mark_leaked
mark_leaked-runs t b p s e = rw (
    modify-runs b.stack_node (leak_stack b)
      (record p { block_table = put p.block_table t (as_leaked b) }) s e)

pub leaked-Inv :
    (v : Env) (t : Trail) (b : RbBlock) (p : Process) (s : RbStack)
    → Inv v p
    → get p.block_table t ≡ some b
    → p.rb_stacks b.stack_node ≡ some s
    → Inv v (leaked t b s p)
leaked-Inv v t b p s inv at e =
    same-Inv v {p = with_rb_stack b.stack_node (leak_stack b s) marked}
      (record {
        rb_stacks = refl;
        stacks = refl;
        block_table = refl;
        stack_table = refl;
        realloc_list = refl;
        n_allocations = refl;
        stack_trees = refl;
        fresh = refl;
      })
      inv.memory
      (touched-Inv v marked b.stack_node s (leak_stack b s)
        (put-Inv v p t b (as_leaked b) inv at refl) e
        (record { stack = refl; refcnt = refl; n_allocations = refl }))
  where
    marked : Process
    marked = record p { block_table = put p.block_table t (as_leaked b) }

-- The counters of the leaks gain the block that is marked.
module _ (v : Env) (t : Trail) (b : RbBlock) (p : Process) (s : RbStack)
    (at : get p.block_table t ≡ some b) (e : p.rb_stacks b.stack_node ≡ some s)
    (new : b.flags.leaked ≡ false) where
  abbrev marked : Process
  marked = leaked t b s p

  total-marked :
      (f : RbBlock → ℕ) → total f (blocks marked) + f b ≡ total f (blocks p) + f (as_leaked b)
  total-marked f = omega (
    arith,
    ap (total f) (inorder-get p.block_table t b at),
    ap (total f) (inorder-put p.block_table t b (as_leaked b) at),
    total-middle f (before p.block_table t) b (behind p.block_table t),
    total-middle f (before p.block_table t) (as_leaked b) (behind p.block_table t),
  )

  -- A measure of the marked blocks gains `n` here, where the block measures `n` and is not marked yet.
  abbrev Gains : (RbBlock → ℕ) → ℕ → Type 0
  Gains f n = total f (blocks marked) ≡ total f (blocks p) + n

  Gains-leak : Gains leak_of 1
  Gains-leak = let k = rw (new) at (total-marked leak_of) in omega (arith, k)

  Gains-size : Gains leaked_size b.size
  Gains-size = let k = rw (new) at (total-marked leaked_size) in omega (arith, k)

  here_or_there :
      (i : ℕ) (c : RbStack)
      → marked.rb_stacks i ≡ some c
      → ((b.stack_node == i ≡ true) × (leak_stack b s ≡ c))
        ⊎ ((b.stack_node == i ≡ false) × (p.rb_stacks i ≡ some c))
  here_or_there i c h = elim (Bool-cases (b.stack_node == i)) [
    | inl k ↦ inl (k, some_stack (leak_stack b s) c (rw (k) at h))
    | inr k ↦ inr (k, rw (k) at h)
  ]
    where
      some_stack : (x y : RbStack) → some x ≡ some y → x ≡ y
      some_stack x y q = cc

  at_node : (i : ℕ) → b.stack_node == i ≡ true → p.rb_stacks i ≡ some s
  at_node i k = subst (λ j. p.rb_stacks j ≡ some s) ((==_iff b.stack_node i).0 k) e

  pub marked-AreLeaks : AreLeaks p → AreLeaks marked
  marked-AreLeaks right = record {
    leaks = omega (arith, right.leaks, Gains-leak);
    leaked_bytes = omega (arith, right.leaked_bytes, Gains-size);
    stack_leaks = λ i c h. elim (here_or_there i c h) [
      | inl k ↦
          let g = rw (k.0, new) at (total-marked (if_on i leak_of)) in
          omega (
            arith,
            ap (λ (y : RbStack). y.leaks) (sym k.1),
            right.stack_leaks i s (at_node i k.0),
            g,
          )
      | inr k ↦
          let g = rw (k.0) at (total-marked (if_on i leak_of)) in
          omega (arith, right.stack_leaks i c k.1, g)
    ];
    stack_bytes = λ i c h. elim (here_or_there i c h) [
      | inl k ↦
          let g = rw (k.0, new) at (total-marked (if_on i leaked_size)) in
          omega (
            arith,
            ap (λ (y : RbStack). y.bytes_leaked) (sym k.1),
            right.stack_bytes i s (at_node i k.0),
            g,
          )
      | inr k ↦
          let g = rw (k.0) at (total-marked (if_on i leaked_size)) in
          omega (arith, right.stack_bytes i c k.1, g)
    ];
  }
