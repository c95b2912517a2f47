-- ===== src/Process/Books/Reset/Blocks.antt =====
-- client/process.c: the loop of `process_reset_allocations` over the blocks.
use mtrace.Base.{
  ◌≤◌, ◌≡◌, refl, sym, ap, ◌∙◌, some, List, [], ◌∷◌, arith, total, total-cons, ok, Ends,
}
use mtrace.Base.Word.{sub64}
use mtrace.Rbtree.{get, inorder}
use mtrace.Rbtree.Plain.{plain, cut}
use mtrace.Process.State.{RbBlock, RbStack, Process, Env}
use mtrace.Process.Reset.{one_less, reset_block, reset_blocks}
use mtrace.Process.Books.{blocks, one, on, refs, StackOk, Inv, Fits}
use mtrace.Process.Books.Steps.{
  with_rb_stack, with_both, modify-runs, stack_put-runs, update_self, update-update,
}
use mtrace.Process.Books.Same.{same-Inv, touched-Inv}
use mtrace.Process.Books.Refs.{is_self, refcnt_live}
use mtrace.Process.Books.Delete.{deleted, stack_without, deleted-Inv}
use mtrace.Process.Books.Reset.Chain.{SameBlocks, moved-Inv, chain, inorder-chain}

-- The environment whose tables need no balance.
abbrev pub loose : Env → Env
loose v = record v { block_ops = plain }

-- The process in the loop, with the blocks that are left in a table of their own.
abbrev pub left_with : List RbBlock → Process → Process
left_with bs p = record p { block_table = chain bs }

module _ (v : Env) (b : RbBlock) (bs : List RbBlock) (p : Process) (s : RbStack)
    (inv : Inv (loose v) (left_with (b ∷ bs) p)) (room : Fits (left_with (b ∷ bs) p))
    (e : p.rb_stacks b.stack_node ≡ some s) where
  abbrev node_ok : StackOk (left_with (b ∷ bs) p) b.stack_node s
  node_ok = inv.nodes b.stack_node s e

  abbrev dropped : Process
  dropped =
      with_both b.stack_node (record (one_less s) { refcnt = sub64 s.refcnt 1 })
        (record (node_ok.stack) { refcnt = sub64 node_ok.stack.refcnt 1 })
        (record p { n_allocations = sub64 p.n_allocations 1 })

  abbrev by_delete : Process
  by_delete = deleted (loose v) [] b s node_ok.stack (left_with (b ∷ bs) p)

  deleted_blocks : blocks by_delete ≡ bs
  unfolding cut
  deleted_blocks = inorder-chain bs

  abbrev dropped_stack : RbStack
  dropped_stack = record (one_less s) { refcnt = sub64 s.refcnt 1 }

  rest_SameBlocks : SameBlocks (blocks by_delete) (inorder (chain bs))
  rest_SameBlocks = record {
    totals = λ f. ap (total f) (inorder-chain bs ∙ sym deleted_blocks);
    all = λ P h. rw (inorder-chain bs) (rw deleted_blocks at h);
  }

  dropped-Inv : Inv (loose v) (left_with bs dropped)
  unfolding get cut
  dropped-Inv =
      same-Inv (loose v)
        {p = record (with_rb_stack b.stack_node dropped_stack by_delete) { block_table = chain bs }}
        (record {
          rb_stacks = sym (
              update-update p.rb_stacks b.stack_node (some (stack_without b s))
                (some dropped_stack));
          stacks = refl;
          block_table = refl;
          stack_table = refl;
          realloc_list = refl;
          n_allocations = refl;
          stack_trees = refl;
          fresh = refl;
        })
        inv.memory
        (moved-Inv (loose v) (loose v) refl (with_rb_stack b.stack_node dropped_stack by_delete)
          (chain bs) rest_SameBlocks tt
          (touched-Inv (loose v) by_delete b.stack_node (stack_without b s) dropped_stack
            (deleted-Inv (loose v) [] b (left_with (b ∷ bs) p) s inv room refl e)
            (update_self p.rb_stacks b.stack_node (some (stack_without b s)))
            (record { stack = refl; refcnt = refl; n_allocations = refl })))

  two_refs : 2 ≤ refs (left_with (b ∷ bs) p) b.stack_node
  two_refs = omega (
    arith,
    total-cons (on b.stack_node) b (inorder (chain bs)),
    is_self b.stack_node,
    node_ok.listed,
  )

  drop-runs : reset_block b p ≡ ok dropped
  unfolding reset_block
  drop-runs =
      let live = refcnt_live (left_with (b ∷ bs) p) b.stack_node s node_ok room two_refs in
      let q = record p { n_allocations = sub64 p.n_allocations 1 } in
      rw (modify-runs b.stack_node one_less q s e) (
        rw
          (stack_put-runs b.stack_node (with_rb_stack b.stack_node (one_less s) q) (one_less s)
            node_ok.stack (update_self p.rb_stacks b.stack_node (some (one_less s))) node_ok.home
            node_ok.stored live (rw node_ok.same_refcnt live))
          (simp update-update))

module _ (v : Env) where
  -- The loop over the blocks books all of them out.
  pub reset_blocks-Inv :
      (bs : List RbBlock) (p : Process)
      → Inv (loose v) (left_with bs p)
      → Fits (left_with bs p)
      → Ends ⊥ (λ q. Inv (loose v) (left_with [] q) × Fits (left_with [] q)) (reset_blocks bs p)
  unfolding reset_blocks
  reset_blocks-Inv [] p inv room = (inv, room)
  reset_blocks-Inv (b ∷ bs) p inv room =
      let (s, e) = inv.blocks_known.0 in
      rw (drop-runs v b bs p s inv room e, Ends)
        (reset_blocks-Inv bs (dropped v b bs p s inv room e) (dropped-Inv v b bs p s inv room e)
          (omega (arith, room, total-cons one b (inorder (chain bs)))))
