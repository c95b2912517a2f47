-- ===== src/Process/Reset.antt =====
-- client/process.c: `process_reset_allocations`, which forgets all allocations of a process, and
-- `process_reset` and `process_reinit`, which forget its call stacks as well.
use mtrace.Base.{
  ℕ, ◌==◌, Bool, true, false, none, some, List, [], ◌∷◌, ◌++◌, Outcome, ok, aborted, fault, ◌>>=◌,
}
use mtrace.Base.Word.{sub64}
use mtrace.Rbtree.{Tree, leaf, node}
use mtrace.Process.State.{RbBlock, RbStack, ReallocEntry, Process}
use mtrace.Process.Stacks.{modify_stack, stack_put}
use mtrace.Process.Life.{process_init}
use mtrace.Process.Realloc.{realloc_del}

-- The order of `rbtree_postorder_for_each_entry_safe`.
unfoldable pub postorder {ℓ} : {A : Type ℓ} → Tree A → List A
postorder leaf = []
postorder (node c l x r) = postorder l ++ (postorder r ++ x ∷ [])

abbrev pub one_less : RbStack → RbStack
one_less s = record s { n_allocations = sub64 s.n_allocations 1 }

unfoldable pub reset_block : RbBlock → Process → Outcome Process
reset_block b p = do
  q ← modify_stack b.stack_node one_less (record p { n_allocations = sub64 p.n_allocations 1 })
  stack_put b.stack_node q

-- The loop over the blocks. The table keeps its root until the loop has ended.
unfoldable pub reset_blocks : List RbBlock → Process → Outcome Process
reset_blocks [] p = ok p
reset_blocks (b ∷ bs) p = reset_block b p >>= λ q. reset_blocks bs q

-- The loop over the reallocations.
unfoldable pub reset_entries : List ReallocEntry → Process → Outcome Process
reset_entries [] p = ok p
reset_entries (re ∷ rest) p = do q ← realloc_del re rest p; reset_entries rest q

unfoldable pub process_reset_allocations : Process → Outcome Process
process_reset_allocations p = do
  q ← reset_blocks (postorder p.block_table) p
  elim (q.n_allocations == 0) [
    | false ↦ aborted
    | true ↦ do
      r ← reset_entries q.realloc_list (record q { block_table = leaf })
      ok (record r { total_allocations = 0; bytes_used = 0; leaks = 0; leaked_bytes = 0; tsc = 0 })
  ]

-- The loop of `process_reset` over the call stacks, each of which the table alone may hold.
unfoldable pub reset_stacks : List ℕ → Process → Outcome Process
reset_stacks [] p = ok p
reset_stacks (i ∷ is) p = elim (p.rb_stacks i) [
  | none ↦ fault
  | some s ↦ elim (s.refcnt == 1) [
    | false ↦ aborted
    | true ↦
        stack_put i p >>= λ q. reset_stacks is (record q { stack_trees = sub64 q.stack_trees 1 })
  ]
]

unfoldable pub process_reset : Process → Outcome Process
process_reset p = do
  q ← process_reset_allocations p
  r ← reset_stacks (postorder q.stack_table) q
  elim (r.stack_trees == 0) [
    | false ↦ aborted
    | true ↦ ok (record r { stack_table = leaf; filename = none; map_list = [] })
  ]

unfoldable pub process_reinit : Process → Bool → Bool → Bool → Outcome Process
process_reinit p swap_endian is_64bit attached =
    process_reset p >>= λ q. ok (process_init swap_endian is_64bit attached q)
