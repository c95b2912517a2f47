-- ===== src/Process/Unmap.antt =====
-- client/process.c: `process_munmap`, which takes a range of addresses out of the books.
use mtrace.Base.{
  ℕ, zero, suc, ◌==◌, ltb, leb, if◌then◌else◌, true, false, none, some, List, Outcome, ok, aborted,
  diverged, ◌>>=◌,
}
use mtrace.Base.Word.{add64, sub64, low32}
use mtrace.Rbtree.{Trail, put}
use mtrace.Process.State.{no_flags, RbBlock, Process, Env}
use mtrace.Process.Stacks.{stack_of}
use mtrace.Process.Blocks.{
  process_rb_search_range, process_release_mem, process_rb_delete_block, process_rb_insert_block,
}
use mtrace.Process.Handlers.{alloc_payload, is_mmap, rounds}

-- How a round of the loop ends: by `break`, or with a range that is left.
pub data Round : Type 0 where
  stop : Process → Round
  again : ℕ → ℕ → Process → Round

module _ (v : Env) where
  -- The block starts at or above `ptr`. `off` is an `unsigned`.
  unfoldable pub unmap_from : ℕ → ℕ → Trail → RbBlock → Process → Outcome Round
  unmap_from ptr size t b p =
      let off = low32 (sub64 b.addr ptr) in
      let left_size = sub64 size off in
      let start = add64 ptr off in
      elim (ltb left_size b.size) [
        | true ↦ do
          (b', q) ← process_release_mem b left_size p
          ok (
              stop (record q {
                block_table =
                    put q.block_table t
                      (record b' { addr = add64 b.addr left_size; size = sub64 b.size left_size });
              }))
        | false ↦ process_rb_delete_block v t b p >>= λ q.
            ok (again (add64 start b.size) (sub64 left_size b.size) q)
      ]

  -- The block starts below `ptr` and ends behind the range: it is split in two.
  unfoldable pub unmap_split : ℕ → ℕ → Trail → RbBlock → Process → Outcome Round
  unmap_split off size t b p = do
    let end = add64 off size
    let rest = sub64 b.size end
    (b', q) ← process_release_mem b (sub64 (sub64 b.size off) rest) p
    (inserted, r) ←
        process_rb_insert_block v (add64 b.addr end) rest (some b.stack_node) no_flags
          (record q { block_table = put q.block_table t (record b' { size = off }) })
    ok (
        stop (
          if inserted
          then record r {
            n_allocations = add64 r.n_allocations 1;
            total_allocations = add64 r.total_allocations 1;
            bytes_used = add64 r.bytes_used rest;
          }
          else r))

  -- The block starts below `ptr`.
  unfoldable pub unmap_below : ℕ → ℕ → Trail → RbBlock → Process → Outcome Round
  unmap_below ptr size t b p =
      let off = low32 (sub64 ptr b.addr) in
      elim (ltb (add64 off size) b.size) [
        | true ↦ unmap_split off size t b p
        | false ↦ do
          (b', q) ← process_release_mem b off p
          let cut = record b' { addr = add64 b.addr off; size = sub64 b.size off }
          ok (
              again (add64 ptr cut.size) (sub64 size cut.size)
                (record q { block_table = put q.block_table t cut }))
      ]

  -- One round of the loop, on the block that the search has found.
  unfoldable pub unmap_block : ℕ → ℕ → Trail → RbBlock → Process → Outcome Round
  unmap_block ptr size t b p = do
    k ← stack_of p b.stack_node
    elim (is_mmap k.operation) [
      | false ↦ if v.kill then aborted else ok (stop p)
      | true ↦ elim (leb ptr b.addr) [
        | true ↦ unmap_from ptr size t b p
        | false ↦ unmap_below ptr size t b p
      ]
    ]

  -- The fuel counts the rounds.
  unfoldable pub unmap_loop : ℕ → ℕ → ℕ → Process → Outcome Process
  unmap_loop zero ptr size p = diverged
  unmap_loop (suc fuel) ptr size p = elim (process_rb_search_range p.block_table ptr size) [
    | none ↦ ok p
    | some (t, b) ↦ unmap_block ptr size t b p >>= elim [
      | stop q ↦ ok q
      | again ptr' size' q ↦ elim (size' == 0) [
        | true ↦ ok q
        | false ↦ unmap_loop fuel ptr' size' q
      ]
    ]
  ]

  unfoldable pub process_munmap : List ℕ → Process → Outcome Process
  process_munmap bytes p = elim p.tracing [
    | false ↦ ok p
    | true ↦ do m ← alloc_payload p.format bytes; unmap_loop (rounds p) m.ptr m.size p
  ]
