-- ===== src/Process/Unreached.antt =====
-- client/process.c: the part of `process_munmap` for a block that starts below the range is never reached.
use mtrace.Base.{ℕ, ◌≡◌, refl, leb, true, some, arith, ok, ◌>>=◌, Ends}
use mtrace.Rbtree.{Tree, Trail}
use mtrace.Process.State.{RbBlock, Stack, Process, Env}
use mtrace.Process.Stacks.{stack_of}
use mtrace.Process.Blocks.{process_rb_search_range}
use mtrace.Process.Handlers.{is_mmap}
use mtrace.Process.Unmap.{unmap_block, unmap_from}
use mtrace.Process.Search.{search_range-IsAt}

hit_above :
    (u : Tree RbBlock) (ptr size : ℕ) (t : Trail) (b : RbBlock)
    → process_rb_search_range u ptr size ≡ some (t, b)
    → leb ptr b.addr ≡ true
hit_above u ptr size t b hit =
    let starts = (rw hit at (search_range-IsAt u ptr size)).1 in ground arith

-- Where the range search of an unmapping has found a block of a mapping, the round is always that for a
-- block that starts at or above the range: the other branch, which splits a mapping or cuts off
-- its end, is never taken.
pub unmap_block-unmap_from :
    (v : Env) (ptr size : ℕ) (t : Trail) (b : RbBlock) (k : Stack) (p : Process)
    → process_rb_search_range p.block_table ptr size ≡ some (t, b)
    → stack_of p b.stack_node ≡ ok k
    → is_mmap k.operation ≡ true
    → unmap_block v ptr size t b p ≡ unmap_from v ptr size t b p
unfolding unmap_block
unmap_block-unmap_from v ptr size t b k p hit of_b mapped =
    rw (of_b, Ends) (rw (mapped, ◌>>=◌) (rw (hit_above p.block_table ptr size t b hit) refl))
