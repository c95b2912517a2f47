-- ===== src/Process/Tests.antt =====
-- client/process.c: runs of the handlers on small books.
use mathlib.Core.Path.{◌≡◌, refl}
use mtrace.Base.{
  ℕ, true, false, List, [], ◌∷◌, ◌++◌, Outcome, ok, map, total, ◌>>=◌, arith, none, Ends,
}
use mtrace.Message.{mt_malloc, mt_free, mt_mmap, mt_realloc_enter, MtOperation-discrete}
use mtrace.Message.Wire.{Format, put_ulong, get_ulong, load, bswap, bytes_le, value_le}
use mtrace.Rbtree.{inorder, put, get, rb_link_node}
use mtrace.Rbtree.Plain.{plain, cut}
use mtrace.Process.State.{Process, Env, Map}
use mtrace.Process.Resolv.{covers, locate_map, resolv_address, resolv_all, stack_resolv, IsMapped}
use mtrace.Process.Stacks.{
  memcmp, memncmp, modify_stack, stack_of, stack_get, stack_put, stack_place, stack_hang, stack_new,
  stack_malloc, stack_add,
}
use mtrace.Process.Blocks.{
  search_range_loop, process_rb_search_range, process_rb_search, release_leak, process_release_mem,
  process_rb_delete_block, block_place, block_new, process_rb_insert_block,
}
use mtrace.Process.Handlers.{
  alloc_payload, is_mmap, is_sane, realloc_add, note_error, free_block, free_unknown, process_free,
  drop_collisions, alloc_block, process_alloc,
}
use mtrace.Process.Unmap.{
  unmap_from, unmap_split, unmap_below, unmap_block, unmap_loop, process_munmap,
}
use mtrace.Process.Realloc.{realloc_find, realloc_del, realloc_undo, process_realloc_done}
use mtrace.Process.Reset.{
  process_reset_allocations, reset_blocks, reset_block, reset_entries, postorder,
}
use mtrace.Process.Books.Reset.{Emptied, process_reset_allocations-Emptied}
use mtrace.Process.Life.{process_init, process_new}
use mtrace.Process.Scan.{mark_leaked, scan_address, scan_loop, process_scan}
use mtrace.Process.Handlers.{AllocPayload}
use mtrace.Process.Books.{Inv, Grown}
use mtrace.Process.Books.Alloc.{process_alloc-Grown, Cleared, drop_collisions-Cleared}
use mtrace.Process.Books.Free.{process_free-Grown}
use mtrace.Process.Books.Unmap.{process_munmap-Grown}
use mtrace.Process.Books.Done.{process_realloc_done-Grown}
use mtrace.Process.Books.Same.{same-Inv}
use mtrace.Process.Books.Leaks.{AreLeaks}
use mtrace.Process.Books.Scan.{AllReported, words, process_scan-Marked}
use mtrace.Process.Books.New.{process_new-Inv}

unfoldable pub program : Unit {0}
unfolding cut put rb_link_node get put_ulong get_ulong load bswap bytes_le value_le
    MtOperation-discrete memcmp memncmp modify_stack stack_of stack_get stack_put stack_place
    stack_new stack_malloc stack_add search_range_loop process_rb_search_range process_rb_search
    release_leak process_release_mem process_rb_delete_block block_place block_new
    process_rb_insert_block alloc_payload is_mmap is_sane realloc_add note_error free_block
    free_unknown process_free drop_collisions alloc_block process_alloc unmap_from unmap_split
    unmap_below unmap_block unmap_loop process_munmap realloc_find realloc_del realloc_undo
    process_realloc_done mark_leaked scan_address scan_loop process_scan process_init process_new
    total covers locate_map resolv_address resolv_all stack_resolv stack_hang
program = tt

abbrev pub env : Env
env = record {
  kill = false;
  interactive = true;
  block_ops = plain;
  stack_ops = plain;
  lookup = λ m a. none;
  ignores = λ a. false;
  garbage = 77;
}

abbrev pub fmt : Format
fmt = record { is_64bit = false; swap_endian = false }

abbrev pub fresh_process : Process
fresh_process = process_new 42 false true []

abbrev pub msg : ℕ → ℕ → List ℕ → List ℕ
msg ptr size stack = put_ulong fmt ptr ++ put_ulong fmt size ++ stack

abbrev addrs_of : Outcome Process → List (ℕ × ℕ)
addrs_of (ok p) = map (λ b. (b.addr, b.size)) (inorder p.block_table)
addrs_of _ = (0, 0) ∷ []

abbrev count_of : Outcome Process → ℕ × ℕ × ℕ
count_of (ok p) = (p.n_allocations, p.bytes_used, p.stack_trees)
count_of _ = (9, 9, 9)

abbrev two : Outcome Process
two = do
  p ← process_alloc env mt_malloc (msg 4096 100 (1 ∷ 2 ∷ [])) fresh_process
  q ← process_alloc env mt_mmap (msg 8192 4096 (1 ∷ 3 ∷ [])) p
  process_alloc env mt_malloc (msg 4096 200 (1 ∷ 2 ∷ [])) q

two_blocks : addrs_of two ≡ (4096, 200) ∷ (8192, 4096) ∷ []
unfolding program
two_blocks = refl

two_counts : count_of two ≡ (2, 4296, 2)
unfolding program
two_counts = refl

freed : addrs_of (two >>= process_free env mt_free (msg 4096 7 [])) ≡ (8192, 4096) ∷ []
unfolding program
freed = refl

unmapped :
    addrs_of (two >>= process_munmap env (msg 8000 1000 [])) ≡ (4096, 200) ∷ (9000, 3288) ∷ []
unfolding program
unmapped = refl

unmapped_counts : count_of (two >>= process_munmap env (msg 8000 1000 [])) ≡ (2, 3488, 2)
unfolding program
unmapped_counts = refl

abbrev pub state : Outcome Process → Process
state (ok p) = p
state _ = fresh_process

abbrev pub alloc_msg : List ℕ
alloc_msg = msg 4096 100 (1 ∷ 2 ∷ [])

abbrev pub payload : ℕ → ℕ → List ℕ → AllocPayload
payload ptr size addrs = record { ptr = ptr; size = size; data_bytes = addrs }

pub fresh-Inv : Inv env fresh_process
fresh-Inv = process_new-Inv env 42 false true [] tt

abbrev pub p1 : Process
p1 = state (process_alloc env mt_mmap alloc_msg fresh_process)

pub p1-Grown : Grown env 2 fresh_process p1
unfolding program
p1-Grown =
    process_alloc-Grown env mt_mmap alloc_msg fresh_process (payload 4096 100 (1 ∷ 2 ∷ []))
      fresh-Inv (omega arith) refl tt

-- A process with a mapped file, in which the one address of the call stack lies.
abbrev mapped_file : Map
mapped_file = record {
  offset = 0;
  addr = 4096;
  size = 8192;
  bias = 0;
  filename = 97 ∷ [];
  binfile = none;
  ignore = false;
}

abbrev with_map : Process
with_map = record fresh_process { map_list = mapped_file ∷ [] }

with_map-Inv : Inv env with_map
with_map-Inv =
    same-Inv env {q = with_map}
      (record {
        rb_stacks = refl;
        stacks = refl;
        block_table = refl;
        stack_table = refl;
        realloc_list = refl;
        n_allocations = refl;
        stack_trees = refl;
        fresh = refl;
      })
      fresh-Inv.memory fresh-Inv

abbrev in_map : List ℕ
in_map = put_ulong fmt 4100

in_map-IsMapped : IsMapped with_map in_map
unfolding program
in_map-IsMapped = ((4100, refl, mapped_file, refl), tt)

process_alloc-Grown_example :
    Grown env 2 with_map (state (process_alloc env mt_mmap (msg 4096 100 in_map) with_map))
unfolding program
process_alloc-Grown_example =
    process_alloc-Grown env mt_mmap (msg 4096 100 in_map) with_map (payload 4096 100 in_map)
      with_map-Inv (omega arith) refl in_map-IsMapped

-- A `free` of a block that `mmap` has made: the mismatch is noted under a call stack of its own.
abbrev pub free_msg : List ℕ
free_msg = msg 4096 7 (5 ∷ [])

process_free-Grown_example : Grown env 2 p1 (state (process_free env mt_free free_msg p1))
unfolding program
process_free-Grown_example =
    process_free-Grown env mt_free free_msg p1 (payload 4096 7 (5 ∷ [])) p1-Grown.inv (omega arith)
      refl tt

process_munmap-Grown_example : Grown env 0 p1 (state (process_munmap env (msg 4000 150 []) p1))
unfolding program
process_munmap-Grown_example =
    process_munmap-Grown env (msg 4000 150 []) p1 (payload 4000 150 []) p1-Grown.inv (omega arith)
      refl

-- A reallocation begins, and fails.
abbrev pub p2 : Process
p2 = state (process_free env mt_realloc_enter free_msg p1)

pub p2-Grown : Grown env 2 p1 p2
unfolding program
p2-Grown =
    process_free-Grown env mt_realloc_enter free_msg p1 (payload 4096 7 (5 ∷ [])) p1-Grown.inv
      (omega arith) refl tt

process_realloc_done-Grown_example :
    Grown env 1 p2 (state (process_realloc_done env (msg 0 7 []) p2))
unfolding program
process_realloc_done-Grown_example =
    process_realloc_done-Grown env (msg 0 7 []) p2 (payload 0 7 []) p2-Grown.inv (omega arith) refl

-- A scan reports the block, and an address without one.
abbrev reported : List ℕ
reported = put_ulong fmt 4096 ++ put_ulong fmt 9

p1-AreLeaks : AreLeaks p1
unfolding program
p1-AreLeaks = record {
  leaks = refl;
  leaked_bytes = refl;
  stack_leaks = λ i s h. ground arith;
  stack_bytes = λ i s h. ground arith;
}

process_scan-Marked_example :
    Ends ⊥
      (λ r. AreLeaks r.1 × AllReported p1.format (words p1 reported) reported r.1)
      (process_scan reported p1)
process_scan-Marked_example = process_scan-Marked env reported p1 p1-Grown.inv p1-AreLeaks

abbrev leak_counts : Outcome (List ℕ × Process) → List ℕ × ℕ × ℕ
leak_counts (ok r) = (r.0, r.1.leaks, r.1.leaked_bytes)
leak_counts _ = ([], 9, 9)

scanned_counts : leak_counts (process_scan reported p1) ≡ (4096 ∷ [], 1, 100)
unfolding program
scanned_counts = refl

drop_collisions-Cleared_example :
    Cleared env 4000 200 p1 (state (drop_collisions env 2 4000 200 p1))
unfolding program
drop_collisions-Cleared_example =
    drop_collisions-Cleared env 2 4000 200 p1 p1-Grown.inv (omega arith) (omega arith)

process_new-Inv_example : Inv env (process_new 42 true false (true ∷ []))
process_new-Inv_example = process_new-Inv env 42 true false (true ∷ []) (refl, tt)

process_reset_allocations-Emptied_example : Emptied env (state (process_reset_allocations p2))
unfolding program process_reset_allocations reset_blocks reset_block reset_entries postorder
process_reset_allocations-Emptied_example =
    process_reset_allocations-Emptied env p2 p2-Grown.inv (omega arith)
