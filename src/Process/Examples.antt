-- ===== src/Process/Examples.antt =====
-- client/process.c: the searches, reports, scan requests and maps on small inputs.
use mathlib.Core.Path.{◌≡◌, refl}
use mtrace.Base.{
  ◌/◌, Option, some, none, ℕ, true, false, List, [], ◌∷◌, ◌++◌, Outcome, ok, ◌>>=◌, arith,
}
use mtrace.Message.Wire.{val, Format, put_ulong}
use mtrace.Process.State.{Process}
use mtrace.Process.Stacks.{memncmp}
use mtrace.Process.Compare.{lex, memncmp-lex}
use mtrace.Process.State.{RbStack}
use mtrace.Process.Report.{usage, sortby}
use mtrace.Process.Report.Order.{keys, sortby-lex}
use mtrace.Process.LeakScan.{
  ScanRequest, scan_new, process_leaks_scan, flags_of, block_foreach, trails, set_block, is_wanted,
  put_word, narrow, clear_bits,
}
use mtrace.Process.State.{Map}
use mtrace.Process.Maps.{Maps, new_map, copy_name, field64, process_add_map, process_del_map}
use mtrace.Process.Maps.Roundtrip.{process_del_map-add_map}
use mtrace.Process.State.{no_flags, RbBlock}
use mtrace.Process.Blocks.{process_rb_insert_block, process_rb_delete_block}
use mtrace.Process.Books.{IsKnown}
use mtrace.Process.Books.Order.{
  Opened, Closed, block_of, process_rb_insert_block-Opened, process_rb_delete_block-Closed,
}
use mtrace.Base.{Bool, true, false}
use mtrace.Message.{mt_mmap}
use mtrace.Process.Unmap.{unmap_block, unmap_from}
use mtrace.Process.Unreached.{unmap_block-unmap_from}
use mtrace.Process.Blocks.{process_rb_search_range}
use mtrace.Base.{false}
use mtrace.Process.Reset.{
  process_reinit, process_reset, reset_stacks, process_reset_allocations, reset_blocks, reset_block,
  reset_entries, postorder,
}
use mtrace.Process.Tests.{p2}
use mtrace.Process.Tests.{state}
use mtrace.Process.Tests.{program, env, fresh_process, p1, p1-Grown}

memncmp-lex_example : memncmp (1 ∷ 2 ∷ []) (1 ∷ []) ≡ lex (1 ∷ 2 ∷ []) (1 ∷ [])
memncmp-lex_example = memncmp-lex (1 ∷ 2 ∷ []) (1 ∷ [])

abbrev stack_with : ℕ → ℕ → RbStack
stack_with bytes time = record {
  stack = 1;
  refcnt = 1;
  leaks = 0;
  n_allocations = 1;
  total_allocations = 1;
  bytes_used = bytes;
  bytes_leaked = 0;
  tsc = time;
  n_mismatched = 0;
  n_badfree = 0;
}

sortby-lex_example :
    sortby (λ a b. a / b) usage (stack_with 9 1) (stack_with 7 2)
    ≡ lex (keys (λ a b. a / b) usage (stack_with 7 2)) (keys (λ a b. a / b) usage (stack_with 9 1))
sortby-lex_example = sortby-lex (λ a b. a / b) usage (stack_with 9 1) (stack_with 7 2)

abbrev asked : Outcome ((ℕ × Option ScanRequest) × Process) → (ℕ × Option ScanRequest) × Process
asked (ok r) = r
asked _ = ((0, none), fresh_process)

scan_mask :
    (asked (process_leaks_scan p1 scan_new)).0
    ≡ (1, some (record { ptr_bytes = 4; mask_bits = 12; addrs = 4096 ∷ [] }))
unfolding program process_leaks_scan flags_of block_foreach trails set_block is_wanted put_word
    narrow clear_bits
scan_mask = refl

abbrev wide : Format
wide = record { is_64bit = true; swap_endian = false }

-- A file that is mapped at 65536, in 32 bytes and its name.
abbrev map_payload : List ℕ
map_payload =
    put_ulong wide 65536
    ++ put_ulong wide 0
    ++ put_ulong wide 4096
    ++ put_ulong wide 0
    ++ 47 ∷ 97 ∷ []

abbrev no_maps : Maps
no_maps = record { filename = none; map_list = [] }

process_del_map-add_map_example :
    (process_add_map wide no_maps map_payload >>= λ q. process_del_map wide q map_payload)
    ≡ ok (record { filename = some (47 ∷ 97 ∷ []); map_list = [] })
unfolding program val field64 copy_name
process_del_map-add_map_example =
    process_del_map-add_map wide no_maps map_payload 65536 0 4096 0 refl refl refl refl tt

abbrev some_map : Map
some_map = new_map 65536 0 4096 0 (47 ∷ 97 ∷ []) 2 none

first-IsKnown : IsKnown p1 0
unfolding program
first-IsKnown = (_, refl)

-- A second block on the call stack of the first, and the first is deleted.
abbrev inserted_at : Outcome (Bool × Process) → Bool × Process
inserted_at (ok r) = r
inserted_at _ = (false, fresh_process)

abbrev result : Bool × Process
result = inserted_at (process_rb_insert_block env 5000 16 (some 0) no_flags p1)

process_rb_insert_block-Opened_example :
    (result.0 ≡ true) × Opened p1 result.1 (block_of 5000 16 0 no_flags)
unfolding program
process_rb_insert_block-Opened_example =
    process_rb_insert_block-Opened env 5000 16 0 no_flags p1 p1-Grown.inv first-IsKnown

abbrev first_block : RbBlock
first_block = record { flags = no_flags; addr = 4096; size = 100; stack_node = 0 }

process_rb_delete_block-Closed_example :
    Closed p1 (state (process_rb_delete_block env [] first_block p1)) first_block
unfolding program
process_rb_delete_block-Closed_example =
    process_rb_delete_block-Closed env [] first_block p1 p1-Grown.inv (omega arith) refl
      first-IsKnown

-- The block at 4096 is found for a range that starts at 4000.
unmap_block-unmap_from_example :
    unmap_block env 4000 150 [] first_block p1 ≡ unmap_from env 4000 150 [] first_block p1
unfolding program
unmap_block-unmap_from_example =
    unmap_block-unmap_from env 4000 150 [] first_block
      (record { refcnt = 2; addrs = 1 ∷ 2 ∷ []; operation = mt_mmap; ignore = false }) p1 refl refl
      refl

-- A range in the middle of the mapping finds nothing, so the mapping stays whole.
middle_stays : process_rb_search_range p1.block_table 4106 10 ≡ none
unfolding program
middle_stays = refl

-- A process with a block and a pending reallocation is set up anew.
abbrev anew : Outcome Process → ℕ × ℕ × Bool
anew (ok p) = (p.n_allocations, p.stack_trees, p.format.is_64bit)
anew _ = (9, 9, false)

reinit : anew (process_reinit p2 false true false) ≡ (0, 0, true)
unfolding program process_reinit process_reset reset_stacks process_reset_allocations reset_blocks
    reset_block reset_entries postorder
reinit = refl
