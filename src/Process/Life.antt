-- ===== src/Process/Life.antt =====
-- client/process.c: a new process, and its status.
use mtrace.Base.{ℕ, Bool, false, none, List, []}
use mtrace.Rbtree.{leaf}
use mtrace.Process.State.{Process, ProcessStatus, running}

-- `process_init`. The readers and writers that it chooses follow from the format.
unfoldable pub process_init : Bool → Bool → Bool → Process → Process
process_init swap_endian is_64bit attached p = record p {
  format = record { is_64bit = is_64bit; swap_endian = swap_endian };
  attached = attached;
  status = running;
}

-- `process_new`, on a heap that has no call stack yet and will answer as `memory` says.
unfoldable pub process_new : ℕ → Bool → Bool → List Bool → Process
process_new pid swap_endian tracing memory = process_init swap_endian false false (record {
  status = running;
  pid = pid;
  bytes_used = 0;
  n_allocations = 0;
  total_allocations = 0;
  leaks = 0;
  leaked_bytes = 0;
  stack_trees = 0;
  block_table = leaf;
  stack_table = leaf;
  realloc_list = [];
  filename = none;
  map_list = [];
  tsc = 0;
  tracing = tracing;
  attached = false;
  format = record { is_64bit = false; swap_endian = false };
  rb_stacks = λ i. none;
  stacks = λ i. none;
  fresh = 0;
  memory = memory;
})

unfoldable pub process_set_status : Process → ProcessStatus → Process
process_set_status p status = record p { status = status }
