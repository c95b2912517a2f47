-- ===== src/Process/Books/New.antt =====
-- client/process.c: `process_new` makes sound books.
use mtrace.Base.{ℕ, ◌≡◌, refl, Bool, true, List, All, total}
use mtrace.Process.State.{Env}
use mtrace.Process.Life.{process_init, process_new}
use mtrace.Process.Books.{Inv}

-- A new process has sound books, where memory is not exhausted: `n_allocations`, `stack_trees` and the
-- reference counts are the numbers of what they count.
pub process_new-Inv :
    (v : Env) (pid : ℕ) (swap_endian tracing : Bool) (memory : List Bool)
    → All (λ b. b ≡ true) memory
    → Inv v (process_new pid swap_endian tracing memory)
unfolding process_new process_init total
process_new-Inv v pid swap_endian tracing memory has = record {
  memory = has;
  blocks_balanced = v.block_ops.leaf-IsBalanced;
  stacks_balanced = v.stack_ops.leaf-IsBalanced;
  counted = refl;
  trees = refl;
  nodes = λ i s e. let no : ⊥ = cc in absurd no;
  blocks_known = tt;
  entries_known = tt;
  ids_known = tt;
  unused = λ i h. refl;
}
