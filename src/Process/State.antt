-- ===== src/Process/State.antt =====
-- client/process.h and client/process.c: the structures. Pointers to `struct rb_stack` and
-- `struct stack` are numbers that two stores map to the structure, or to nothing once it is freed.
-- A `struct rb_block` is reached through the block table alone, so the table holds it by value.
use mtrace.Base.{ℕ, Bool, true, false, Option, List, [], ◌∷◌, ◌==◌, if◌then◌else◌}
use mtrace.Message.{MtOperation}
use mtrace.Message.Wire.{Format}
use mtrace.Rbtree.{Tree, Rebalance}

-- The bits BLOCK_LEAKED, BLOCK_SCANNED and BLOCK_IGNORE of `flags`.
pub record Flags : Type 0 where
  pub leaked : Bool
  pub scanned : Bool
  pub ignored : Bool

abbrev pub no_flags : Flags
no_flags = record { leaked = false; scanned = false; ignored = false }

pub record RbBlock : Type 0 where
  pub flags : Flags
  pub addr : ℕ
  pub size : ℕ
  pub stack_node : ℕ

-- `size` is the length of `addrs`; `syms` serves the printed dump alone and is left out.
pub record Stack : Type 0 where
  pub refcnt : ℕ
  pub addrs : List ℕ
  pub operation : MtOperation
  pub ignore : Bool

pub record RbStack : Type 0 where
  pub stack : ℕ
  pub refcnt : ℕ
  pub leaks : ℕ
  pub n_allocations : ℕ
  pub total_allocations : ℕ
  pub bytes_used : ℕ
  pub bytes_leaked : ℕ
  pub tsc : ℕ
  pub n_mismatched : ℕ
  pub n_badfree : ℕ

pub record ReallocEntry : Type 0 where
  pub pid : ℕ
  pub addr : ℕ
  pub size : ℕ
  pub flags : Flags
  pub stack_node : Option ℕ

pub data ProcessStatus : Type 0 where
  running exit exiting ignore detach : ProcessStatus

abbrev pub Store : Type 0 → Type 0
Store A = ℕ → Option A

module _ {A : Type 0} where
  abbrev pub update : Store A → ℕ → Option A → Store A
  update h i c j = if i == j then c else h j

-- A file that the traced process has mapped. A `struct bin_file` is a number.
pub record Map : Type 0 where
  pub offset : ℕ
  pub addr : ℕ
  pub size : ℕ
  pub bias : ℕ
  pub filename : List ℕ
  pub binfile : Option ℕ
  pub ignore : Bool

-- `rb_stacks`, `stacks`, `fresh` and `memory` are the heap: the two stores, the next pointer that
-- `malloc` returns, and whether it does, call by call (once the list is used up it succeeds).
pub record Process : Type 0 where
  pub status : ProcessStatus
  pub pid : ℕ
  pub bytes_used : ℕ
  pub n_allocations : ℕ
  pub total_allocations : ℕ
  pub leaks : ℕ
  pub leaked_bytes : ℕ
  pub stack_trees : ℕ
  pub block_table : Tree RbBlock
  pub stack_table : Tree ℕ
  pub realloc_list : List ReallocEntry
  pub filename : Option (List ℕ)
  pub map_list : List Map
  pub tsc : ℕ
  pub tracing : Bool
  pub attached : Bool
  pub format : Format
  pub rb_stacks : Store RbStack
  pub stacks : Store Stack
  pub fresh : ℕ
  pub memory : List Bool

-- What the code gets from outside: the options that stop on the first error and that wait for commands,
-- rbtree.c for the two tables, the name that bfd has for an address of a mapped file, if the file can be
-- opened and has one, whether one of the ignore expressions matches a name (regexec), and the contents of
-- memory that `malloc` does not clear.
pub record Env : Type 1 where
  pub kill : Bool
  pub interactive : Bool
  pub block_ops : Rebalance RbBlock
  pub stack_ops : Rebalance ℕ
  pub lookup : Map → ℕ → Option (List ℕ)
  pub ignores : List ℕ → Bool
  pub garbage : ℕ

-- `malloc`: whether it succeeds, and the heap behind it.
abbrev pub answer : List Bool → Bool
answer [] = true
answer (b ∷ bs) = b

abbrev pub answers : List Bool → List Bool
answers [] = []
answers (b ∷ bs) = bs
