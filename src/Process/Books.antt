-- ===== src/Process/Books.antt =====
-- client/process.c: the invariant of the client's books, which are sound where both tables are balanced,
-- each pointer to a call stack is live, `n_allocations` of the process and of each call stack is the number
-- of its blocks modulo 2 ^ 64, `stack_trees` that of the call stacks, each reference count that of the
-- references, and `malloc` does not fail. It says nothing of `bytes_used`, `total_allocations`, `leaks`,
-- `leaked_bytes` and `bytes_leaked`, which the code does not keep right on every path; Books.Scan is about
-- the counts of leaks.
pub mod Reset
pub mod Order
pub mod New
pub mod Steps
pub mod Refs
pub mod Moved
pub mod Same
pub mod Delete
pub mod Insert
pub mod Add
pub mod Resolved
pub mod AddNew
pub mod Entries
pub mod Free
pub mod Done
pub mod Leaks
pub mod Mark
pub mod Scan
pub mod Unmap
pub mod Alloc
use mtrace.Base.{
  ℕ, ◌+◌, ◌%◌, ◌≤◌, ◌<◌, ◌≡◌, ◌==◌, if◌then◌else◌, Bool, true, Option, none, some, List, [], ◌∷◌,
  ◌++◌, total, All,
}
use mtrace.Base.Word.{w64}
use mtrace.Rbtree.{Tree, inorder, Rebalance}
use mtrace.Process.State.{RbBlock, Stack, RbStack, ReallocEntry, Process, Env}

abbrev pub blocks : Process → List RbBlock
blocks p = inorder p.block_table

abbrev pub stack_ids : Process → List ℕ
stack_ids p = inorder p.stack_table

-- The measures whose totals the counters hold.
abbrev pub one : {A : Type 0} → A → ℕ
one a = 1

abbrev pub is : ℕ → ℕ → ℕ
is i j = if j == i then 1 else 0

abbrev pub on : ℕ → RbBlock → ℕ
on i b = is i b.stack_node

abbrev pub is_some_of : ℕ → Option ℕ → ℕ
is_some_of i none = 0
is_some_of i (some j) = is i j

abbrev pub entry_on : ℕ → ReallocEntry → ℕ
entry_on i re = is_some_of i re.stack_node

abbrev pub size_on : ℕ → RbBlock → ℕ
size_on i b = if b.stack_node == i then b.size else 0

-- The references to a call stack: from its table, from open blocks and from reallocations.
abbrev pub refs : Process → ℕ → ℕ
refs p i = total (is i) (stack_ids p) + total (on i) (blocks p) + total (entry_on i) p.realloc_list

-- What the books hold for the call stack behind a pointer.
pub record StackOk (p : Process) (i : ℕ) (s : RbStack) : Type 0 where
  pub home : s.stack ≡ i
  pub stack : Stack
  pub stored : p.stacks i ≡ some stack
  pub same_refcnt : stack.refcnt ≡ s.refcnt
  pub listed : 1 ≤ total (is i) (stack_ids p)
  pub counted : s.n_allocations ≡ total (on i) (blocks p) % w64
  pub referred : s.refcnt ≡ refs p i % w64

abbrev pub IsKnown : Process → ℕ → Type 0
IsKnown p i = (s : RbStack) × (p.rb_stacks i ≡ some s)

-- An entry of a reallocation without a call stack has no block either.
abbrev pub OptionKnown : Process → ℕ → Option ℕ → Type 0
OptionKnown p addr none = addr ≡ 0
OptionKnown p addr (some i) = IsKnown p i

abbrev pub EntryKnown : Process → ReallocEntry → Type 0
EntryKnown p re = OptionKnown p re.addr re.stack_node

-- `malloc` has not failed and will not.
abbrev pub HasMemory : Process → Type 0
HasMemory p = All (λ b. b ≡ true) p.memory

-- Sound books. Of the counters only `n_allocations`, `stack_trees` and the reference counts are in it.
pub record Inv (v : Env) (p : Process) : Type 0 where
  pub memory : HasMemory p
  pub blocks_balanced : v.block_ops.IsBalanced p.block_table
  pub stacks_balanced : v.stack_ops.IsBalanced p.stack_table
  pub counted : p.n_allocations ≡ total one (blocks p) % w64
  pub trees : p.stack_trees ≡ total one (stack_ids p) % w64
  pub nodes : (i : ℕ) (s : RbStack) → p.rb_stacks i ≡ some s → StackOk p i s
  pub blocks_known : All (λ b. IsKnown p b.stack_node) (blocks p)
  pub entries_known : All (EntryKnown p) p.realloc_list
  pub ids_known : All (IsKnown p) (stack_ids p)
  pub unused : (i : ℕ) → p.fresh ≤ i → p.rb_stacks i ≡ none

-- The references that the books hold.
abbrev pub references : Process → ℕ
references p =
    total one (stack_ids p) + total one (blocks p) + total (λ (re : ReallocEntry). 1) p.realloc_list

-- Fewer references than a counter of 64 bits can hold, with room for the two that a free can add.
abbrev pub Fits : Process → Type 0
Fits p = references p < w64

abbrev pub HasRoom : Process → Type 0
HasRoom p = references p + 2 < w64

-- The books are sound, and hold at most so many references more.
pub record Grown (v : Env) (n : ℕ) (p q : Process) : Type 0 where
  pub inv : Inv v q
  pub grows : references q ≤ references p + n
