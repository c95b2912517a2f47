-- ===== src/Process/Blocks.antt =====
-- client/process.c: the table of open allocations.
use mtrace.Base.{
  ℕ, ◌==◌, ltb, leb, if◌then◌else◌, Bool, true, false, ◌&&◌, Option, none, some, [], ◌∷◌, Outcome,
  ok, aborted, fault, ◌>>=◌,
}
use mtrace.Base.Word.{add64, sub64, low32}
use mtrace.Rbtree.{Tree, leaf, node, Dir, left, right, Trail, rb_link_node}
use mtrace.Process.State.{Flags, RbBlock, Process, Env, answer, answers}
use mtrace.Process.Stacks.{modify_stack, stack_get, stack_put}

-- A found block: the pointer to it and what it holds.
abbrev pub Hit : Type 0
Hit = Trail × RbBlock

abbrev pub under : Dir → Option Hit → Option Hit
under d none = none
under d (some (t, b)) = some (d ∷ t, b)

-- The test of `process_rb_search_range` and of the collision report: the block starts in the range.
abbrev pub starts_in : ℕ → ℕ → RbBlock → Bool
starts_in addr size b = leb addr b.addr && ltb b.addr (add64 addr size)

abbrev pub at_least_one : ℕ → ℕ
at_least_one size = if size == 0 then 1 else size

unfoldable pub search_range_loop : Tree RbBlock → ℕ → ℕ → Option Hit
search_range_loop leaf addr size = none
search_range_loop (node c l b r) addr size = elim (starts_in addr size b) [
  | true ↦ some ([], b)
  | false ↦ elim (ltb addr b.addr) [
    | true ↦ under left (search_range_loop l addr size)
    | false ↦ under right (search_range_loop r addr size)
  ]
]

unfoldable pub process_rb_search_range : Tree RbBlock → ℕ → ℕ → Option Hit
process_rb_search_range t addr size = search_range_loop t addr (at_least_one size)

unfoldable pub process_rb_search : Tree RbBlock → ℕ → Option Hit
process_rb_search leaf addr = none
process_rb_search (node c l b r) addr = elim (addr == b.addr) [
  | true ↦ some ([], b)
  | false ↦ elim (ltb addr b.addr) [
    | true ↦ under left (process_rb_search l addr)
    | false ↦ under right (process_rb_search r addr)
  ]
]

abbrev pub unleaked : RbBlock → RbBlock
unleaked b = record b { flags = record (b.flags) { leaked = false } }

-- The first half of `process_release_mem`: a block that counts as leaked no longer does.
unfoldable pub release_leak : RbBlock → Process → Outcome (RbBlock × Process)
release_leak b p =
    if b.flags.leaked
    then (do
      q ←
          modify_stack b.stack_node
            (λ s. record s { leaks = sub64 s.leaks 1; bytes_leaked = sub64 s.bytes_leaked b.size })
            p
      ok (
        unleaked b,
        record q { leaks = sub64 q.leaks 1; leaked_bytes = sub64 q.leaked_bytes b.size },
      ))
    else ok (b, p)

-- `size` is an `unsigned int`. The result is the block, whose flags change, and the process.
unfoldable pub process_release_mem : RbBlock → ℕ → Process → Outcome (RbBlock × Process)
process_release_mem b size p = do
  (b', q) ← release_leak b p
  r ← modify_stack b'.stack_node (λ s. record s { bytes_used = sub64 s.bytes_used (low32 size) }) q
  ok (b', record r { bytes_used = sub64 r.bytes_used (low32 size) })

module _ (v : Env) where
  unfoldable pub process_rb_delete_block : Trail → RbBlock → Process → Outcome Process
  process_rb_delete_block t b p = do
    (b', q) ←
        process_release_mem b b.size
          (record p { block_table = v.block_ops.rb_erase p.block_table t })
    r ←
        modify_stack b'.stack_node (λ s. record s { n_allocations = sub64 s.n_allocations 1 })
          (record q { n_allocations = sub64 q.n_allocations 1 })
    stack_put b'.stack_node r

  -- The loop of `process_rb_insert_block`: it ends at the link for the new block, or stops at a
  -- collision if the option says so.
  unfoldable pub block_place : Tree RbBlock → ℕ → ℕ → Outcome Trail
  block_place leaf addr n = ok []
  block_place (node c l b r) addr n = elim (starts_in addr n b && v.kill) [
    | true ↦ aborted
    | false ↦ elim (ltb addr b.addr) [
      | true ↦ block_place l addr n >>= λ t. ok (left ∷ t)
      | false ↦ block_place r addr n >>= λ t. ok (right ∷ t)
    ]
  ]

  -- The part of `process_rb_insert_block` after its `malloc` call.
  unfoldable pub block_new : Trail → RbBlock → Process → Outcome Process
  block_new t b p = do
    q ←
        modify_stack b.stack_node
          (λ s. record s {
            n_allocations = add64 s.n_allocations 1;
            total_allocations = add64 s.total_allocations 1;
            bytes_used = add64 s.bytes_used b.size;
          })
          p
    r ← stack_get b.stack_node q
    ok (record r {
      block_table = v.block_ops.rb_insert_color (rb_link_node r.block_table t b) t;
      n_allocations = add64 r.n_allocations 1;
    })

  -- The Boolean is true for the result 0 and false for -1, when memory is exhausted.
  -- A null `stack` is followed only after `malloc` has succeeded.
  unfoldable pub process_rb_insert_block :
      ℕ → ℕ → Option ℕ → Flags → Process → Outcome (Bool × Process)
  process_rb_insert_block addr size stack flags p = do
    t ← block_place p.block_table addr (at_least_one size)
    let q = record p { memory = answers p.memory }
    elim (answer p.memory) [
      | false ↦ ok (false, q)
      | true ↦ elim stack [
        | none ↦ fault
        | some i ↦
            block_new t (record { flags = flags; addr = addr; size = size; stack_node = i }) q
            >>= λ r. ok (true, r)
      ]
    ]
