-- ===== src/Process/Handlers.antt =====
-- client/process.c: the handlers of the allocation messages.
use mtrace.Base.{
  ℕ, zero, suc, ◌+◌, ◌==◌, if◌then◌else◌, Bool, true, false, not, ◌&&◌, Option, none, some, List,
  [], ◌∷◌, ◌++◌, length, drop, Outcome, ok, aborted, fault, diverged, ◌>>=◌,
}
use mtrace.Base.Word.{add64, low32}
use mtrace.Message.{
  MtOperation, mt_malloc, mt_realloc, mt_realloc_enter, mt_memalign, mt_posix_memalign,
  mt_aligned_alloc, mt_valloc, mt_pvalloc, mt_free, mt_new, mt_new_array, mt_delete,
  mt_delete_array, mt_mmap, mt_mmap64,
}
use mtrace.Message.Wire.{Format, ptr_size, get_ulong}
use mtrace.Rbtree.{Trail, inorder}
use mtrace.Process.State.{
  Flags, no_flags, RbBlock, RbStack, ReallocEntry, Process, Env, answer, answers,
}
use mtrace.Process.Stacks.{modify_stack, stack_of, stack_get, stack_add}
use mtrace.Process.Blocks.{
  process_rb_search_range, process_rb_search, process_rb_delete_block, process_rb_insert_block,
}

-- `mt_alloc_payload_32` or `mt_alloc_payload_64`: two integers, and the call stack behind them.
pub record AllocPayload : Type 0 where
  pub ptr : ℕ
  pub size : ℕ
  pub data_bytes : List ℕ

abbrev pub or_fault : Option ℕ → Outcome ℕ
or_fault none = fault
or_fault (some n) = ok n

unfoldable pub alloc_payload : Format → List ℕ → Outcome AllocPayload
alloc_payload f bytes = do
  ptr ← or_fault (get_ulong f bytes)
  size ← or_fault (get_ulong f (drop (ptr_size f) bytes))
  ok (record { ptr = ptr; size = size; data_bytes = drop (ptr_size f + ptr_size f) bytes })

abbrev pub is_empty : List ℕ → Bool
is_empty [] = true
is_empty (b ∷ bs) = false

unfoldable pub is_mmap : MtOperation → Bool
is_mmap mt_mmap = true
is_mmap mt_mmap64 = true
is_mmap _ = false

abbrev pub frees_heap : MtOperation → Bool
frees_heap mt_free = true
frees_heap mt_realloc_enter = true
frees_heap _ = false

abbrev pub is_delete : MtOperation → Bool
is_delete mt_delete = true
is_delete _ = false

abbrev pub is_delete_array : MtOperation → Bool
is_delete_array mt_delete_array = true
is_delete_array _ = false

-- Whether a block of the first operation may be released by the second.
unfoldable pub is_sane : MtOperation → MtOperation → Bool
is_sane mt_malloc op = frees_heap op
is_sane mt_realloc op = frees_heap op
is_sane mt_memalign op = frees_heap op
is_sane mt_posix_memalign op = frees_heap op
is_sane mt_aligned_alloc op = frees_heap op
is_sane mt_valloc op = frees_heap op
is_sane mt_pvalloc op = frees_heap op
is_sane mt_new op = is_delete op
is_sane mt_new_array op = is_delete_array op
is_sane _ op = false

abbrev pub is_realloc_enter : MtOperation → Bool
is_realloc_enter mt_realloc_enter = true
is_realloc_enter _ = false

-- `list_add_tail` of a new entry. `pid` is kept as an `unsigned int`.
unfoldable pub realloc_add : ℕ → ℕ → ℕ → Flags → Option ℕ → Process → Outcome Process
realloc_add pid addr size flags stack p =
    let re : ReallocEntry = record {
      pid = low32 pid;
      addr = addr;
      size = size;
      flags = flags;
      stack_node = stack;
    } in
    let add = λ (q : Process). record q { realloc_list = q.realloc_list ++ re ∷ [] } in
    let q = record p { memory = answers p.memory } in
    elim (answer p.memory) [
      | false ↦ fault
      | true ↦ elim stack [ none ↦ ok (add q) | some i ↦ stack_get i q >>= λ r. ok (add r) ]
    ]

-- More rounds than there are blocks.
abbrev pub rounds : Process → ℕ
rounds p = suc (length (inorder p.block_table))

module _ (v : Env) where
  -- `stack = stack_add(…); stack->n_mismatched++` or `n_badfree++`, and the time stamp.
  unfoldable pub note_error : List ℕ → MtOperation → (RbStack → RbStack) → Process → Outcome Process
  note_error addrs op count p = do
    (stack, q) ← stack_add v addrs op p
    elim stack [
      | none ↦ fault
      | some i ↦
          modify_stack i (λ s. record (count s) { tsc = q.tsc }) (record q { tsc = add64 q.tsc 1 })
    ]

  abbrev pub mismatched : RbStack → RbStack
  mismatched s = record s { n_mismatched = add64 s.n_mismatched 1 }

  abbrev pub badfree : RbStack → RbStack
  badfree s = record s { n_badfree = add64 s.n_badfree 1 }

  -- The branch of `process_free` for a block that is open.
  unfoldable pub free_block :
      MtOperation → AllocPayload → Trail → RbBlock → Process → Outcome Process
  free_block op m t b p = do
    k ← stack_of p b.stack_node
    elim (is_mmap k.operation && v.kill) [
      | true ↦ aborted
      | false ↦ do
        q ←
            (if not (is_empty m.data_bytes) && not (is_sane k.operation op)
              then note_error m.data_bytes op mismatched p
              else ok p)
        r ←
            (if is_realloc_enter op
              then realloc_add m.size b.addr b.size b.flags (some b.stack_node) q
              else ok q)
        process_rb_delete_block v t b r
    ]

  -- Its branch for a pointer that is not known.
  unfoldable pub free_unknown : MtOperation → AllocPayload → Process → Outcome Process
  free_unknown op m p = elim (not p.attached && v.kill) [
    | true ↦ aborted
    | false ↦ do
      q ←
          (if not p.attached && not (is_empty m.data_bytes)
            then note_error m.data_bytes op badfree p
            else ok p)
      if is_realloc_enter op then realloc_add m.size 0 0 no_flags none q else ok q
  ]

  unfoldable pub process_free : MtOperation → List ℕ → Process → Outcome Process
  process_free op bytes p = elim p.tracing [
    | false ↦ ok p
    | true ↦ do
      m ← alloc_payload p.format bytes
      elim (m.ptr == 0) [
        | true ↦ ok p
        | false ↦ elim (process_rb_search p.block_table m.ptr) [
          | none ↦ free_unknown op m p
          | some (t, b) ↦ free_block op m t b p
        ]
      ]
  ]

  -- The loop of `process_alloc` that drops the blocks which start in the new one. Each round takes
  -- one block out of the table; the fuel counts the rounds.
  unfoldable pub drop_collisions : ℕ → ℕ → ℕ → Process → Outcome Process
  drop_collisions zero ptr size p = diverged
  drop_collisions (suc fuel) ptr size p = elim (process_rb_search_range p.block_table ptr size) [
    | none ↦ ok p
    | some (t, b) ↦ elim v.kill [
      | true ↦ aborted
      | false ↦ process_rb_delete_block v t b p >>= λ q. drop_collisions fuel ptr size q
    ]
  ]

  -- The end of `process_alloc`, once the table has no block that starts in the new one.
  unfoldable pub alloc_block : MtOperation → AllocPayload → Process → Outcome Process
  alloc_block op m p = do
    (stack, q) ← stack_add v m.data_bytes op p
    (inserted, r) ← process_rb_insert_block v m.ptr m.size stack no_flags q
    elim inserted [
      | false ↦ ok r
      | true ↦ elim stack [
        | none ↦ fault
        | some i ↦
            modify_stack i (λ s. record s { tsc = r.tsc })
              (record r {
                total_allocations = add64 r.total_allocations 1;
                bytes_used = add64 r.bytes_used m.size;
                tsc = add64 r.tsc 1;
              })
      ]
    ]

  unfoldable pub process_alloc : MtOperation → List ℕ → Process → Outcome Process
  process_alloc op bytes p = elim p.tracing [
    | false ↦ ok p
    | true ↦ do
      m ← alloc_payload p.format bytes
      q ← drop_collisions (rounds p) m.ptr m.size p
      alloc_block op m q
  ]
