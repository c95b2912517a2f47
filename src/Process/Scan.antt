-- ===== src/Process/Scan.antt =====
-- client/process.c: `process_scan`, the server's answer to a leak scan.
use mtrace.Base.{
  ℕ, zero, suc, ◌/◌, Bool, true, false, none, some, List, [], ◌∷◌, length, drop, Outcome, ok, ◌>>=◌,
}
use mtrace.Base.Word.{add64}
use mtrace.Message.Wire.{ptr_size, get_ulong}
use mtrace.Rbtree.{Trail, put}
use mtrace.Process.State.{RbBlock, Process}
use mtrace.Process.Stacks.{modify_stack}
use mtrace.Process.Blocks.{process_rb_search}
use mtrace.Process.Handlers.{or_fault}

abbrev pub as_leaked : RbBlock → RbBlock
as_leaked b = record b { flags = record (b.flags) { leaked = true } }

-- One block is found leaked for the first time.
unfoldable pub mark_leaked : Trail → RbBlock → Process → Outcome Process
mark_leaked t b p = do
  q ←
      modify_stack b.stack_node
        (λ s. record s { leaks = add64 s.leaks 1; bytes_leaked = add64 s.bytes_leaked b.size })
        (record p { block_table = put p.block_table t (as_leaked b) })
  ok (record q { leaks = add64 q.leaks 1; leaked_bytes = add64 q.leaked_bytes b.size })

-- One round: the Boolean tells whether the address is a new leak.
unfoldable pub scan_address : ℕ → Process → Outcome (Bool × Process)
scan_address a p = elim (process_rb_search p.block_table a) [
  | none ↦ ok (false, p)
  | some (t, b) ↦ elim b.flags.leaked [
    | true ↦ ok (false, p)
    | false ↦ mark_leaked t b p >>= λ q. ok (true, q)
  ]
]

abbrev pub keep_new : Bool → ℕ → List ℕ → List ℕ
keep_new true a news = a ∷ news
keep_new false a news = news

-- The loop over the `n` addresses that are left. The list is what is written to `new_leaks`.
unfoldable pub scan_loop : ℕ → List ℕ → Process → Outcome (List ℕ × Process)
scan_loop zero leaks p = ok ([], p)
scan_loop (suc n) leaks p = do
  a ← or_fault (get_ulong p.format leaks)
  (is_new, q) ← scan_address a p
  (news, r) ← scan_loop n (drop (ptr_size p.format) leaks) q
  ok (keep_new is_new a news, r)

-- The books after the scan, with the new leaks that the report lists.
unfoldable pub process_scan : List ℕ → Process → Outcome (List ℕ × Process)
process_scan leaks p = scan_loop (length leaks / ptr_size p.format) leaks p
