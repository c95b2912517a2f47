-- ===== src/Process/Realloc.antt =====
-- client/process.c: `process_realloc_done`, which ends what a realloc message has begun.
use mtrace.Base.{
  ℕ, ◌==◌, true, false, not, ◌&&◌, Option, none, some, List, [], ◌∷◌, Outcome, ok, aborted, fault,
  ◌>>=◌,
}
use mtrace.Base.Word.{low32}
use mtrace.Process.State.{ReallocEntry, Process, Env}
use mtrace.Process.Stacks.{stack_of, stack_put}
use mtrace.Process.Blocks.{process_rb_insert_block}
use mtrace.Process.Handlers.{alloc_payload}

-- The first entry of the thread, and the list without it.
abbrev pub and_skip :
    ReallocEntry
    → Option (ReallocEntry × List ReallocEntry)
    → Option (ReallocEntry × List ReallocEntry)
and_skip re none = none
and_skip re (some (e, rest)) = some (e, re ∷ rest)

unfoldable pub realloc_find : ℕ → List ReallocEntry → Option (ReallocEntry × List ReallocEntry)
realloc_find pid [] = none
realloc_find pid (re ∷ res) = elim (re.pid == pid) [
  | true ↦ some (re, res)
  | false ↦ and_skip re (realloc_find pid res)
]

-- `realloc_del`, given the list without the entry.
unfoldable pub realloc_del : ReallocEntry → List ReallocEntry → Process → Outcome Process
realloc_del re rest p = do
  q ← elim (re.stack_node) [ none ↦ ok p | some i ↦ stack_put i p ]
  ok (record q { realloc_list = rest })

module _ (v : Env) where
  -- A reallocation that failed brings the old block back.
  unfoldable pub realloc_undo : ReallocEntry → Process → Outcome Process
  realloc_undo re p = elim (re.stack_node) [
    | none ↦ fault
    | some i ↦ do
      k ← stack_of p i
      (inserted, q) ← process_rb_insert_block v re.addr re.size (some i) re.flags p
      ok q
  ]

  unfoldable pub process_realloc_done : List ℕ → Process → Outcome Process
  process_realloc_done bytes p = elim p.tracing [
    | false ↦ ok p
    | true ↦ do
      m ← alloc_payload p.format bytes
      elim (realloc_find (low32 m.size) p.realloc_list) [
        | none ↦ elim v.kill [ true ↦ aborted | false ↦ ok p ]
        | some (re, rest) ↦ do
          q ← elim (m.ptr == 0 && not (re.addr == 0)) [ true ↦ realloc_undo re p | false ↦ ok p ]
          realloc_del re rest q
      ]
  ]
