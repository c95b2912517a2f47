-- ===== src/Client/Reach.antt =====
-- client/client.c: the books of a process after any sequence of messages that allocate, free, unmap, scan
-- for leaks, add or delete a map, or end the process.
use mtrace.Base.{ℕ, zero, suc, ◌+◌, ◌*◌, ◌<◌, ◌≡◌, Bool, true, some, List, arith, ok}
use mtrace.Base.Word.{w64}
use mtrace.Message.{MtOperation}
use mtrace.Process.State.{Process, Env}
use mtrace.Process.Books.{Inv, Grown, references}
use mtrace.Client.Dispatch.{handler, handle}
use mtrace.Client.Handled.{keeps, StackIsMapped, Grown-self, handle-Grown}

-- The client has handled one message that keeps the books, and the process is still known.
pub data Step (v : Env) : Process → Process → Type 0 where
  step :
      (swap : Bool) (op : MtOperation) (bytes : List ℕ) {p q : Process}
      → keeps (handler op) ≡ true
      → StackIsMapped p bytes (handler op)
      → handle v swap op bytes p ≡ some (ok (some q))
      → Step v p q

-- It has handled so many messages.
pub data Reach (v : Env) (p : Process) : ℕ → Process → Type 0 where
  here : Reach v p zero p
  next : {n : ℕ} {q r : Process} → Reach v p n q → Step v q r → Reach v p (suc n) r

-- Let the books hold a sound state: the block table and the call stack table are balanced, their nodes and
-- the open reallocations point to call stacks that are there, `n_allocations` of the process and of each
-- call stack is the number of its blocks, `stack_trees` the number of call stacks, each `refcnt` the
-- number of references (modulo 2 ^ 64), and `malloc` does not fail. Then it is so again after any number of messages for a
-- process that stays known, among those for an allocation, a free, an unmapping, the end of a realloc, the
-- result of a leak scan, a map added or deleted, and an exit, where each call stack that comes with an
-- allocation or a free lies in mapped files; and the books hold at most two references more for each
-- message, as long as those that the messages can add fit into a counter. The messages of attach, fork,
-- detach and about-to-exit are not among them, and `bytes_used`, `total_allocations` and the counts of
-- leaks not in the state.
pub Reach-Grown :
    (v : Env) (p q : Process) (n : ℕ)
    → Inv v p
    → references p + 2 * n + 2 < w64
    → Reach v p n q
    → Grown v (2 * n) p q
Reach-Grown v p _ zero inv fits here = Grown-self v 0 p inv
Reach-Grown v p q (suc n) inv fits (next r (step swap op bytes kept mapped e)) =
    let g = Reach-Grown v p _ n inv (omega arith) r in
    let h = handle-Grown v op bytes _ q g.inv (omega (arith, g.grows)) swap kept mapped e in
    record { inv = h.inv; grows = omega (arith, g.grows, h.grows) }
