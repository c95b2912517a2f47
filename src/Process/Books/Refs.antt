-- ===== src/Process/Books/Refs.antt =====
-- The references to a call stack, counted: none of the counters can wrap while there is room.
use mtrace.Base.{ℕ, ◌≤◌, ◌<◌, ◌≡◌, ◌==◌, false, Option, none, some, arith, total_mono}
use mtrace.Base.Word.{w64, sub64}
use mtrace.Process.State.{RbStack, Process}
use mtrace.Process.Books.{blocks, stack_ids, one, is, on, entry_on, is_some_of, refs, StackOk, Fits}

pub is-le : (i j : ℕ) → is i j ≤ 1
is-le i j = ground arith

is_some_of-le : (i : ℕ) (o : Option ℕ) → is_some_of i o ≤ 1
is_some_of-le i none = omega arith
is_some_of-le i (some j) = is-le i j

pub is_self : (i : ℕ) → is i i ≡ 1
is_self i = ground arith

pub is_other : (i j : ℕ) → (j == i) ≡ false → is i j ≡ 0
is_other i j h = ground arith

pub refs_bound : (p : Process) (i : ℕ) → Fits p → refs p i < w64
refs_bound p i room = omega (
  arith,
  total_mono (is i) one (λ j. is-le i j) (stack_ids p),
  total_mono (on i) one (λ b. is-le i b.stack_node) (blocks p),
  total_mono (entry_on i) (λ re. 1) (λ re. is_some_of-le i re.stack_node) p.realloc_list,
)

-- A reference count is exact, and stays above 0 if a reference goes and one is left.
pub refcnt_exact :
    (p : Process) (i : ℕ) (s : RbStack) → StackOk p i s → Fits p → s.refcnt ≡ refs p i
refcnt_exact p i s h room = omega (arith, refs_bound p i room, h.referred)

pub refcnt_live :
    (p : Process) (i : ℕ) (s : RbStack)
    → StackOk p i s
    → Fits p
    → 2 ≤ refs p i
    → (sub64 s.refcnt 1 == 0) ≡ false
refcnt_live p i s h room two = ground (arith, refs_bound p i room, refcnt_exact p i s h room)
