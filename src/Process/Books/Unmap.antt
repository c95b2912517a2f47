-- ===== src/Process/Books/Unmap.antt =====
-- client/process.c: `process_munmap` keeps the books sound.
use mtrace.Base.{
  ℕ, List, zero, suc, ◌≤◌, ◌<◌, ◌≡◌, refl, ap, inl, inr, ◌==◌, ltb, leb, true, false, some, arith,
  total, total_ones, Bool-cases, Option-cases, Outcome, ok, Ends, Ends-bind, Ends-map,
}
use mtrace.Base.Word.{add64, sub64, low32}
use mtrace.Rbtree.{Trail, get}
use mtrace.Process.State.{RbBlock, RbStack, ReallocEntry, Process, Env}
use mtrace.Process.Blocks.{starts_in, at_least_one, unleaked, process_rb_search_range}
use mtrace.Process.Handlers.{AllocPayload, alloc_payload, is_mmap, rounds}
use mtrace.Process.Unmap.{Round, stop, again, unmap_from, unmap_block, unmap_loop, process_munmap}
use mtrace.Process.Search.{search_range-IsAt}
use mtrace.Process.Books.{blocks, one, IsKnown, StackOk, Inv, Fits, Grown}
use mtrace.Process.Books.Steps.{
  with_rb_stack, released, release_mem-runs, stack_of-runs, used_less, unleak_stack,
}
use mtrace.Process.Books.Same.{same-Inv, touched-Inv, put-Inv, total_put, block-IsKnown}
use mtrace.Process.Books.Delete.{Fewer, delete-Fewer}

-- A round ends the loop, or goes on with a block less.
abbrev pub RoundOk : Env → Process → Round → Type 0
RoundOk v p (stop q) = Grown v 0 p q
RoundOk v p (again ptr size q) = Fewer v p q

-- Taking a size off the counters leaves the books sound.
pub released-Inv :
    (v : Env) (b : RbBlock) (size : ℕ) (p : Process) (s : RbStack)
    → Inv v p
    → p.rb_stacks b.stack_node ≡ some s
    → Inv v (released b size s p)
released-Inv v b size p s inv e =
    same-Inv v {p = with_rb_stack b.stack_node (used_less size (unleak_stack b s)) p}
      (record {
        rb_stacks = refl;
        stacks = refl;
        block_table = refl;
        stack_table = refl;
        realloc_list = refl;
        n_allocations = refl;
        stack_trees = refl;
        fresh = refl;
      })
      inv.memory
      (touched-Inv v p b.stack_node s (used_less size (unleak_stack b s)) inv e
        (record { stack = refl; refcnt = refl; n_allocations = refl }))

module _ (v : Env) (ptr size : ℕ) (t : Trail) (b : RbBlock) (p : Process) (inv : Inv v p)
    (fits : Fits p) (at : get p.block_table t ≡ some b) where
  known : IsKnown p b.stack_node
  known = block-IsKnown v p t b inv at

  unmap_from-Ok : Ends (v.kill ≡ true) (RoundOk v p) (unmap_from v ptr size t b p)
  unfolding unmap_from
  unmap_from-Ok = elim (Bool-cases (ltb left_size b.size)) [
    | inl e ↦
        rw (e, Ends)
          (rw (release_mem-runs b left_size p known.0 known.1) (record {
            inv = put-Inv v (released b left_size known.0 p) t b cut released_Inv at refl;
            grows = omega (
              arith,
              total_put v (released b left_size known.0 p) t b cut released_Inv at refl one refl,
            );
          }))
    | inr e ↦
        rw (e, Ends)
          (Ends-bind (v.kill ≡ true) (Fewer v p) (RoundOk v p) _ _
            (delete-Fewer v t b p known.0 inv fits at known.1 (v.kill ≡ true)) (λ q f. f))
  ]
    where
      left_size : ℕ
      left_size = sub64 size (low32 (sub64 b.addr ptr))

      cut : RbBlock
      cut = record (unleaked b) { addr = add64 b.addr left_size; size = sub64 b.size left_size }

      released_Inv : Inv v (released b left_size known.0 p)
      released_Inv = released-Inv v b left_size p known.0 inv known.1

  -- A block that the search has found starts at or above `ptr`.
  unmap_block-Ok : ptr ≤ b.addr → Ends (v.kill ≡ true) (RoundOk v p) (unmap_block v ptr size t b p)
  unfolding unmap_block
  unmap_block-Ok above =
      rw (stack_of-runs b.stack_node p known.0 node_ok.stack known.1 node_ok.home node_ok.stored)
        (elim (Bool-cases (is_mmap node_ok.stack.operation)) [
          | inl e ↦ rw (e, Ends) (rw (above_test, Ends) unmap_from-Ok)
          | inr e ↦
              rw (e, Ends)
                (elim (Bool-cases v.kill) [
                  | inl kill ↦ rw (kill, Ends) kill
                  | inr live ↦ rw (live, Ends) (record { inv = inv; grows = omega arith })
                ])
        ])
    where
      node_ok : StackOk p b.stack_node known.0
      node_ok = inv.nodes b.stack_node known.0 known.1

      above_test : leb ptr b.addr ≡ true
      above_test = ground arith

abbrev after_round : Env → ℕ → Round → Outcome Process
after_round v fuel (stop q) = ok q
after_round v fuel (again ptr size q) = elim (size == 0) [
  | true ↦ ok q
  | false ↦ unmap_loop v fuel ptr size q
]

Fewer-Grown : (v : Env) (p q r : Process) → Fewer v p q → Grown v 0 q r → Grown v 0 p r
Fewer-Grown v p q r f g = record {
  inv = g.inv;
  grows = omega (
    arith,
    g.grows,
    f.fewer,
    ap (total one) f.ids,
    ap (total (λ (re : ReallocEntry). 1)) f.entries,
  );
}

round-Grown :
    (v : Env) (fuel : ℕ) (p : Process) (r : Round)
    → ((ptr size : ℕ) (q : Process)
        → Fewer v p q
        → Ends (v.kill ≡ true) (Grown v 0 q) (unmap_loop v fuel ptr size q))
    → RoundOk v p r
    → Ends (v.kill ≡ true) (Grown v 0 p) (after_round v fuel r)
round-Grown v fuel p (stop q) rest i = i
round-Grown v fuel p (again ptr size q) rest f = elim (Bool-cases (size == 0)) [
  | inl done ↦ rw (done, Ends) (Fewer-Grown v p q q f (record { inv = f.inv; grows = omega arith }))
  | inr more ↦
      rw (more, Ends)
        (Ends-map (v.kill ≡ true) (Grown v 0 q) (Grown v 0 p) _ (rest ptr size q f)
          λ r g. Fewer-Grown v p q r f g)
]

pub Fewer-Fits : (v : Env) (p q : Process) → Fewer v p q → Fits p → Fits q
Fewer-Fits v p q f fits = rw (f.ids, f.entries) (omega (arith, f.fewer))

from_start : (ptr n : ℕ) (b : RbBlock) → starts_in ptr n b ≡ true → ptr ≤ b.addr
from_start ptr n b h = ground arith

-- The loop ends: each round that goes on has taken a block out.
pub unmap_loop-Grown :
    (v : Env) (fuel ptr size : ℕ) (p : Process)
    → Inv v p
    → Fits p
    → total one (blocks p) < fuel
    → Ends (v.kill ≡ true) (Grown v 0 p) (unmap_loop v fuel ptr size p)
unfolding unmap_loop
unmap_loop-Grown v zero ptr size p inv fits h = absurd (omega arith)
unmap_loop-Grown v (suc fuel) ptr size p inv fits h =
    elim (Option-cases (process_rb_search_range p.block_table ptr size)) [
      | inl none_left ↦ rw (none_left, Ends) (record { inv = inv; grows = omega arith })
      | inr ((t, b), hit) ↦
          let found = rw hit at (search_range-IsAt p.block_table ptr size) in
          rw (hit, Ends)
            (Ends-bind (v.kill ≡ true) (RoundOk v p) (Grown v 0 p) (unmap_block v ptr size t b p) _
              (unmap_block-Ok v ptr size t b p inv fits found.0
                (from_start ptr (at_least_one size) b found.1))
              λ r done.
                round-Grown v fuel p r
                  (λ ptr' size' q f.
                    unmap_loop-Grown v fuel ptr' size' q f.inv (Fewer-Fits v p q f fits)
                      (omega (arith, f.fewer)))
                  done)
    ]

-- A well-formed message of an unmapping on sound books that fit into their counters is handled: the loop
-- ends. The books are sound again, that is in their pointers, `n_allocations` of the process and its call
-- stacks, `stack_trees` and reference counts, and hold no reference more; of sizes and leaks nothing is
-- said. The process stops only under the option
-- for the first error.
pub process_munmap-Grown :
    (v : Env) (bytes : List ℕ) (p : Process) (m : AllocPayload)
    → Inv v p
    → Fits p
    → alloc_payload p.format bytes ≡ ok m
    → Ends (v.kill ≡ true) (Grown v 0 p) (process_munmap v bytes p)
unfolding process_munmap
process_munmap-Grown v bytes p m inv fits decoded = elim (Bool-cases p.tracing) [
  | inr off ↦ rw (off, Ends) (record { inv = inv; grows = omega arith })
  | inl on ↦
      rw (on, Ends)
        (rw (decoded, Ends)
          (unmap_loop-Grown v (rounds p) m.ptr m.size p inv fits
            (omega (arith, total_ones (blocks p)))))
]
