-- ===== src/Process/Books/Alloc.antt =====
-- client/process.c: `process_alloc` keeps the books sound.
use mtrace.Base.{
  ℕ, zero, suc, ◌+◌, ◌≤◌, ◌<◌, ◌≡◌, refl, ap, ◌⊎◌, inl, inr, true, Option, none, List, arith, total,
  total_ones, Bool-cases, Option-cases, ok, Ends, Ends-bind, Ends-map, Ends-why, ◌∙◌,
}
use mtrace.Base.Word.{add64}
use mtrace.Message.{MtOperation}
use mtrace.Rbtree.{inorder}
use mtrace.Process.State.{no_flags, ReallocEntry, Process, Env}
use mtrace.Process.Stacks.{modify_stack, stack_add}
use mtrace.Process.Blocks.{process_rb_search_range, process_rb_delete_block}
use mtrace.Process.Handlers.{
  AllocPayload, alloc_payload, rounds, drop_collisions, alloc_block, process_alloc,
}
use mtrace.Process.Search.{search_range-IsAt}
use mtrace.Process.Books.{blocks, stack_ids, one, IsKnown, Inv, Fits, Grown, references}
use mtrace.Process.Books.Same.{same-Inv, touch-Grown, block-IsKnown}
use mtrace.Process.Books.Delete.{Fewer, delete-Fewer}
use mtrace.Process.Books.Insert.{More, insert-More}
use mtrace.Process.Resolv.{IsMapped}
use mtrace.Process.Books.Add.{Conflict}
use mtrace.Process.Books.AddNew.{Added, add-Added}

-- The books after some blocks were dropped, when none that starts in the range is left.
pub record Cleared (v : Env) (ptr size : ℕ) (p q : Process) : Type 0 where
  pub inv : Inv v q
  pub no_more : total one (blocks q) ≤ total one (blocks p)
  pub ids : stack_ids q ≡ stack_ids p
  pub entries : q.realloc_list ≡ p.realloc_list
  pub conflicts : (addrs : List ℕ) (op : MtOperation) → Conflict q addrs op → Conflict p addrs op
  pub mapped : (addrs : List ℕ) → IsMapped p addrs → IsMapped q addrs
  pub clear : process_rb_search_range q.block_table ptr size ≡ none

Cleared-after :
    {v : Env} {ptr size : ℕ} {p q r : Process}
    → Fewer v p q
    → Cleared v ptr size q r
    → Cleared v ptr size p r
Cleared-after f c = record {
  inv = c.inv;
  no_more = omega (arith, f.fewer, c.no_more);
  ids = c.ids ∙ f.ids;
  entries = c.entries ∙ f.entries;
  conflicts = λ addrs op x. f.conflicts addrs op (c.conflicts addrs op x);
  mapped = λ addrs h. c.mapped addrs (f.mapped addrs h);
  clear = c.clear;
}

Fewer-room : (v : Env) (p q : Process) → Fewer v p q → Fits p → Fits q
Fewer-room v p q f room = rw (f.ids, f.entries) (omega (arith, f.fewer))

-- With more rounds than there are blocks the loop that drops collisions ends, on sound books that
-- fit into their counters. It stops only under the option for the first error. The books are sound
-- afterwards (pointers, `n_allocations`, `stack_trees` and reference counts), hold no more blocks, and the search of the range finds none.
pub drop_collisions-Cleared :
    (v : Env) (fuel ptr size : ℕ) (p : Process)
    → Inv v p
    → Fits p
    → total one (blocks p) < fuel
    → Ends (v.kill ≡ true) (Cleared v ptr size p) (drop_collisions v fuel ptr size p)
unfolding drop_collisions
drop_collisions-Cleared v zero ptr size p inv room h = absurd (omega arith)
drop_collisions-Cleared v (suc fuel) ptr size p inv room h =
    elim (Option-cases (process_rb_search_range p.block_table ptr size)) [
      | inl none_left ↦
          rw (none_left, Ends)
            (record {
              inv = inv;
              no_more = omega arith;
              ids = refl;
              entries = refl;
              conflicts = λ a o c. c;
              mapped = λ a h. h;
              clear = none_left;
            })
      | inr ((t, b), hit) ↦ elim (Bool-cases v.kill) [
        | inl kill ↦ rw (hit, Ends) (rw (kill, Ends) kill)
        | inr live ↦
            let at = (rw hit at (search_range-IsAt p.block_table ptr size)).0 in
            let known = block-IsKnown v p t b inv at in
            rw (hit, Ends)
              (rw (live, Ends)
                (Ends-bind (v.kill ≡ true) (Fewer v p) (Cleared v ptr size p)
                  (process_rb_delete_block v t b p) _
                  (delete-Fewer v t b p known.0 inv room at known.1 (v.kill ≡ true))
                  λ q f.
                    Ends-map (v.kill ≡ true) (Cleared v ptr size q) (Cleared v ptr size p)
                      (drop_collisions v fuel ptr size q)
                      (drop_collisions-Cleared v fuel ptr size q f.inv (Fewer-room v p q f room)
                        (omega (arith, f.fewer)))
                      λ r c. Cleared-after f c))
      ]
    ]

-- The end of the handler adds a call stack and a block at most.
pub alloc_block-Grown :
    (v : Env) (op : MtOperation) (m : AllocPayload) (p : Process)
    → Inv v p
    → IsMapped p m.data_bytes
    → Ends ((v.kill ≡ true) ⊎ Conflict p m.data_bytes op) (Grown v 2 p) (alloc_block v op m p)
unfolding alloc_block
alloc_block-Grown v op m p inv mapped =
    Ends-bind why (Added v p) (Grown v 2 p) (stack_add v m.data_bytes op p) _
      (Ends-why (Conflict p m.data_bytes op) why (Added v p) _ inr
        (add-Added v m.data_bytes op p inv mapped))
      λ (stack, q) a. rw a.result (
        Ends-bind why (λ r. (r.0 ≡ true) × More v q r.1) (Grown v 2 p) _ _
          (Ends-why (v.kill ≡ true) why (λ r. (r.0 ≡ true) × More v q r.1) _ inl
            (insert-More v m.ptr m.size a.id no_flags q a.inv a.known))
          λ (done, r) (is_done, more).
            rw (is_done, a.result)
              (Ends-map why (Grown v 0 r) (Grown v 2 p) _
                (stamped a.id r more.inv (more.known a.id a.known))
                λ w g. record { inv = g.inv; grows = grows q r w a more g }))
  where
    why : Type 0
    why = (v.kill ≡ true) ⊎ Conflict p m.data_bytes op

    grows :
        (q r w : Process)
        → {o : Option ℕ} → Added v p (o, q)
        → More v q r
        → Grown v 0 r w
        → references w ≤ references p + 2
    grows q r w a more g = omega (
      arith,
      g.grows,
      more.more,
      a.ids,
      ap (total one) more.ids,
      ap (total (λ (re : ReallocEntry). 1)) more.entries,
      ap (total (λ (re : ReallocEntry). 1)) a.entries,
      ap (λ t. total one (inorder t)) a.block_table,
    )

    stamped :
        (i : ℕ) (r : Process)
        → Inv v r
        → IsKnown r i
        → Ends why (Grown v 0 r) (
            modify_stack i
              (λ s. record s { tsc = r.tsc })
              (record r {
                total_allocations = add64 r.total_allocations 1;
                bytes_used = add64 r.bytes_used m.size;
                tsc = add64 r.tsc 1;
              }))
    stamped i r inv_r known =
        Ends-map why (Grown v 0 stamped_process) (Grown v 0 r) _
          (touch-Grown v why i _ stamped_process
            (λ s. record { stack = refl; refcnt = refl; n_allocations = refl })
            (same-Inv v
              (record {
                rb_stacks = refl;
                stacks = refl;
                block_table = refl;
                stack_table = refl;
                realloc_list = refl;
                n_allocations = refl;
                stack_trees = refl;
                fresh = refl;
              })
              inv_r.memory inv_r)
            known)
          λ w g. record { inv = g.inv; grows = g.grows }
      where
        stamped_process : Process
        stamped_process = record r {
          total_allocations = add64 r.total_allocations 1;
          bytes_used = add64 r.bytes_used m.size;
          tsc = add64 r.tsc 1;
        }

Cleared-Grown :
    (v : Env) (ptr size : ℕ) (p q r : Process)
    → Cleared v ptr size p q
    → Grown v 2 q r
    → Grown v 2 p r
Cleared-Grown v ptr size p q r c g = record {
  inv = g.inv;
  grows = omega (
    arith,
    g.grows,
    c.no_more,
    ap (total one) c.ids,
    ap (total (λ (re : ReallocEntry). 1)) c.entries,
  );
}

-- A well-formed allocation message, whose call stack lies in mapped files, on sound books that fit into
-- their counters is handled: no null or freed pointer is followed and the loop ends. The books are sound
-- again, that is in their pointers, `n_allocations` of the process and its call stacks, `stack_trees` and
-- reference counts, and hold at most two references more. The process stops only under the option for the
-- first error, or where the assertion fails since the call stack was used for another operation.
pub process_alloc-Grown :
    (v : Env) (op : MtOperation) (bytes : List ℕ) (p : Process) (m : AllocPayload)
    → Inv v p
    → Fits p
    → alloc_payload p.format bytes ≡ ok m
    → IsMapped p m.data_bytes
    → Ends ((v.kill ≡ true) ⊎ Conflict p m.data_bytes op) (Grown v 2 p) (process_alloc v op bytes p)
unfolding process_alloc
process_alloc-Grown v op bytes p m inv room decoded mapped = elim (Bool-cases p.tracing) [
  | inl on ↦
      rw (on, Ends)
        (rw (decoded, Ends)
          (Ends-bind why (Cleared v m.ptr m.size p) (Grown v 2 p)
            (drop_collisions v (rounds p) m.ptr m.size p) _
            (Ends-why (v.kill ≡ true) why (Cleared v m.ptr m.size p) _ inl (
              drop_collisions-Cleared v (rounds p) m.ptr m.size p inv room
                (omega (arith, total_ones (blocks p)))))
            λ q c.
              Ends-map why (Grown v 2 q) (Grown v 2 p) (alloc_block v op m q)
                (Ends-why _ why (Grown v 2 q) _
                  (elim [ inl k ↦ inl k | inr x ↦ inr (c.conflicts _ _ x) ])
                  (alloc_block-Grown v op m q c.inv (c.mapped m.data_bytes mapped)))
                λ r g. Cleared-Grown v m.ptr m.size p q r c g))
  | inr off ↦ rw (off, Ends) (record { inv = inv; grows = omega arith })
]
  where
    why : Type 0
    why = (v.kill ≡ true) ⊎ Conflict p m.data_bytes op
