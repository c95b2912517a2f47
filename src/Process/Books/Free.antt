-- ===== src/Process/Books/Free.antt =====
-- client/process.c: `process_free` keeps the books sound.
use mtrace.Base.{
  ℕ, ◌+◌, ◌≤◌, ◌≡◌, refl, ap, ◌∙◌, ◌⊎◌, inl, inr, ◌==◌, Bool, true, false, not, ◌&&◌, if◌then◌else◌,
  Option, none, some, List, arith, total, Bool-cases, Option-cases, ok, Ends, Ends-bind, Ends-map,
  Ends-why,
}
use mtrace.Base.Word.{add64}
use mtrace.Message.{MtOperation}
use mtrace.Rbtree.{Trail, get}
use mtrace.Process.State.{no_flags, RbBlock, RbStack, ReallocEntry, Process, Env}
use mtrace.Process.Stacks.{modify_stack, stack_add}
use mtrace.Process.Blocks.{process_rb_search, process_rb_delete_block}
use mtrace.Process.Handlers.{
  AllocPayload, alloc_payload, is_empty, is_mmap, is_sane, is_realloc_enter, realloc_add,
  note_error, mismatched, badfree, free_block, free_unknown, process_free,
}
use mtrace.Process.Search.{search-IsAt}
use mtrace.Process.Books.{
  stack_ids, one, OptionKnown, IsKnown, Inv, Fits, HasRoom, StackOk, Grown, references,
}
use mtrace.Process.Books.Steps.{modify-runs, stack_of-runs}
use mtrace.Process.Books.Moved.{moved-IsKnown}
use mtrace.Process.Books.Same.{same-Inv, SameCounts, touched-Inv, touched_Moved, block-IsKnown}
use mtrace.Process.Books.Delete.{Fewer, delete-Fewer}
use mtrace.Process.Resolv.{IsMapped}
use mtrace.Process.Books.Add.{Conflict}
use mtrace.Process.Books.AddNew.{Added, add-Added}
use mtrace.Process.Books.Entries.{Pending, realloc_add-Pending}

-- The books after an error was noted: at most one call stack more, and the same blocks.
pub record Noted (v : Env) (p q : Process) : Type 0 where
  pub inv : Inv v q
  pub block_table : q.block_table ≡ p.block_table
  pub entries : q.realloc_list ≡ p.realloc_list
  pub ids : total one (stack_ids q) ≤ total one (stack_ids p) + 1
  pub keeps : (i : ℕ) → IsKnown p i → IsKnown q i

Noted-nothing : (v : Env) (p : Process) → Inv v p → Noted v p p
Noted-nothing v p inv = record {
  inv = inv;
  block_table = refl;
  entries = refl;
  ids = omega arith;
  keeps = λ i h. h;
}

module _ (v : Env) (addrs : List ℕ) (op : MtOperation) (p : Process) (inv : Inv v p)
    (mapped : IsMapped p addrs) where
  pub note_error-Noted :
      (count : RbStack → RbStack)
      → ((s : RbStack) → SameCounts s (count s))
      → Ends (Conflict p addrs op) (Noted v p) (note_error v addrs op count p)
  unfolding note_error
  note_error-Noted count same =
      Ends-bind (Conflict p addrs op) (Added v p) (Noted v p) (stack_add v addrs op p) _
        (add-Added v addrs op p inv mapped)
        λ (stack, q) a. rw a.result (stamped a.id q a (a.known.0) (a.known.1))
    where
      stamped :
          (i : ℕ) (q : Process)
          → {o : Option ℕ} → Added v p (o, q)
          → (s : RbStack) → q.rb_stacks i ≡ some s
          → Ends (Conflict p addrs op) (Noted v p) (
              modify_stack i
                (λ s'. record (count s') { tsc = q.tsc })
                (record q { tsc = add64 q.tsc 1 }))
      stamped i q a s e =
          let later : Process = record q { tsc = add64 q.tsc 1 } in
          let later-Inv : Inv v later =
            same-Inv v
              (record {
                rb_stacks = refl;
                stacks = refl;
                block_table = refl;
                stack_table = refl;
                realloc_list = refl;
                n_allocations = refl;
                stack_trees = refl;
                fresh = refl;
              })
              a.inv.memory a.inv in
          let still : SameCounts s (record (count s) { tsc = q.tsc }) = record {
            stack = (same s).stack;
            refcnt = (same s).refcnt;
            n_allocations = (same s).n_allocations;
          } in
          rw (modify-runs i (λ s'. record (count s') { tsc = q.tsc }) later s e) (record {
            inv = touched-Inv v later i s (record (count s) { tsc = q.tsc }) later-Inv e still;
            block_table = a.block_table;
            entries = a.entries;
            ids = a.ids;
            keeps = λ j h.
                moved-IsKnown
                  (touched_Moved v later i s (record (count s) { tsc = q.tsc }) later-Inv e still) j
                  (a.keeps j h);
          })

abbrev pub Why : Env → Process → List ℕ → MtOperation → Type 0
Why v p addrs op = (v.kill ≡ true) ⊎ Conflict p addrs op

module _ (v : Env) (op : MtOperation) (m : AllocPayload) (p : Process) (inv : Inv v p)
    (room : HasRoom p) (mapped : IsMapped p m.data_bytes) where
  abbrev Stopped : Type 0
  Stopped = Why v p m.data_bytes op

  -- Either branch of the code that notes an error if a test says so.
  Noted-if :
      (test : Bool) (count : RbStack → RbStack)
      → ((s : RbStack) → SameCounts s (count s))
      → Ends Stopped (Noted v p) (if test then note_error v m.data_bytes op count p else ok p)
  Noted-if true count same =
      Ends-why (Conflict p m.data_bytes op) Stopped (Noted v p) _ inr
        (note_error-Noted v m.data_bytes op p inv mapped count same)
  Noted-if false count same = Noted-nothing v p inv

  -- What is booked before the block goes: a call stack and an entry at most.
  record Prepared (r : Process) : Type 0 where
    inv_after : Inv v r
    block_table : r.block_table ≡ p.block_table
    fits : Fits r
    grows : references r ≤ references p + 2

  Prepared-plain : (q : Process) → Noted v p q → Prepared q
  Prepared-plain q n = record {
    inv_after = n.inv;
    block_table = n.block_table;
    fits = rw (n.block_table, n.entries) (omega (arith, n.ids));
    grows = rw (n.block_table, n.entries) (omega (arith, n.ids));
  }

  Prepared-entry : (q r : Process) → Noted v p q → Pending v q r → Prepared r
  Prepared-entry q r n d = record {
    inv_after = d.inv;
    block_table = d.block_table ∙ n.block_table;
    fits = rw (d.block_table, n.block_table, d.ids, d.more, n.entries) (omega (arith, n.ids));
    grows = rw (d.block_table, n.block_table, d.ids, d.more, n.entries) (omega (arith, n.ids));
  }

  Prepared-if :
      (test : Bool) (addr size : ℕ) (flags : _) (o : Option ℕ) (q : Process)
      → Noted v p q
      → OptionKnown q addr o
      → Ends Stopped Prepared (if test then realloc_add m.size addr size flags o q else ok q)
  Prepared-if true addr size flags o q n known =
      Ends-map Stopped (Pending v q) Prepared (realloc_add m.size addr size flags o q)
        (realloc_add-Pending v q n.inv Stopped m.size addr size flags o known)
        (λ r d. Prepared-entry q r n d)
  Prepared-if false addr size flags o q n known = Prepared-plain q n

  free_block-Grown :
      (t : Trail) (b : RbBlock)
      → get p.block_table t ≡ some b
      → Ends Stopped (Grown v 2 p) (free_block v op m t b p)
  unfolding free_block
  free_block-Grown t b at =
      rw (stack_of-runs b.stack_node p known.0 node_ok.stack known.1 node_ok.home node_ok.stored)
        (elim (Bool-cases (is_mmap node_ok.stack.operation && v.kill)) [
          | inl e ↦ rw (e, Ends) (inl (ground arith))
          | inr e ↦
              rw (e, Ends)
                (Ends-bind Stopped (Noted v p) (Grown v 2 p) _ _
                  (Noted-if
                    (not (is_empty m.data_bytes) && not (is_sane node_ok.stack.operation op))
                    (mismatched v)
                    λ s. record { stack = refl; refcnt = refl; n_allocations = refl })
                  λ q n.
                    Ends-bind Stopped Prepared (Grown v 2 p) _ _
                      (Prepared-if (is_realloc_enter op) b.addr b.size b.flags (some b.stack_node) q
                        n (n.keeps b.stack_node known))
                      λ r done. deleted_then r done)
        ])
    where
      known : IsKnown p b.stack_node
      known = block-IsKnown v p t b inv at

      node_ok : StackOk p b.stack_node known.0
      node_ok = inv.nodes b.stack_node known.0 known.1

      fewer_grows : (q r : Process) → Prepared r → Fewer v r q → references q ≤ references p + 2
      fewer_grows q r done f = omega (
        arith,
        done.grows,
        f.fewer,
        ap (total one) f.ids,
        ap (total (λ (re : ReallocEntry). 1)) f.entries,
      )

      deleted_then :
          (r : Process) → Prepared r → Ends Stopped (Grown v 2 p) (process_rb_delete_block v t b r)
      deleted_then r done =
          let at_r : get r.block_table t ≡ some b = rw done.block_table at in
          let known_r = block-IsKnown v r t b done.inv_after at_r in
          Ends-map Stopped (Fewer v r) (Grown v 2 p) (process_rb_delete_block v t b r)
            (delete-Fewer v t b r known_r.0 done.inv_after done.fits at_r known_r.1 Stopped)
            (λ q f. record { inv = f.inv; grows = fewer_grows q r done f })

  free_unknown-Grown : Ends Stopped (Grown v 2 p) (free_unknown v op m p)
  unfolding free_unknown
  free_unknown-Grown = elim (Bool-cases (not p.attached && v.kill)) [
    | inl e ↦ rw (e, Ends) (inl (ground arith))
    | inr e ↦
        rw (e, Ends)
          (Ends-bind Stopped (Noted v p) (Grown v 2 p) _ _
            (Noted-if (not p.attached && not (is_empty m.data_bytes)) (badfree v)
              λ s. record { stack = refl; refcnt = refl; n_allocations = refl })
            λ q n.
              Ends-map Stopped Prepared (Grown v 2 p) _
                (Prepared-if (is_realloc_enter op) 0 0 no_flags none q n refl)
                (λ r d. record { inv = d.inv_after; grows = d.grows }))
  ]

-- A well-formed free message, or the first message of a reallocation, whose call stack lies in mapped
-- files, on sound books with room for their counters is handled. The books are sound again, that is in
-- their pointers, `n_allocations` of the process and its call stacks, `stack_trees` and reference counts,
-- and hold at most two references more. The process stops only under the option for the first error, or where the assertion of
-- `stack_add` fails.
pub process_free-Grown :
    (v : Env) (op : MtOperation) (bytes : List ℕ) (p : Process) (m : AllocPayload)
    → Inv v p
    → HasRoom p
    → alloc_payload p.format bytes ≡ ok m
    → IsMapped p m.data_bytes
    → Ends (Why v p m.data_bytes op) (Grown v 2 p) (process_free v op bytes p)
unfolding process_free
process_free-Grown v op bytes p m inv room decoded mapped = elim (Bool-cases p.tracing) [
  | inr off ↦ rw (off, Ends) (record { inv = inv; grows = omega arith })
  | inl on ↦
      rw (on, Ends)
        (rw (decoded, Ends)
          (elim (Bool-cases (m.ptr == 0)) [
            | inl null ↦ rw (null, Ends) (record { inv = inv; grows = omega arith })
            | inr some_ptr ↦
                rw (some_ptr, Ends)
                  (elim (Option-cases (process_rb_search p.block_table m.ptr)) [
                    | inl unknown ↦ rw (unknown, Ends) (free_unknown-Grown v op m p inv room mapped)
                    | inr ((t, b), hit) ↦
                        rw (hit, Ends)
                          (free_block-Grown v op m p inv room mapped t b
                            (rw hit at (search-IsAt p.block_table m.ptr)).0)
                  ])
          ]))
]
