-- ===== src/Process/Books/AddNew.antt =====
-- client/process.c: what `stack_add` does to the books, all of it.
use mtrace.Base.{
  All, true, Bool, ℕ, ◌+◌, ◌≤◌, ◌≡◌, refl, ◌==◌, false, Option, none, some, List, ◌∷◌, ◌++◌, arith,
  total, total-middle, total_zero, All-map, All-insert, ok, aborted, ◌>>=◌, Ends, Ends-bind,
  Ends-map,
}
use mtrace.Base.Word.{add64}
use mtrace.Message.{MtOperation, MtOperation-discrete}
use mtrace.Rbtree.{Trail, IsSlot, before, behind, rb_link_node}
use mtrace.Rbtree.Paths.{inorder-slot}
use mtrace.Process.State.{Process, Env, update, answers}
use mtrace.Process.Stacks.{
  stack_of, Place, found, vacant, stack_place, new_stack, new_rb_stack, stack_hang, stack_new,
  stack_malloc, stack_add,
}
use mtrace.Process.Resolv.{IsMapped, stack_resolv}
use mtrace.Process.Books.Resolved.{stack_resolv-Given}
use mtrace.Process.Books.{
  blocks, stack_ids, one, is, on, entry_on, is_some_of, IsKnown, OptionKnown, Inv,
}
use mtrace.Process.Books.Refs.{is_self, is_other}
use mtrace.Process.Books.Steps.{update_self, update-update, stack_of-runs, stack_get-runs}
use mtrace.Process.Books.Moved.{Moved, SameElsewhere, moved_nodes, moved-IsKnown, moved_option}
use mtrace.Process.Books.Same.{same-Inv, answer-true, answers-true}
use mtrace.Process.Books.Add.{Conflict, PlaceOk, stack_place-Ok}

-- The books with a new call stack, counted once for the table.
abbrev pub added : Env → List ℕ → MtOperation → Bool → Trail → Process → Process
added v addrs op ignored t p = record p {
  rb_stacks =
      update p.rb_stacks p.fresh (some (record (new_rb_stack v p.fresh) { refcnt = add64 0 1 }));
  stacks =
      update p.stacks p.fresh (some (record (new_stack v addrs op ignored) { refcnt = add64 0 1 }));
  fresh = p.fresh + 1;
  stack_table = v.stack_ops.rb_insert_color (rb_link_node p.stack_table t p.fresh) t;
  stack_trees = add64 p.stack_trees 1;
}

-- `r` is the result of `stack_add`: an entry that is known, in books that are sound.
pub record Added (v : Env) (p : Process) (r : Option ℕ × Process) : Type 0 where
  pub id : ℕ
  pub result : r.0 ≡ some id
  pub known : IsKnown r.1 id
  pub inv : Inv v r.1
  pub block_table : r.1.block_table ≡ p.block_table
  pub entries : r.1.realloc_list ≡ p.realloc_list
  pub ids : total one (stack_ids r.1) ≤ total one (stack_ids p) + 1
  pub keeps : (i : ℕ) → IsKnown p i → IsKnown r.1 i

module _ (v : Env) (addrs : List ℕ) (op : MtOperation) (ignored : Bool) (t : Trail) (p : Process)
    (inv : Inv v p) (slot : IsSlot p.stack_table t) where
  abbrev with_stack : Process
  with_stack = added v addrs op ignored t p

  abbrev stored : Process
  stored = record p {
    rb_stacks = update p.rb_stacks p.fresh (some (new_rb_stack v p.fresh));
    stacks = update p.stacks p.fresh (some (new_stack v addrs op ignored));
    fresh = p.fresh + 1;
  }

  stack_hang-runs : stack_hang v addrs op ignored t p ≡ ok (some p.fresh, with_stack)
  unfolding stack_hang
  stack_hang-runs =
      rw
        (stack_get-runs p.fresh stored (new_rb_stack v p.fresh) (new_stack v addrs op ignored)
          (update_self p.rb_stacks p.fresh _) refl (update_self p.stacks p.fresh _))
        (simp update-update)

  -- Nothing refers to the new pointer yet.
  not_known : (i : ℕ) → IsKnown p i → (i == p.fresh) ≡ false
  not_known i h = ground (arith, inv.unused i, h.1)

  option_unknown : (addr : ℕ) (o : Option ℕ) → OptionKnown p addr o → is_some_of p.fresh o ≡ 0
  option_unknown addr none h = refl
  option_unknown addr (some i) h = is_other p.fresh i (not_known i h)

  no_blocks : total (on p.fresh) (blocks p) ≡ 0
  no_blocks = total_zero _ (blocks p) (
      All-map (λ b h. is_other p.fresh b.stack_node (not_known b.stack_node h)) (blocks p)
        inv.blocks_known)

  no_entries : total (entry_on p.fresh) p.realloc_list ≡ 0
  no_entries =
      total_zero _ p.realloc_list
        (All-map (λ re h. option_unknown re.addr re.stack_node h) p.realloc_list inv.entries_known)

  no_ids : total (is p.fresh) (stack_ids p) ≡ 0
  no_ids =
      total_zero _ (stack_ids p)
        (All-map (λ i h. is_other p.fresh i (not_known i h)) (stack_ids p) inv.ids_known)

  ids_before : stack_ids p ≡ before p.stack_table t ++ behind p.stack_table t
  ids_before = inorder-slot p.stack_table t slot

  ids_after : stack_ids with_stack ≡ before p.stack_table t ++ p.fresh ∷ behind p.stack_table t
  ids_after = v.stack_ops.insert-inorder p.stack_table t p.fresh inv.stacks_balanced slot

  total_added : (f : ℕ → ℕ) → total f (stack_ids with_stack) ≡ total f (stack_ids p) + f p.fresh
  total_added f =
      rw (ids_before, ids_after)
        (total-middle f (before p.stack_table t) p.fresh (behind p.stack_table t))

  added_Moved :
      Moved p with_stack p.fresh
        (record (new_rb_stack v p.fresh) { refcnt = add64 0 1 })
        (record (new_stack v addrs op ignored) { refcnt = add64 0 1 })
  added_Moved = record { rb_stacks = λ j. refl; stacks = λ j. refl }

  added_elsewhere : SameElsewhere p with_stack p.fresh
  added_elsewhere = record {
    ids = λ j h. ground (arith, total_added (is j));
    counts = λ j h. refl;
    entries = λ j h. refl;
  }

  added-Inv : Inv v with_stack
  added-Inv = record {
    memory = inv.memory;
    blocks_balanced = inv.blocks_balanced;
    stacks_balanced =
        v.stack_ops.insert-IsBalanced p.stack_table t p.fresh inv.stacks_balanced slot;
    counted = inv.counted;
    trees = omega (arith, inv.trees, total_added one);
    nodes =
        moved_nodes added_Moved added_elsewhere refl refl
          (omega (arith, total_added (is p.fresh), is_self p.fresh)) (omega (arith, no_blocks))
          (omega (arith, total_added (is p.fresh), is_self p.fresh, no_ids, no_blocks, no_entries))
          inv.nodes;
    blocks_known =
        All-map (λ b h. moved-IsKnown added_Moved b.stack_node h) (blocks p) inv.blocks_known;
    entries_known =
        All-map (λ re h. moved_option added_Moved re.addr re.stack_node h) p.realloc_list
          inv.entries_known;
    ids_known = rw ids_after (
        All-insert (IsKnown with_stack) (before p.stack_table t) p.fresh (behind p.stack_table t)
          (_, update_self p.rb_stacks p.fresh _)
          (All-map (moved-IsKnown added_Moved) _ (rw ids_before at inv.ids_known)));
    unused = λ j h. ground (arith, inv.unused j);
  }

  stack_hang-Added : (R : Type 0) → Ends R (Added v p) (stack_hang v addrs op ignored t p)
  stack_hang-Added R = rw stack_hang-runs (record {
    id = p.fresh;
    result = refl;
    known = (_, update_self p.rb_stacks p.fresh _);
    inv = added-Inv;
    block_table = refl;
    entries = refl;
    ids = omega (arith, total_added one);
    keeps = moved-IsKnown added_Moved;
  })

-- The same after some allocations.
hang-Added :
    (v : Env) (R : Type 0) (addrs : List ℕ) (op : MtOperation) (ignored : Bool) (t : Trail)
    (p : Process) (memory : List Bool)
    → Inv v p
    → All (λ b. b ≡ true) memory
    → IsSlot p.stack_table t
    → Ends R (Added v p) (stack_hang v addrs op ignored t (record p { memory = memory }))
hang-Added v R addrs op ignored t p memory inv given slot =
    Ends-map R (Added v taken) (Added v p) (stack_hang v addrs op ignored t taken)
      (stack_hang-Added v addrs op ignored t taken taken-Inv slot R)
      λ r a. record {
        id = a.id;
        result = a.result;
        known = a.known;
        inv = a.inv;
        block_table = a.block_table;
        entries = a.entries;
        ids = a.ids;
        keeps = a.keeps;
      }
  where
    taken : Process
    taken = record p { memory = memory }

    taken-Inv : Inv v taken
    taken-Inv =
        same-Inv v
          (record {
            rb_stacks = refl;
            stacks = refl;
            block_table = refl;
            stack_table = refl;
            realloc_list = refl;
            n_allocations = refl;
            stack_trees = refl;
            fresh = refl;
          })
          given inv

-- The three allocations succeed, and those for the names.
malloc-Added :
    (v : Env) (R : Type 0) (addrs : List ℕ) (op : MtOperation) (t : Trail) (p : Process)
    → Inv v p
    → IsMapped p addrs
    → IsSlot p.stack_table t
    → Ends R (Added v p) (stack_malloc v addrs op t p)
unfolding stack_malloc stack_new
malloc-Added v R addrs op t p inv mapped slot =
    let once = answers-true p.memory inv.memory in
    let twice = answers-true (answers p.memory) once in
    let left = answers (answers (answers p.memory)) in
    rw
      (
        answer-true p.memory inv.memory,
        answer-true (answers p.memory) once,
        answer-true (answers (answers p.memory)) twice,
      )
      (Ends-bind R (λ r. All (λ b. b ≡ true) r.1) (Added v p)
        (stack_resolv v p.map_list p.format addrs left) _
        (stack_resolv-Given v R p.map_list p.format addrs left
          (answers-true (answers (answers p.memory)) twice) mapped)
        λ r given. hang-Added v R addrs op r.0 t p r.1 inv given slot)

-- For a call stack in mapped files `stack_add` returns an entry with the books sound, or fails its assertion for a reason.
pub add-Added :
    (v : Env) (addrs : List ℕ) (op : MtOperation) (p : Process)
    → Inv v p
    → IsMapped p addrs
    → Ends (Conflict p addrs op) (Added v p) (stack_add v addrs op p)
unfolding stack_add
add-Added v addrs op p inv mapped =
    Ends-bind (Conflict p addrs op) (PlaceOk p addrs p.stack_table) (Added v p)
      (stack_place p addrs p.stack_table) _
      (stack_place-Ok v (Conflict p addrs op) p addrs inv.nodes p.stack_table inv.ids_known) step
  where
    step :
        (pl : Place)
        → PlaceOk p addrs p.stack_table pl
        → Ends (Conflict p addrs op) (Added v p) (elim pl [
          | found i ↦
              (stack_of p i >>= λ this. elim (MtOperation-discrete this.operation op) [
                | yes e ↦ ok (some i, p)
                | no e ↦ aborted
              ])
          | vacant t ↦ stack_malloc v addrs op t p
        ])
    step (vacant t) h = malloc-Added v (Conflict p addrs op) addrs op t p inv mapped h
    step (found i) (s, e, k, f, same) = rw (stack_of-runs i p s k e (inv.nodes i s e).home f) (
        (elim (MtOperation-discrete k.operation op)
          as (λ d.
            Ends (Conflict p addrs op) (Added v p)
              (elim d [ yes e ↦ ok (some i, p) | no e ↦ aborted ])) [
                | yes eq ↦ record {
                  id = i;
                  result = refl;
                  known = (s, e);
                  inv = inv;
                  block_table = refl;
                  entries = refl;
                  ids = omega arith;
                  keeps = λ j x. x;
                }
                | no ne ↦ record {
                  id = i;
                  rb_stack = s;
                  stack = k;
                  known = e;
                  stored = f;
                  same_addrs = same;
                  other_op = ne;
                }
              ]))
