-- ===== src/Process/Books/Entries.antt =====
-- client/process.c: what `realloc_add` does to the books.
use mtrace.Base.{
  ℕ, ◌+◌, ◌≡◌, refl, Option, none, some, List, [], ◌∷◌, ◌++◌, arith, total, total-append,
  total-cons, total-nil, All-map, All-append, Ends,
}
use mtrace.Base.Word.{add64, low32}
use mtrace.Process.State.{Flags, RbStack, ReallocEntry, Process, Env, answers}
use mtrace.Process.Handlers.{realloc_add}
use mtrace.Process.Books.{
  blocks, stack_ids, is, entry_on, StackOk, IsKnown, OptionKnown, EntryKnown, Inv,
}
use mtrace.Process.Books.Refs.{is_self}
use mtrace.Process.Books.Steps.{with_both, stack_get-runs}
use mtrace.Process.Books.Moved.{Moved, SameElsewhere, moved_nodes, moved-IsKnown, moved_option}
use mtrace.Process.Books.Same.{same-Inv, answer-true, answers-true}

-- The books are sound, and hold one entry more of a reallocation under way.
pub record Pending (v : Env) (p q : Process) : Type 0 where
  pub inv : Inv v q
  pub block_table : q.block_table ≡ p.block_table
  pub ids : stack_ids q ≡ stack_ids p
  pub more :
      total (λ (re : ReallocEntry). 1) q.realloc_list
      ≡ total (λ (re : ReallocEntry). 1) p.realloc_list + 1
  pub keeps : (i : ℕ) → IsKnown p i → IsKnown q i

abbrev appended : ReallocEntry → Process → Process
appended re p = record p { realloc_list = p.realloc_list ++ re ∷ [] }

total_appended :
    (f : ReallocEntry → ℕ) (re : ReallocEntry) (res : List ReallocEntry)
    → total f (res ++ re ∷ []) ≡ total f res + f re
total_appended f re res =
    omega (arith, total-append f res (re ∷ []), total-cons f re [], total-nil f)

module _ (v : Env) (re : ReallocEntry) (p : Process) (inv : Inv v p) where
  module _ (i : ℕ) (s : RbStack) (e : p.rb_stacks i ≡ some s) (of_i : re.stack_node ≡ some i) where
    abbrev node_ok : StackOk p i s
    node_ok = inv.nodes i s e

    abbrev with_entry : Process
    with_entry = appended re (
        with_both i (record s { refcnt = add64 s.refcnt 1 })
          (record (node_ok.stack) { refcnt = add64 node_ok.stack.refcnt 1 }) p)

    entry_Moved :
        Moved p with_entry i
          (record s { refcnt = add64 s.refcnt 1 })
          (record (node_ok.stack) { refcnt = add64 node_ok.stack.refcnt 1 })
    entry_Moved = record { rb_stacks = λ j. refl; stacks = λ j. refl }

    entry_on-is : (j : ℕ) → entry_on j re ≡ is j i
    entry_on-is j = rw of_i

    entry_elsewhere : SameElsewhere p with_entry i
    entry_elsewhere = record {
      ids = λ j h. refl;
      counts = λ j h. refl;
      entries = λ j h. ground (arith, total_appended (entry_on j) re p.realloc_list, entry_on-is j);
    }

    entry-Inv : Inv v with_entry
    entry-Inv = record {
      memory = inv.memory;
      blocks_balanced = inv.blocks_balanced;
      stacks_balanced = inv.stacks_balanced;
      counted = inv.counted;
      trees = inv.trees;
      nodes =
          moved_nodes entry_Moved entry_elsewhere node_ok.home (omega (arith, node_ok.same_refcnt))
            node_ok.listed node_ok.counted
            (omega (
              arith,
              node_ok.referred,
              total_appended (entry_on i) re p.realloc_list,
              entry_on-is i,
              is_self i,
            ))
            inv.nodes;
      blocks_known =
          All-map (λ b h. moved-IsKnown entry_Moved b.stack_node h) (blocks p) inv.blocks_known;
      entries_known =
          All-append (EntryKnown with_entry) p.realloc_list (re ∷ [])
            (All-map (λ x h. moved_option entry_Moved x.addr x.stack_node h) p.realloc_list
              inv.entries_known)
            (rw of_i (moved-IsKnown entry_Moved i (s, e)), tt);
      ids_known = All-map (moved-IsKnown entry_Moved) (stack_ids p) inv.ids_known;
      unused = λ j h. ground (arith, inv.unused j h, e);
    }

  module _ (no_stack : re.stack_node ≡ none) (no_block : re.addr ≡ 0) where
    entry_on-none : (j : ℕ) → entry_on j re ≡ 0
    entry_on-none j = rw no_stack

    plain_stack : (i : ℕ) (s : RbStack) → StackOk p i s → StackOk (appended re p) i s
    plain_stack i s k = record {
      home = k.home;
      stack = k.stack;
      stored = k.stored;
      same_refcnt = k.same_refcnt;
      listed = k.listed;
      counted = k.counted;
      referred =
          omega (arith, k.referred, total_appended (entry_on i) re p.realloc_list, entry_on-none i);
    }

    plain-Inv : Inv v (appended re p)
    plain-Inv = record {
      memory = inv.memory;
      blocks_balanced = inv.blocks_balanced;
      stacks_balanced = inv.stacks_balanced;
      counted = inv.counted;
      trees = inv.trees;
      nodes = λ i s e. plain_stack i s (inv.nodes i s e);
      blocks_known = inv.blocks_known;
      entries_known =
          All-append (EntryKnown (appended re p)) p.realloc_list (re ∷ []) inv.entries_known
            (rw (no_stack, OptionKnown) no_block, tt);
      ids_known = inv.ids_known;
      unused = inv.unused;
    }

module _ (v : Env) (p : Process) (inv : Inv v p) where
  abbrev taken : Process
  taken = record p { memory = answers p.memory }

  taken-Inv : Inv v taken
  taken-Inv =
      same-Inv v
        (record {
          rb_stacks = refl;
          stacks = refl;
          block_table = refl;
          stack_table = refl;
          realloc_list = refl;
          n_allocations = refl;
          stack_trees = refl;
          fresh = refl;
        })
        (answers-true p.memory inv.memory) inv

  abbrev entry : ℕ → ℕ → ℕ → Flags → Option ℕ → ReallocEntry
  entry pid addr size flags o = record {
    pid = low32 pid;
    addr = addr;
    size = size;
    flags = flags;
    stack_node = o;
  }

  -- `realloc_add` books a reallocation, on a call stack that is known or on none.
  pub realloc_add-Pending :
      (R : Type 0) (pid addr size : ℕ) (flags : Flags) (o : Option ℕ)
      → OptionKnown p addr o
      → Ends R (Pending v p) (realloc_add pid addr size flags o p)
  unfolding realloc_add
  realloc_add-Pending R pid addr size flags none known =
      rw (answer-true p.memory inv.memory, Ends)
        (record {
          inv = plain-Inv v (entry pid addr size flags none) taken taken-Inv refl known;
          block_table = refl;
          ids = refl;
          more = total_appended (λ re. 1) (entry pid addr size flags none) p.realloc_list;
          keeps = λ i h. h;
        })
  realloc_add-Pending R pid addr size flags (some i) (s, e) =
      let n = taken-Inv.nodes i s e in
      let re = entry pid addr size flags (some i) in
      rw (answer-true p.memory inv.memory, Ends)
        (rw (stack_get-runs i taken s n.stack e n.home n.stored) (record {
          inv = entry-Inv v re taken taken-Inv i s e refl;
          block_table = refl;
          ids = refl;
          more = total_appended (λ x. 1) re p.realloc_list;
          keeps = λ j h. moved-IsKnown (entry_Moved v re taken taken-Inv i s e refl) j h;
        }))
