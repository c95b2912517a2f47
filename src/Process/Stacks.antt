-- ===== src/Process/Stacks.antt =====
-- client/process.c: the call stacks that allocations are booked on, with their reference counts.
use Prim.Native.Nat.{Ordering, compare}
use mtrace.Base.{
  ℕ, ◌+◌, ◌==◌, Bool, if◌then◌else◌, Option, none, some, List, [], ◌∷◌, length, Outcome, ok,
  aborted, fault, ◌>>=◌,
}
use mtrace.Base.Word.{add64, sub64}
use mtrace.Message.{MtOperation, MtOperation-discrete}
use mtrace.Rbtree.{Tree, leaf, node, Dir, left, right, Trail, rb_link_node}
use mtrace.Process.Resolv.{stack_resolv}
use mtrace.Process.State.{Stack, RbStack, Process, Env, update, answer, answers}

-- `memcmp` over the first `min (length p) (length q)` bytes.
unfoldable pub memcmp : List ℕ → List ℕ → Ordering
memcmp [] q = Ordering.eq
memcmp (x ∷ p) [] = Ordering.eq
memcmp (x ∷ p) (y ∷ q) = elim (compare x y) [
  | Ordering.eq ↦ memcmp p q
  | Ordering.lt ↦ Ordering.lt
  | Ordering.gt ↦ Ordering.gt
]

unfoldable pub memncmp : List ℕ → List ℕ → Ordering
memncmp p q = elim (memcmp p q) [
  | Ordering.eq ↦ compare (length p) (length q)
  | Ordering.lt ↦ Ordering.lt
  | Ordering.gt ↦ Ordering.gt
]

-- A write through a pointer to a `struct rb_stack`.
unfoldable pub modify_stack : ℕ → (RbStack → RbStack) → Process → Outcome Process
modify_stack i f p = elim (p.rb_stacks i) [
  | none ↦ fault
  | some s ↦ ok (record p { rb_stacks = update p.rb_stacks i (some (f s)) })
]

-- The structure behind `stack_node->stack`.
unfoldable pub stack_of : Process → ℕ → Outcome Stack
stack_of p i = elim (p.rb_stacks i) [
  | none ↦ fault
  | some s ↦ elim (p.stacks s.stack) [ none ↦ fault | some k ↦ ok k ]
]

unfoldable pub stack_get : ℕ → Process → Outcome Process
stack_get i p = elim (p.rb_stacks i) [
  | none ↦ fault
  | some s ↦ elim (p.stacks s.stack) [
    | none ↦ fault
    | some k ↦ ok (record p {
      rb_stacks = update p.rb_stacks i (some (record s { refcnt = add64 s.refcnt 1 }));
      stacks = update p.stacks s.stack (some (record k { refcnt = add64 k.refcnt 1 }));
    })
  ]
]

-- What is left of a counted structure: nothing once its count is 0, since it is freed.
abbrev pub kept_rb_stack : RbStack → Option RbStack
kept_rb_stack s = if s.refcnt == 0 then none else some s

abbrev pub kept_stack : Stack → Option Stack
kept_stack k = if k.refcnt == 0 then none else some k

unfoldable pub stack_put : ℕ → Process → Outcome Process
stack_put i p = elim (p.rb_stacks i) [
  | none ↦ fault
  | some s ↦ elim (p.stacks s.stack) [
    | none ↦ fault
    | some k ↦ ok (record p {
      rb_stacks = update p.rb_stacks i (kept_rb_stack (record s { refcnt = sub64 s.refcnt 1 }));
      stacks = update p.stacks s.stack (kept_stack (record k { refcnt = sub64 k.refcnt 1 }));
    })
  ]
]

-- The loop of `stack_add`: the entry with these addresses, or the link to hang a new one in.
pub data Place : Type 0 where
  found : ℕ → Place
  vacant : Trail → Place

abbrev pub below : Dir → Place → Place
below d (found i) = found i
below d (vacant t) = vacant (d ∷ t)

unfoldable pub stack_place : Process → List ℕ → Tree ℕ → Outcome Place
stack_place p addrs leaf = ok (vacant [])
stack_place p addrs (node c l i r) = do
  this ← stack_of p i
  elim (memncmp addrs this.addrs) [
    | Ordering.lt ↦ stack_place p addrs l >>= λ pl. ok (below left pl)
    | Ordering.gt ↦ stack_place p addrs r >>= λ pl. ok (below right pl)
    | Ordering.eq ↦ ok (found i)
  ]

module _ (v : Env) where
  -- The structures of a new entry, counted once for the table.
  abbrev pub new_stack : List ℕ → MtOperation → Bool → Stack
  new_stack addrs op ignored = record {
    refcnt = 0;
    addrs = addrs;
    operation = op;
    ignore = ignored;
  }

  abbrev pub new_rb_stack : ℕ → RbStack
  new_rb_stack k = record {
    stack = k;
    refcnt = 0;
    leaks = 0;
    n_allocations = 0;
    total_allocations = 0;
    bytes_used = 0;
    bytes_leaked = 0;
    tsc = v.garbage;
    n_mismatched = 0;
    n_badfree = 0;
  }

  -- The part of `stack_add` after its `malloc` calls, once the names of the addresses are known.
  unfoldable pub stack_hang :
      List ℕ → MtOperation → Bool → Trail → Process → Outcome (Option ℕ × Process)
  stack_hang addrs op ignored t p = do
    let i = p.fresh
    q ← stack_get i (record p {
      rb_stacks = update p.rb_stacks i (some (new_rb_stack i));
      stacks = update p.stacks i (some (new_stack addrs op ignored));
      fresh = i + 1;
    })
    ok (
      some i,
      record q {
        stack_table = v.stack_ops.rb_insert_color (rb_link_node q.stack_table t i) t;
        stack_trees = add64 q.stack_trees 1;
      },
    )

  -- `stack_resolv` is called between `stack_get` and the insertion. It looks at neither of the two and sets
  -- the mark of the new structure alone, so it is taken first here.
  unfoldable pub stack_new : List ℕ → MtOperation → Trail → Process → Outcome (Option ℕ × Process)
  stack_new addrs op t p = stack_resolv v p.map_list p.format addrs p.memory >>= λ r.
      stack_hang addrs op r.0 t (record p { memory = r.1 })

  -- The third `malloc`, for the copy of the addresses, is not checked.
  unfoldable pub stack_malloc :
      List ℕ → MtOperation → Trail → Process → Outcome (Option ℕ × Process)
  stack_malloc addrs op t p =
      let one = answers p.memory in
      let two = answers one in
      if answer p.memory
      then (if answer one
          then (if answer two
              then stack_new addrs op t (record p { memory = answers two })
              else fault)
          else ok (none, record p { memory = two }))
      else ok (none, record p { memory = one })

  -- `none` is the null pointer that `stack_add` returns when memory is exhausted.
  unfoldable pub stack_add : List ℕ → MtOperation → Process → Outcome (Option ℕ × Process)
  stack_add addrs op p = do
    pl ← stack_place p addrs p.stack_table
    elim pl [
      | found i ↦ do
        this ← stack_of p i
        elim (MtOperation-discrete this.operation op) [ yes e ↦ ok (some i, p) | no e ↦ aborted ]
      | vacant t ↦ stack_malloc addrs op t p
    ]
