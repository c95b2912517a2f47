-- ===== src/Client/Pids/Lookup.antt =====
-- client/client.c: what the table of processes finds, and what an insertion and a removal make of it.
use mtrace.Base.{
  ℕ, ◌≤◌, ◌<◌, ◌≡◌, refl, ◌≢◌, sym, subst, inl, inr, ltb, Bool, true, false, Option, none, some,
  List, [], ◌∷◌, ◌++◌, arith, All, All-append, All-map, Bool-cases, ltb→lt,
}
use mtrace.Rbtree.{
  Color, Tree, leaf, node, left, right, Trail, inorder, get, IsSlot, before, behind, rb_link_node,
  Rebalance,
}
use mtrace.Rbtree.Sorted.{
  IsSorted, IsSorted-left, IsSorted-right, IsSorted-insert, IsSorted-remove, sorted_below,
  sorted_above,
}
use mtrace.Rbtree.Paths.{inorder-slot, inorder-get}
use mtrace.Client.Pids.{pid_rb_search, deeper, pid_place, link, process_rb_insert, pid_rb_delete}

module _ {A : Type 0} (pid : A → ℕ) where
  -- A hit is a node with the pid; where there is none, the table has no such process.
  abbrev pub Finds : Tree A → ℕ → Option (Trail × A) → Type 0
  Finds t k none = All (λ a. pid a ≢ k) (inorder t)
  Finds t k (some (p, a)) = (get t p ≡ some a) × (pid a ≡ k)

  module _ (c : Color) (l : Tree A) (a : A) (r : Tree A) (k : ℕ)
      (s : IsSorted pid (inorder l ++ a ∷ inorder r)) where
    pub no_right :
        k < pid a
        → All (λ x. pid x ≢ k) (inorder l)
        → All (λ x. pid x ≢ k) (inorder l ++ a ∷ inorder r)
    no_right lt h = All-append _ (inorder l) (a ∷ inorder r) h (
      (λ e. omega arith),
      All-map (λ x le e. omega arith) (inorder r) (sorted_above pid (inorder l) a _ s),
    )

    pub no_left :
        pid a < k
        → All (λ x. pid x ≢ k) (inorder r)
        → All (λ x. pid x ≢ k) (inorder l ++ a ∷ inorder r)
    no_left lt h =
        All-append _ (inorder l) (a ∷ inorder r)
          (All-map (λ x le e. omega arith) (inorder l) (sorted_below pid (inorder l) a _ s))
          ((λ e. omega arith), h)

    Finds-deeper_left :
        k < pid a
        → (o : Option (Trail × A)) → Finds l k o
        → Finds (node c l a r) k (deeper pid left o)
    unfolding get
    Finds-deeper_left lt none f = no_right lt f
    Finds-deeper_left lt (some (p, x)) f = f

    Finds-deeper_right :
        pid a < k
        → (o : Option (Trail × A)) → Finds r k o
        → Finds (node c l a r) k (deeper pid right o)
    unfolding get
    Finds-deeper_right lt none f = no_left lt f
    Finds-deeper_right lt (some (p, x)) f = f

  -- In an ordered table the search finds a process with the pid, or there is none.
  pub pid_rb_search-Finds :
      (t : Tree A) (k : ℕ) → IsSorted pid (inorder t) → Finds t k (pid_rb_search pid t k)
  unfolding pid_rb_search get
  pid_rb_search-Finds leaf k s = tt
  pid_rb_search-Finds (node c l a r) k s = elim (Bool-cases (ltb k (pid a))) [
    | inl lt ↦
        rw (lt, Finds)
          (Finds-deeper_left c l a r k s (ltb→lt _ _ lt) (pid_rb_search pid l k)
            (pid_rb_search-Finds l k (IsSorted-left pid (inorder l) _ s)))
    | inr ge ↦ elim (Bool-cases (ltb (pid a) k)) [
      | inl gt ↦
          rw (ge, gt, Finds)
            (Finds-deeper_right c l a r k s (ltb→lt _ _ gt) (pid_rb_search pid r k)
              (pid_rb_search-Finds r k (IsSorted-right pid (inorder l) _ s).1))
      | inr eq ↦ rw (ge, eq, Finds) (refl, ground arith)
    ]
  ]

  -- The link for a new pid between the smaller and the larger ones; or the pid is taken.
  pub record IsLink (t : Tree A) (k : ℕ) (p : Trail) : Type 0 where
    pub slot : IsSlot t p
    pub below : All (λ a. pid a ≤ k) (before t p)
    pub above : All (λ a. k ≤ pid a) (behind t p)
    pub fresh : All (λ a. pid a ≢ k) (inorder t)

  abbrev pub Linked : Tree A → ℕ → Option Trail → Type 0
  Linked t k none = (p : Trail) × (a : A) × (get t p ≡ some a) × (pid a ≡ k)
  Linked t k (some p) = IsLink t k p

  module _ (c : Color) (l : Tree A) (a : A) (r : Tree A) (k : ℕ)
      (s : IsSorted pid (inorder l ++ a ∷ inorder r)) where
    Linked-left :
        k < pid a → (o : Option Trail) → Linked l k o → Linked (node c l a r) k (link pid left o)
    unfolding get before behind
    Linked-left lt none f = (left ∷ f.0, f.1, f.2, f.3)
    Linked-left lt (some p) f = record {
      slot = f.slot;
      below = f.below;
      above = All-append _ (behind l p) (a ∷ inorder r) f.above (
        omega arith,
        All-map (λ x le. omega arith) (inorder r) (sorted_above pid (inorder l) a _ s),
      );
      fresh = no_right c l a r k s lt f.fresh;
    }

    Linked-right :
        pid a < k → (o : Option Trail) → Linked r k o → Linked (node c l a r) k (link pid right o)
    unfolding get before behind
    Linked-right lt none f = (right ∷ f.0, f.1, f.2, f.3)
    Linked-right lt (some p) f = record {
      slot = f.slot;
      below =
          All-append _ (inorder l) (a ∷ before r p)
            (All-map (λ x le. omega arith) (inorder l) (sorted_below pid (inorder l) a _ s))
            (omega arith, f.below);
      above = f.above;
      fresh = no_left c l a r k s lt f.fresh;
    }

  pid_place-Linked :
      (t : Tree A) (k : ℕ) → IsSorted pid (inorder t) → Linked t k (pid_place pid t k)
  unfolding pid_place get before behind
  pid_place-Linked leaf k s = record { slot = tt; below = tt; above = tt; fresh = tt }
  pid_place-Linked (node c l a r) k s = elim (Bool-cases (ltb k (pid a))) [
    | inl lt ↦
        rw (lt, Linked)
          (Linked-left c l a r k s (ltb→lt _ _ lt) (pid_place pid l k)
            (pid_place-Linked l k (IsSorted-left pid (inorder l) _ s)))
    | inr ge ↦ elim (Bool-cases (ltb (pid a) k)) [
      | inl gt ↦
          rw (ge, gt, Linked)
            (Linked-right c l a r k s (ltb→lt _ _ gt) (pid_place pid r k)
              (pid_place-Linked r k (IsSorted-right pid (inorder l) _ s).1))
      | inr eq ↦ rw (ge, eq, Linked) ([], a, refl, ground arith)
    ]
  ]

  -- The table with one process more, in order.
  pub record OneMore (ops : Rebalance A) (t : Tree A) (a : A) (u : Tree A) : Type 0 where
    pub front : List A
    pub back : List A
    pub was : inorder t ≡ front ++ back
    pub now : inorder u ≡ front ++ a ∷ back
    pub sorted : IsSorted pid (inorder u)
    pub balanced : ops.IsBalanced u

  -- It is inserted where no process has its pid, and else the table stays.
  abbrev pub Inserted : Rebalance A → Tree A → A → Bool × Tree A → Type 0
  Inserted ops t a (true, u) = All (λ x. pid x ≢ pid a) (inorder t) × OneMore ops t a u
  Inserted ops t a (false, u) =
      (u ≡ t) × ((p : Trail) × (x : A) × (get t p ≡ some x) × (pid x ≡ pid a))

  module _ (ops : Rebalance A) (t : Tree A) (a : A) (balanced : ops.IsBalanced t)
      (s : IsSorted pid (inorder t)) where
    linked_more :
        (p : Trail)
        → IsLink t (pid a) p
        → OneMore ops t a (ops.rb_insert_color (rb_link_node t p a) p)
    linked_more p f =
        let was = inorder-slot t p f.slot in
        let now = ops.insert-inorder t p a balanced f.slot in
        record {
          front = before t p;
          back = behind t p;
          was = was;
          now = now;
          sorted = subst (IsSorted pid) (sym now) (
              IsSorted-insert pid (before t p) a (behind t p) (subst (IsSorted pid) was s) f.below
                f.above);
          balanced = ops.insert-IsBalanced t p a balanced f.slot;
        }

    -- Inserting a process whose pid is new adds it to an ordered table, which stays ordered; where the pid
    -- is taken, the table stays as it is.
    pub process_rb_insert-Inserted : Inserted ops t a (process_rb_insert pid ops t a)
    unfolding process_rb_insert
    process_rb_insert-Inserted = by_place (pid_place pid t (pid a)) (pid_place-Linked t (pid a) s)
      where
        by_place :
            (o : Option Trail)
            → Linked t (pid a) o
            → Inserted ops t a (elim o [
              | none ↦ (false, t)
              | some p ↦ (true, ops.rb_insert_color (rb_link_node t p a) p)
            ])
        by_place none f = (refl, f)
        by_place (some p) f = (f.fresh, linked_more p f)

  -- What is removed is the process with the pid, and the rest stays.
  abbrev pub Deleted : Rebalance A → Tree A → ℕ → Option A × Tree A → Type 0
  Deleted ops t k (none, u) = (u ≡ t) × All (λ x. pid x ≢ k) (inorder t)
  Deleted ops t k (some a, u) =
      (pid a ≡ k) × OneMore ops u a t × IsSorted pid (inorder u) × ops.IsBalanced u

  module _ (ops : Rebalance A) (t : Tree A) (k : ℕ) (balanced : ops.IsBalanced t)
      (s : IsSorted pid (inorder t)) where
    -- A removal from an ordered table takes out one process with the pid, and leaves the rest in order; where
    -- there is none, the table stays as it is.
    pub pid_rb_delete-Deleted : Deleted ops t k (pid_rb_delete pid ops t k)
    unfolding pid_rb_delete
    pid_rb_delete-Deleted = by_hit (pid_rb_search pid t k) (pid_rb_search-Finds t k s)
      where
        by_hit :
            (o : Option (Trail × A))
            → Finds t k o
            → Deleted ops t k
                (elim o [ none ↦ (none, t) | some (p, a) ↦ (some a, ops.rb_erase t p) ])
        by_hit none f = (refl, f)
        by_hit (some (p, a)) f =
            let was = inorder-get t p a f.0 in
            let now = ops.erase-inorder t p a balanced f.0 in
            (
              f.1,
              record {
                front = before t p;
                back = behind t p;
                was = now;
                now = was;
                sorted = s;
                balanced = balanced;
              },
              subst (IsSorted pid) (sym now)
                  (IsSorted-remove pid (before t p) a (behind t p) (subst (IsSorted pid) was s)),
              ops.erase-IsBalanced t p a balanced f.0,
            )
