-- ===== src/Process/Books/Moved.antt =====
-- A change of the books that touches one call stack.
use mtrace.Base.{
  ℕ, ◌%◌, ◌≤◌, ◌≡◌, ◌≢◌, inl, inr, ◌==◌, ==_refl, ==_iff, subst, if◌then◌else◌, false, Option, none,
  some, arith, total, Bool-cases,
}
use mtrace.Base.Word.{w64}
use mtrace.Process.State.{Stack, RbStack, Process}
use mtrace.Process.Books.{blocks, stack_ids, is, on, entry_on, refs, StackOk, IsKnown, OptionKnown}

-- `q` has `s` and `k` behind the pointer `i`, and all other call stacks of `p`.
pub record Moved (p q : Process) (i : ℕ) (s : RbStack) (k : Stack) : Type 0 where
  pub rb_stacks : (j : ℕ) → q.rb_stacks j ≡ (if i == j then some s else p.rb_stacks j)
  pub stacks : (j : ℕ) → q.stacks j ≡ (if i == j then some k else p.stacks j)

-- The counters of the other call stacks stay right.
pub record SameElsewhere (p q : Process) (i : ℕ) : Type 0 where
  pub ids : (j : ℕ) → i ≢ j → total (is j) (stack_ids q) ≡ total (is j) (stack_ids p)
  pub counts : (j : ℕ) → i ≢ j → total (on j) (blocks q) ≡ total (on j) (blocks p)
  pub entries :
      (j : ℕ) → i ≢ j → total (entry_on j) q.realloc_list ≡ total (entry_on j) p.realloc_list

module _ {p q : Process} {i : ℕ} {s : RbStack} {k : Stack} (m : Moved p q i s k) where
  pub moved-IsKnown : (j : ℕ) → IsKnown p j → IsKnown q j
  moved-IsKnown j h = elim (Bool-cases (i == j)) [
    | inl e ↦ (s, rw (m.rb_stacks j, e))
    | inr e ↦ (h.0, rw (m.rb_stacks j, e) h.1)
  ]

  pub moved_self : IsKnown q i
  moved_self = (s, rw (m.rb_stacks i, ==_refl i))

  pub moved_option : (addr : ℕ) (o : Option ℕ) → OptionKnown p addr o → OptionKnown q addr o
  moved_option addr none h = h
  moved_option addr (some j) h = moved-IsKnown j h

  module _ (other : SameElsewhere p q i) (home : s.stack ≡ i) (same : k.refcnt ≡ s.refcnt)
      (listed : 1 ≤ total (is i) (stack_ids q))
      (counted : s.n_allocations ≡ total (on i) (blocks q) % w64)
      (referred : s.refcnt ≡ refs q i % w64)
      (nodes : (j : ℕ) (r : RbStack) → p.rb_stacks j ≡ some r → StackOk p j r) where
    moved_here : StackOk q i s
    moved_here = record {
      home = home;
      stack = k;
      stored = rw (m.stacks i, ==_refl i);
      same_refcnt = same;
      listed = listed;
      counted = counted;
      referred = referred;
    }

    moved_there : (j : ℕ) (r : RbStack) → (i == j) ≡ false → StackOk p j r → StackOk q j r
    moved_there j r ne h = record {
      home = h.home;
      stack = h.stack;
      stored = rw (m.stacks j, ne) h.stored;
      same_refcnt = h.same_refcnt;
      listed = rw (other.ids j differ) h.listed;
      counted = rw (other.counts j differ) h.counted;
      referred = rw (other.ids j differ, other.counts j differ, other.entries j differ) h.referred;
    }
      where
        differ : i ≢ j
        differ = ground arith

    pub moved_nodes : (j : ℕ) (r : RbStack) → q.rb_stacks j ≡ some r → StackOk q j r
    moved_nodes j r e = elim (Bool-cases (i == j)) [
      | inl eq ↦
          let at_j : i ≡ j = (==_iff i j).0 eq in
          let at_r : s ≡ r = cc (rw (m.rb_stacks j, eq) at e) in
          subst (λ (j' : ℕ). StackOk q j' r) at_j
            (subst (λ (r' : RbStack). StackOk q i r') at_r moved_here)
      | inr ne ↦ moved_there j r ne (nodes j r (rw (m.rb_stacks j, ne) at e))
    ]
