-- ===== src/Process/Books/Add.antt =====
-- client/process.c: what `stack_add` does to the books.

use mtrace.Base.{
  ℕ, ◌≡◌, ◌≢◌, inl, inr, some, List, ◌∷◌, All, All_at, All-left, All-right, Ends, Ends-bind,
}
use mtrace.Message.{MtOperation}
use mtrace.Rbtree.{Tree, leaf, node, left, right, IsSlot, inorder}
use mtrace.Process.State.{Stack, RbStack, Process, Env}
use mtrace.Process.Stacks.{memncmp, Place, found, vacant, below, stack_place}
use mtrace.Process.Compare.{Ordering-cases, memncmp-eq}
use mtrace.Process.Books.{StackOk, IsKnown}
use mtrace.Process.Books.Steps.{stack_of-runs}

-- The table holds these addresses for another operation, which `stack_add` asserts that it does not.
pub record Conflict (p : Process) (addrs : List ℕ) (op : MtOperation) : Type 0 where
  pub id : ℕ
  pub rb_stack : RbStack
  pub stack : Stack
  pub known : p.rb_stacks id ≡ some rb_stack
  pub stored : p.stacks id ≡ some stack
  pub same_addrs : addrs ≡ stack.addrs
  pub other_op : stack.operation ≢ op

abbrev pub PlaceOk : Process → List ℕ → Tree ℕ → Place → Type 0
PlaceOk p addrs t (found i) =
    (s : RbStack) × (p.rb_stacks i ≡ some s)
    × (k : Stack) × (p.stacks i ≡ some k)
    × (addrs ≡ k.addrs)
PlaceOk p addrs t (vacant tr) = IsSlot t tr

module _ (v : Env) (R : Type 0) (p : Process) (addrs : List ℕ)
    (nodes : (i : ℕ) (s : RbStack) → p.rb_stacks i ≡ some s → StackOk p i s) where
  place_left :
      (c : _) (l : Tree ℕ) (i : ℕ) (r : Tree ℕ) (pl : Place)
      → PlaceOk p addrs l pl
      → PlaceOk p addrs (node c l i r) (below left pl)
  place_left c l i r (found j) h = h
  place_left c l i r (vacant t) h = h

  place_right :
      (c : _) (l : Tree ℕ) (i : ℕ) (r : Tree ℕ) (pl : Place)
      → PlaceOk p addrs r pl
      → PlaceOk p addrs (node c l i r) (below right pl)
  place_right c l i r (found j) h = h
  place_right c l i r (vacant t) h = h

  pub stack_place-Ok :
      (t : Tree ℕ)
      → All (IsKnown p) (inorder t)
      → Ends R (PlaceOk p addrs t) (stack_place p addrs t)
  unfolding stack_place
  stack_place-Ok leaf h = tt
  stack_place-Ok (node c l i r) h =
      rw (stack_of-runs i p s k.stack e k.home k.stored)
        (elim (Ordering-cases (memncmp addrs k.stack.addrs)) [
          | inl lt ↦
              rw (lt, Ends)
                (Ends-bind R (PlaceOk p addrs l) (PlaceOk p addrs (node c l i r)) _ _
                  (stack_place-Ok l (All-left (IsKnown p) (inorder l) (i ∷ inorder r) h))
                  (place_left c l i r))
          | inr (inl eq) ↦ rw (eq, Ends) (s, e, k.stack, k.stored, memncmp-eq _ _ eq)
          | inr (inr gt) ↦
              rw (gt, Ends)
                (Ends-bind R (PlaceOk p addrs r) (PlaceOk p addrs (node c l i r)) _ _
                  (stack_place-Ok r (All-right (IsKnown p) (inorder l) (i ∷ inorder r) h).1)
                  (place_right c l i r))
        ])
    where
      s : RbStack
      s = (All_at (IsKnown p) (inorder l) i (inorder r) h).0

      e : p.rb_stacks i ≡ some s
      e = (All_at (IsKnown p) (inorder l) i (inorder r) h).1

      k : StackOk p i s
      k = nodes i s e
