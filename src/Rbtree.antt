-- ===== src/Rbtree.antt =====
-- rbtree.h: the nodes of a search tree, `rb_link_node`, and what the clients of rbtree.c rely on.
-- A tree is the shape that the child pointers span; a pointer to a node is its path from the root.
-- `rb_insert_color` and `rb_erase` are fields of an interface with the laws that clients use.
pub mod Paths
pub mod Sorted
pub mod Plain
use mtrace.Base.{◌≡◌, Option, none, some, List, [], ◌∷◌, ◌++◌}

pub data Color : Type 0 where
  red black : Color

pub data Tree {ℓ} (A : Type ℓ) : Type ℓ where
  leaf : Tree A
  node : Color → Tree A → A → Tree A → Tree A

pub data Dir : Type 0 where
  left right : Dir

abbrev pub Trail : Type 0
Trail = List Dir

module _ {ℓ} {A : Type ℓ} where
  abbrev pub inorder : Tree A → List A
  inorder leaf = []
  inorder (node c l x r) = inorder l ++ x ∷ inorder r

  -- The node behind a pointer.
  unfoldable pub get : Tree A → Trail → Option A
  get leaf p = none
  get (node c l x r) [] = some x
  get (node c l x r) (left ∷ p) = get l p
  get (node c l x r) (right ∷ p) = get r p

  -- A write to the fields of a node that is in the tree.
  unfoldable pub put : Tree A → Trail → A → Tree A
  put leaf p y = leaf
  put (node c l x r) [] y = node c l y r
  put (node c l x r) (left ∷ p) y = node c (put l p y) x r
  put (node c l x r) (right ∷ p) y = node c l x (put r p y)

  -- The new node is red, since its parent pointer has a zero in the color bit.
  unfoldable pub rb_link_node : Tree A → Trail → A → Tree A
  rb_link_node leaf p y = node red leaf y leaf
  rb_link_node (node c l x r) [] y = node c l x r
  rb_link_node (node c l x r) (left ∷ p) y = node c (rb_link_node l p y) x r
  rb_link_node (node c l x r) (right ∷ p) y = node c l x (rb_link_node r p y)

  -- The path ends at a null link, where a node can be hung in.
  abbrev pub IsSlot : Tree A → Trail → Type 0
  IsSlot leaf [] = Unit
  IsSlot leaf (d ∷ p) = ⊥
  IsSlot (node c l x r) [] = ⊥
  IsSlot (node c l x r) (left ∷ p) = IsSlot l p
  IsSlot (node c l x r) (right ∷ p) = IsSlot r p

  -- What stands before and behind a place, in order.
  unfoldable pub before : Tree A → Trail → List A
  before leaf p = []
  before (node c l x r) [] = inorder l
  before (node c l x r) (left ∷ p) = before l p
  before (node c l x r) (right ∷ p) = inorder l ++ x ∷ before r p

  unfoldable pub behind : Tree A → Trail → List A
  behind leaf p = []
  behind (node c l x r) [] = inorder r
  behind (node c l x r) (left ∷ p) = behind l p ++ x ∷ inorder r
  behind (node c l x r) (right ∷ p) = behind r p

-- The rebalancing operations and their contract: on a balanced tree, linking a node in and calling
-- `rb_insert_color` puts it at its place in the order, and `rb_erase` takes that one node out.
pub record Rebalance {ℓ} (A : Type ℓ) : Type (ℓ + 1) where
  pub rb_insert_color : Tree A → Trail → Tree A
  pub rb_erase : Tree A → Trail → Tree A
  pub IsBalanced : Tree A → Type 0
  pub leaf-IsBalanced : IsBalanced leaf
  pub put-IsBalanced : (t : Tree A) (p : Trail) (y : A) → IsBalanced t → IsBalanced (put t p y)
  pub insert-IsBalanced :
      (t : Tree A) (p : Trail) (y : A)
      → IsBalanced t
      → IsSlot t p
      → IsBalanced (rb_insert_color (rb_link_node t p y) p)
  pub insert-inorder :
      (t : Tree A) (p : Trail) (y : A)
      → IsBalanced t
      → IsSlot t p
      → inorder (rb_insert_color (rb_link_node t p y) p) ≡ before t p ++ y ∷ behind t p
  pub erase-IsBalanced :
      (t : Tree A) (p : Trail) (x : A) → IsBalanced t → get t p ≡ some x → IsBalanced (rb_erase t p)
  pub erase-inorder :
      (t : Tree A) (p : Trail) (x : A)
      → IsBalanced t
      → get t p ≡ some x
      → inorder (rb_erase t p) ≡ before t p ++ behind t p
