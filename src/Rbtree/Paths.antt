-- ===== src/Rbtree/Paths.antt =====
-- The nodes of a tree in order, seen from one place in it.
use mtrace.Base.{◌≡◌, refl, sym, some, [], ◌∷◌, ◌++◌}
use mathlib.Core.List.{append_assoc}
use mtrace.Rbtree.{
  Tree, leaf, node, left, right, Trail, inorder, get, put, rb_link_node, IsSlot, before, behind,
}

module _ {ℓ} {A : Type ℓ} where
  pub inorder-get :
      (t : Tree A) (p : Trail) (x : A) → get t p ≡ some x → inorder t ≡ before t p ++ x ∷ behind t p
  unfolding get before behind
  inorder-get leaf p x e = cc
  inorder-get (node c l y r) [] x e = cc
  inorder-get (node c l y r) (left ∷ p) x e =
      rw (inorder-get l p x e) (append_assoc (before l p) (x ∷ behind l p) (y ∷ inorder r))
  inorder-get (node c l y r) (right ∷ p) x e =
      rw (inorder-get r p x e) (sym (append_assoc (inorder l) (y ∷ before r p) (x ∷ behind r p)))

  pub inorder-put :
      (t : Tree A) (p : Trail) (x y : A)
      → get t p ≡ some x
      → inorder (put t p y) ≡ before t p ++ y ∷ behind t p
  unfolding get put before behind
  inorder-put leaf p x y e = cc
  inorder-put (node c l z r) [] x y e = refl
  inorder-put (node c l z r) (left ∷ p) x y e =
      rw (inorder-put l p x y e) (append_assoc (before l p) (y ∷ behind l p) (z ∷ inorder r))
  inorder-put (node c l z r) (right ∷ p) x y e =
      rw (inorder-put r p x y e) (sym (append_assoc (inorder l) (z ∷ before r p) (y ∷ behind r p)))

  pub inorder-slot : (t : Tree A) (p : Trail) → IsSlot t p → inorder t ≡ before t p ++ behind t p
  unfolding before behind
  inorder-slot leaf [] s = refl
  inorder-slot leaf (d ∷ p) s = absurd s
  inorder-slot (node c l x r) [] s = absurd s
  inorder-slot (node c l x r) (left ∷ p) s =
      rw (inorder-slot l p s) (append_assoc (before l p) (behind l p) (x ∷ inorder r))
  inorder-slot (node c l x r) (right ∷ p) s =
      rw (inorder-slot r p s) (sym (append_assoc (inorder l) (x ∷ before r p) (behind r p)))

  pub inorder-link :
      (t : Tree A) (p : Trail) (y : A)
      → IsSlot t p
      → inorder (rb_link_node t p y) ≡ before t p ++ y ∷ behind t p
  unfolding rb_link_node before behind
  inorder-link leaf [] y s = refl
  inorder-link leaf (d ∷ p) y s = absurd s
  inorder-link (node c l x r) [] y s = absurd s
  inorder-link (node c l x r) (left ∷ p) y s =
      rw (inorder-link l p y s) (append_assoc (before l p) (y ∷ behind l p) (x ∷ inorder r))
  inorder-link (node c l x r) (right ∷ p) y s =
      rw (inorder-link r p y s) (sym (append_assoc (inorder l) (x ∷ before r p) (y ∷ behind r p)))
