-- ===== src/Rbtree/Plain.antt =====
-- An instance of the interface that never rebalances: it shows that the contract can be met.
use mtrace.Base.{◌≡◌, refl, sym, some, [], ◌∷◌, ◌++◌}
use mathlib.Core.List.{append_assoc}
use mtrace.Rbtree.{Tree, leaf, node, left, right, Trail, inorder, get, before, behind, Rebalance}
use mtrace.Rbtree.Paths.{inorder-link}

module _ {ℓ} {A : Type ℓ} where
  join : Tree A → Tree A → Tree A
  join leaf t = t
  join (node c l x r) t = node c l x (join r t)

  inorder-join : (s t : Tree A) → inorder (join s t) ≡ inorder s ++ inorder t
  unfolding join
  inorder-join leaf t = refl
  inorder-join (node c l x r) t =
      rw (inorder-join r t) (sym (append_assoc (inorder l) (x ∷ inorder r) (inorder t)))

  unfoldable pub cut : Tree A → Trail → Tree A
  unfolding join
  cut leaf p = leaf
  cut (node c l x r) [] = join l r
  cut (node c l x r) (left ∷ p) = node c (cut l p) x r
  cut (node c l x r) (right ∷ p) = node c l x (cut r p)

  pub inorder-cut :
      (t : Tree A) (p : Trail) (x : A)
      → get t p ≡ some x
      → inorder (cut t p) ≡ before t p ++ behind t p
  unfolding cut get before behind
  inorder-cut leaf p x e = cc
  inorder-cut (node c l y r) [] x e = inorder-join l r
  inorder-cut (node c l y r) (left ∷ p) x e =
      rw (inorder-cut l p x e) (append_assoc (before l p) (behind l p) (y ∷ inorder r))
  inorder-cut (node c l y r) (right ∷ p) x e =
      rw (inorder-cut r p x e) (sym (append_assoc (inorder l) (y ∷ before r p) (behind r p)))

abbrev pub plain : {A : Type 0} → Rebalance A
unfolding cut
plain = record {
  rb_insert_color = λ t p. t;
  rb_erase = cut;
  IsBalanced = λ t. Unit;
  leaf-IsBalanced = tt;
  put-IsBalanced = λ t p y b. tt;
  insert-IsBalanced = λ t p y b s. tt;
  insert-inorder = λ t p y b s. inorder-link t p y s;
  erase-IsBalanced = λ t p x b e. tt;
  erase-inorder = λ t p x b e. inorder-cut t p x e;
}
