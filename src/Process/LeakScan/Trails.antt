-- ===== src/Process/LeakScan/Trails.antt =====
-- client/process.c: the pointers that a walk over the table meets.
use mtrace.Base.{
  suc, ◌≡◌, refl, sym, ap, some, List, [], ◌∷◌, length, map, arith, length-append, total, total-nil,
  total-cons, total-append, All, All-append,
}
use mtrace.Rbtree.{Tree, leaf, node, left, right, Trail, get, put, inorder}
use mtrace.Process.State.{RbBlock}
use mtrace.Process.Books.{one}
use mtrace.Process.LeakScan.{trails}

pub get-put :
    {A : Type 0} (t : Tree A) (p q : Trail) (x y : A)
    → get t q ≡ some y
    → (z : A) × (get (put t p x) q ≡ some z)
unfolding get put
get-put leaf p q x y e = cc
get-put (node c l a r) [] [] x y e = (x, refl)
get-put (node c l a r) [] (left ∷ q) x y e = (y, e)
get-put (node c l a r) [] (right ∷ q) x y e = (y, e)
get-put (node c l a r) (left ∷ p) [] x y e = (y, e)
get-put (node c l a r) (left ∷ p) (left ∷ q) x y e = get-put l p q x y e
get-put (node c l a r) (left ∷ p) (right ∷ q) x y e = (y, e)
get-put (node c l a r) (right ∷ p) [] x y e = (y, e)
get-put (node c l a r) (right ∷ p) (left ∷ q) x y e = (y, e)
get-put (node c l a r) (right ∷ p) (right ∷ q) x y e = get-put r p q x y e

abbrev pub Hits : Tree RbBlock → List Trail → Type 0
Hits u ts = All (λ t. (b : RbBlock) × (get u t ≡ some b)) ts

module _ {A B : Type 0} (f : A → B) where
  All-image : (P : B → Type 0) (xs : List A) → All (λ x. P (f x)) xs → All P (map f xs)
  All-image P [] h = tt
  All-image P (x ∷ xs) h = (h.0, All-image P xs h.1)

  length-map : (xs : List A) → length (map f xs) ≡ length xs
  length-map [] = refl
  length-map (x ∷ xs) = ap suc (length-map xs)

pub trails-Hits : (u : Tree RbBlock) → Hits u (trails u)
unfolding trails get
trails-Hits leaf = tt
trails-Hits (node c l b r) =
    All-append _ (map (λ t. left ∷ t) (trails l)) ([] ∷ map (λ t. right ∷ t) (trails r))
      (All-image (λ t. left ∷ t) _ (trails l) (trails-Hits l))
      ((b, refl), All-image (λ t. right ∷ t) _ (trails r) (trails-Hits r))

pub length-trails : (u : Tree RbBlock) → length (trails u) ≡ total one (inorder u)
unfolding trails
length-trails leaf = sym (total-nil one)
length-trails (node c l b r) = omega (
  arith,
  length-append (map (λ t. left ∷ t) (trails l)) ([] ∷ map (λ t. right ∷ t) (trails r)),
  length-map (λ t. left ∷ t) (trails l),
  length-map (λ t. right ∷ t) (trails r),
  length-trails l,
  length-trails r,
  total-append one (inorder l) (b ∷ inorder r),
  total-cons one b (inorder r),
)
