-- ===== src/Server/Events/Members.antt =====
-- event.c: the threads of a leader, one of which is changed, and how many of them are stopped.
use mtrace.Base.{
  ℕ, ◌+◌, ◌==◌, if◌then◌else◌, ◌≡◌, refl, ◌≢◌, sym, ap, ◌∙◌, inl, inr, Bool, true, false, some,
  List, [], ◌∷◌, length, total, arith, All, Bool-cases, ==_iff,
}
use mtrace.Server.Events.{Task, find_member, set_member}

abbrev pub one_if : Bool → ℕ
one_if b = if b then 1 else 0

abbrev pub one_unless : Bool → ℕ
one_unless b = if b then 0 else 1

abbrev pub stopped_count : List Task → ℕ
stopped_count ts = total (λ t. one_if t.stopped) ts

abbrev pub running_count : List Task → ℕ
running_count ts = total (λ t. one_unless t.stopped) ts

find-hit : (t : Task) (ts : List Task) (p : ℕ) → t.pid == p ≡ true → find_member (t ∷ ts) p ≡ some t
unfolding find_member
find-hit t ts p e = rw (e, find_member) refl

find-miss :
    (t : Task) (ts : List Task) (p : ℕ)
    → t.pid == p ≡ false
    → find_member (t ∷ ts) p ≡ find_member ts p
unfolding find_member
find-miss t ts p e = rw (e, find_member) refl

set-hit :
    (t : Task) (ts : List Task) (p : ℕ) (u : Task)
    → t.pid == p ≡ true
    → set_member (t ∷ ts) p u ≡ u ∷ ts
unfolding set_member
set-hit t ts p u e = rw (e, set_member) refl

set-miss :
    (t : Task) (ts : List Task) (p : ℕ) (u : Task)
    → t.pid == p ≡ false
    → set_member (t ∷ ts) p u ≡ t ∷ set_member ts p u
unfolding set_member
set-miss t ts p u e = rw (e, set_member) refl

some_task : (t u : Task) → some t ≡ some u → t ≡ u
some_task t u e = cc

no_member : (p : ℕ) (t : Task) → find_member [] p ≡ some t → ⊥
unfolding find_member
no_member p t e = cc

pub find-pid : (ts : List Task) (p : ℕ) (t : Task) → find_member ts p ≡ some t → t.pid ≡ p
find-pid [] p t e = absurd (no_member p t e)
find-pid (x ∷ ts) p t e = elim (Bool-cases (x.pid == p)) [
  | inl h ↦ ap (λ z. z.pid) (some_task t x (sym e ∙ find-hit x ts p h)) ∙ (==_iff x.pid p).0 h
  | inr f ↦ find-pid ts p t (sym (find-miss x ts p f) ∙ e)
]

-- Setting a member changes the one that is found, and no other.
pub find-set-same :
    (ts : List Task) (p : ℕ) (t u : Task)
    → find_member ts p ≡ some t
    → u.pid ≡ p
    → find_member (set_member ts p u) p ≡ some u
find-set-same [] p t u e q = absurd (no_member p t e)
find-set-same (x ∷ ts) p t u e q = elim (Bool-cases (x.pid == p)) [
  | inl h ↦ rw (set-hit x ts p u h) (find-hit u ts p ((==_iff u.pid p).1 q))
  | inr f ↦
      rw (set-miss x ts p u f, find-miss x (set_member ts p u) p f)
        (find-set-same ts p t u (sym (find-miss x ts p f) ∙ e) q)
]

pub find-set-other :
    (ts : List Task) (p q : ℕ) (u : Task)
    → u.pid ≡ p
    → p ≢ q
    → find_member (set_member ts p u) q ≡ find_member ts q
unfolding set_member
find-set-other [] p q u e ne = refl
find-set-other (x ∷ ts) p q u e ne = elim (Bool-cases (x.pid == p)) [
  | inl h ↦
      rw (set-hit x ts p u h, find-miss u ts q (ground arith), find-miss x ts q (ground arith)) refl
  | inr f ↦ rw (set-miss x ts p u f) (elim (Bool-cases (x.pid == q)) [
    | inl k ↦ rw (find-hit x (set_member ts p u) q k, find-hit x ts q k) refl
    | inr k ↦
        rw (find-miss x (set_member ts p u) q k, find-miss x ts q k) (find-set-other ts p q u e ne)
  ])
]

pub length-set : (ts : List Task) (p : ℕ) (u : Task) → length (set_member ts p u) ≡ length ts
unfolding set_member
length-set [] p u = refl
length-set (x ∷ ts) p u = elim (Bool-cases (x.pid == p)) [
  | inl h ↦ rw (set-hit x ts p u h) refl
  | inr f ↦ rw (set-miss x ts p u f) (omega (arith, length-set ts p u))
]

pub total-set :
    (f : Task → ℕ) (ts : List Task) (p : ℕ) (t u : Task)
    → find_member ts p ≡ some t
    → total f (set_member ts p u) + f t ≡ total f ts + f u
unfolding total
total-set f [] p t u e = absurd (no_member p t e)
total-set f (x ∷ ts) p t u e = elim (Bool-cases (x.pid == p)) [
  | inl h ↦
      let same = ap f (some_task t x (sym e ∙ find-hit x ts p h)) in
      rw (set-hit x ts p u h) (omega (arith, same))
  | inr f' ↦
      let k = total-set f ts p t u (sym (find-miss x ts p f') ∙ e) in
      rw (set-miss x ts p u f') (omega (arith, k))
]

pub stopped-running : (ts : List Task) → stopped_count ts + running_count ts ≡ length ts
unfolding total
stopped-running [] = refl
stopped-running (t ∷ ts) = elim (Bool-cases t.stopped) [
  | inl e ↦ rw (e) (omega (arith, stopped-running ts))
  | inr e ↦ rw (e) (omega (arith, stopped-running ts))
]

pub all_stopped : (ts : List Task) → running_count ts ≡ 0 → All (λ t. t.stopped ≡ true) ts
unfolding total
all_stopped [] e = tt
all_stopped (t ∷ ts) e = elim (Bool-cases t.stopped) [
  | inl h ↦ (h, all_stopped ts (omega (arith, e)))
  | inr h ↦ absurd (let k = ap one_unless h in omega (arith, e, k))
]
