-- ===== src/Server/PidHash/Entry.antt =====
-- task.c: the tasks of one entry of the hash, each with a pid of its own.
use mtrace.Base.{
  ℕ, ◌≤◌, ◌==◌, if◌then◌else◌, ◌≡◌, refl, sym, subst, ◌∙◌, ◌≢◌, inl, inr, true, false, Option, none,
  some, List, [], ◌∷◌, ◌++◌, length, arith, All, All-append, All-map, Bool-cases, ==_iff,
}
use mtrace.Server.PidHash.{PidHash, PidTable, pid_slot, find_task, drop_task}

module _ {A : Type 0} (pid : A → ℕ) where
  abbrev pub IsDistinct : List A → Type 0
  IsDistinct [] = Unit
  IsDistinct (a ∷ ts) = All (λ b. pid b ≢ pid a) ts × IsDistinct ts

  -- What an entry with index `i` holds: tasks of that slot, each pid once, and no more than fit.
  pub record IsEntry (i : ℕ) (e : PidHash A) : Type 0 where
    pub home : All (λ a. pid_slot pid (pid a) ≡ i) e.tasks
    pub distinct : IsDistinct e.tasks
    pub room : length e.tasks ≤ e.size

  abbrev pub IsPlace : ℕ → Option (PidHash A) → Type 0
  IsPlace i none = Unit
  IsPlace i (some e) = IsEntry i e

  abbrev pub IsTable : PidTable A → Type 0
  IsTable h = (i : ℕ) → IsPlace i (h i)

  find-hit : (a : A) (ts : List A) (k : ℕ) → pid a == k ≡ true → find_task pid (a ∷ ts) k ≡ some a
  unfolding find_task
  find-hit a ts k t = rw (t, find_task) refl

  find-miss :
      (a : A) (ts : List A) (k : ℕ)
      → pid a == k ≡ false
      → find_task pid (a ∷ ts) k ≡ find_task pid ts k
  unfolding find_task
  find-miss a ts k f = rw (f, find_task) refl

  drop-hit : (a : A) (ts : List A) (k : ℕ) → pid a == k ≡ true → drop_task pid (a ∷ ts) k ≡ ts
  unfolding drop_task
  drop-hit a ts k t = rw (t, drop_task) refl

  drop-miss :
      (a : A) (ts : List A) (k : ℕ)
      → pid a == k ≡ false
      → drop_task pid (a ∷ ts) k ≡ a ∷ drop_task pid ts k
  unfolding drop_task
  drop-miss a ts k f = rw (f, drop_task) refl

  pub find_absent : (ts : List A) (k : ℕ) → find_task pid ts k ≡ none → All (λ b. pid b ≢ k) ts
  find_absent [] k e = tt
  find_absent (a ∷ ts) k e = elim (Bool-cases (pid a == k)) [
    | inl t ↦ absurd (let q = find-hit a ts k t in cc)
    | inr f ↦ (
      (λ q. let t = (==_iff (pid a) k).1 q in cc),
      find_absent ts k (sym (find-miss a ts k f) ∙ e),
    )
  ]

  pub absent_find : (ts : List A) (k : ℕ) → All (λ b. pid b ≢ k) ts → find_task pid ts k ≡ none
  unfolding find_task
  absent_find [] k h = refl
  absent_find (a ∷ ts) k h = elim (Bool-cases (pid a == k)) [
    | inl t ↦ absurd (h.0 ((==_iff _ _).0 t))
    | inr f ↦ find-miss a ts k f ∙ absent_find ts k h.1
  ]

  -- Two tasks with different pids do not both have the pid `k`.
  not_both : (x a : A) (k : ℕ) → pid x == k ≡ true → pid x ≢ pid a → pid a == k ≡ false
  not_both x a k t h = ground arith

  joined : (m p k : ℕ) → m == p ≡ true → m == k ≡ true → p == k ≡ true
  joined m p k s t = ground arith

  parted : (m p k : ℕ) → m == p ≡ true → m == k ≡ false → p == k ≡ false
  parted m p k s t = ground arith

  parted' : (m p k : ℕ) → m == p ≡ false → m == k ≡ true → p == k ≡ false
  parted' m p k s t = ground arith

  drop-nil : (p : ℕ) → drop_task pid [] p ≡ []
  unfolding drop_task
  drop-nil p = refl

  pub find-add :
      (ts : List A) (a : A) (k : ℕ)
      → All (λ b. pid b ≢ pid a) ts
      → find_task pid (ts ++ a ∷ []) k ≡ (if pid a == k then some a else find_task pid ts k)
  find-add [] a k h = elim (Bool-cases (pid a == k)) [
    | inl t ↦ rw (t) (find-hit a [] k t)
    | inr f ↦ rw (f) (find-miss a [] k f)
  ]
  find-add (x ∷ ts) a k h = elim (Bool-cases (pid x == k)) [
    | inl t ↦ rw (find-hit x ts k t, find-hit x (ts ++ a ∷ []) k t, not_both x a k t h.0) refl
    | inr f ↦ rw (find-miss x ts k f, find-miss x (ts ++ a ∷ []) k f) (find-add ts a k h.1)
  ]

  pub find-drop :
      (ts : List A) (p k : ℕ)
      → IsDistinct ts
      → find_task pid (drop_task pid ts p) k ≡ (if p == k then none else find_task pid ts k)
  find-drop [] p k d =
      rw (drop-nil p)
        (elim (Bool-cases (p == k)) [ inl t ↦ rw (t) (absent_find [] k tt) | inr f ↦ rw (f) refl ])
  find-drop (x ∷ ts) p k d = elim (Bool-cases (pid x == p)) [
    | inl t ↦ rw (drop-hit x ts p t) (elim (Bool-cases (pid x == k)) [
      | inl u ↦
          rw (joined (pid x) p k t u)
            (absent_find ts k (All-map (λ b n e. n (e ∙ sym ((==_iff _ _).0 u))) ts d.0))
      | inr g ↦ rw (parted (pid x) p k t g, find-miss x ts k g) refl
    ])
    | inr f ↦ rw (drop-miss x ts p f) (elim (Bool-cases (pid x == k)) [
      | inl u ↦
          rw (find-hit x (drop_task pid ts p) k u, find-hit x ts k u, parted' (pid x) p k f u) refl
      | inr g ↦ rw (find-miss x (drop_task pid ts p) k g, find-miss x ts k g) (find-drop ts p k d.1)
    ])
  ]

  -- An entry keeps its form when a task with a new pid is added or one is dropped.
  pub All-drop : (P : A → Type 0) (ts : List A) (p : ℕ) → All P ts → All P (drop_task pid ts p)
  unfolding drop_task
  All-drop P [] p h = tt
  All-drop P (x ∷ ts) p h = elim (Bool-cases (pid x == p)) [
    | inl t ↦ subst (All P) (sym (drop-hit x ts p t)) h.1
    | inr f ↦ subst (All P) (sym (drop-miss x ts p f)) (h.0, All-drop P ts p h.1)
  ]

  pub IsDistinct-drop : (ts : List A) (p : ℕ) → IsDistinct ts → IsDistinct (drop_task pid ts p)
  unfolding drop_task
  IsDistinct-drop [] p d = tt
  IsDistinct-drop (x ∷ ts) p d = elim (Bool-cases (pid x == p)) [
    | inl t ↦ subst IsDistinct (sym (drop-hit x ts p t)) d.1
    | inr f ↦
        subst IsDistinct (sym (drop-miss x ts p f))
          (All-drop (λ b. pid b ≢ pid x) ts p d.0, IsDistinct-drop ts p d.1)
  ]

  pub length-drop : (ts : List A) (p : ℕ) → length (drop_task pid ts p) ≤ length ts
  unfolding drop_task
  length-drop [] p = omega arith
  length-drop (x ∷ ts) p = elim (Bool-cases (pid x == p)) [
    | inl t ↦ rw (drop-hit x ts p t) (omega arith)
    | inr f ↦ rw (drop-miss x ts p f) (omega (arith, length-drop ts p))
  ]

  pub IsDistinct-add :
      (ts : List A) (a : A)
      → All (λ b. pid b ≢ pid a) ts
      → IsDistinct ts
      → IsDistinct (ts ++ a ∷ [])
  IsDistinct-add [] a h d = (tt, tt)
  IsDistinct-add (x ∷ ts) a h d = (
    All-append (λ b. pid b ≢ pid x) ts (a ∷ []) d.0 ((λ e. h.0 (sym e)), tt),
    IsDistinct-add ts a h.1 d.1,
  )
