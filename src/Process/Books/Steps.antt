-- ===== src/Process/Books/Steps.antt =====
-- client/process.c: what the operations on one call stack do, as equations on the stores.
use mathlib.Core.Path.{fun_ext}
use mtrace.Base.{
  ℕ, ◌≡◌, inl, inr, ◌==◌, ==_refl, ==_iff, sym, ap, if◌then◌else◌, false, Option, some, arith,
  Bool-cases, ok,
}
use mtrace.Base.Word.{add64, sub64, low32}
use mtrace.Process.State.{RbBlock, Stack, RbStack, Process, update}
use mtrace.Process.Stacks.{modify_stack, stack_of, stack_get, stack_put}
use mtrace.Process.Blocks.{release_leak, process_release_mem, unleaked}

pub update_self : {A : Type 0} (h : ℕ → Option A) (i : ℕ) (c : Option A) → update h i c i ≡ c
update_self h i c = rw (==_refl i)

pub update-update :
    {A : Type 0} (h : ℕ → Option A) (i : ℕ) (c d : Option A)
    → update (update h i c) i d ≡ update h i d
update-update h i c d = fun_ext λ j. ground arith

-- The process with a new structure behind a pointer to a call stack.
abbrev pub with_rb_stack : ℕ → RbStack → Process → Process
with_rb_stack i s p = record p { rb_stacks = update p.rb_stacks i (some s) }

abbrev pub with_both : ℕ → RbStack → Stack → Process → Process
with_both i s k p = record p {
  rb_stacks = update p.rb_stacks i (some s);
  stacks = update p.stacks i (some k);
}

pub modify-runs :
    (i : ℕ) (f : RbStack → RbStack) (p : Process) (s : RbStack)
    → p.rb_stacks i ≡ some s
    → modify_stack i f p ≡ ok (with_rb_stack i (f s) p)
unfolding modify_stack
modify-runs i f p s e = rw (e, modify_stack)

-- A second write behind the same pointer.
pub modify_again :
    (i : ℕ) (f : RbStack → RbStack) (p : Process) (s : RbStack)
    → modify_stack i f (with_rb_stack i s p) ≡ ok (with_rb_stack i (f s) p)
modify_again i f p s =
    rw (modify-runs i f (with_rb_stack i s p) s (update_self p.rb_stacks i (some s)))
      (rw (update-update p.rb_stacks i (some s) (some (f s))))

module _ (i : ℕ) (p : Process) (s : RbStack) (k : Stack) (e : p.rb_stacks i ≡ some s)
    (home : s.stack ≡ i) (f : p.stacks i ≡ some k) where
  stored : p.stacks s.stack ≡ some k
  stored = rw home f

  pub stack_of-runs : stack_of p i ≡ ok k
  unfolding stack_of
  stack_of-runs = rw (e, stack_of) (rw stored)

  pub stack_get-runs :
      stack_get i p
      ≡ ok (
          with_both i
            (record s { refcnt = add64 s.refcnt 1 })
            (record k { refcnt = add64 k.refcnt 1 })
            p)
  unfolding stack_get
  stack_get-runs = rw (e, stack_get) (rw stored (simp home))

  pub stack_put-runs :
      (sub64 s.refcnt 1 == 0) ≡ false
      → (sub64 k.refcnt 1 == 0) ≡ false
      → stack_put i p
        ≡ ok (
            with_both i
              (record s { refcnt = sub64 s.refcnt 1 })
              (record k { refcnt = sub64 k.refcnt 1 })
              p)
  unfolding stack_put
  stack_put-runs live live' = rw (e, stack_put) (rw stored (simp (home, live, live')))

-- A block that is released is not leaked; its call stack and its process forget the leak.
abbrev pub unleak_stack : RbBlock → RbStack → RbStack
unleak_stack b s = record s {
  leaks = if b.flags.leaked then sub64 s.leaks 1 else s.leaks;
  bytes_leaked = if b.flags.leaked then sub64 s.bytes_leaked b.size else s.bytes_leaked;
}

abbrev pub unleak_process : RbBlock → RbStack → Process → Process
unleak_process b s p = record p {
  rb_stacks = update p.rb_stacks b.stack_node (some (unleak_stack b s));
  leaks = if b.flags.leaked then sub64 p.leaks 1 else p.leaks;
  leaked_bytes = if b.flags.leaked then sub64 p.leaked_bytes b.size else p.leaked_bytes;
}

update-same : {A : Type 0} (h : ℕ → Option A) (i : ℕ) (c : Option A) → h i ≡ c → update h i c ≡ h
update-same h i c e = fun_ext λ j. elim (Bool-cases (i == j)) [
  | inl at ↦ rw at (sym (rw ((==_iff i j).0 at) at e))
  | inr off ↦ rw off
]

unleaked-same : (b : RbBlock) → b.flags.leaked ≡ false → b ≡ unleaked b
unleaked-same b e = λ i. record b { flags = record (b.flags) { leaked = e i } }

pub release_leak-runs :
    (b : RbBlock) (p : Process) (s : RbStack)
    → p.rb_stacks b.stack_node ≡ some s
    → release_leak b p ≡ ok (unleaked b, unleak_process b s p)
unfolding release_leak
release_leak-runs b p s e = elim (Bool-cases b.flags.leaked) [
  | inl yes_leaked ↦ simp (yes_leaked, modify-runs b.stack_node _ p s e)
  | inr not_leaked ↦
      simp (not_leaked, update-same p.rb_stacks b.stack_node (some s) e)
        (ap (λ (b' : RbBlock). ok (b', p)) (unleaked-same b not_leaked))
]

-- What `process_release_mem` leaves behind.
abbrev pub used_less : ℕ → RbStack → RbStack
used_less size s = record s { bytes_used = sub64 s.bytes_used (low32 size) }

abbrev pub released : RbBlock → ℕ → RbStack → Process → Process
released b size s p = record p {
  rb_stacks = update p.rb_stacks b.stack_node (some (used_less size (unleak_stack b s)));
  leaks = if b.flags.leaked then sub64 p.leaks 1 else p.leaks;
  leaked_bytes = if b.flags.leaked then sub64 p.leaked_bytes b.size else p.leaked_bytes;
  bytes_used = sub64 p.bytes_used (low32 size);
}

pub release_mem-runs :
    (b : RbBlock) (size : ℕ) (p : Process) (s : RbStack)
    → p.rb_stacks b.stack_node ≡ some s
    → process_release_mem b size p ≡ ok (unleaked b, released b size s p)
unfolding process_release_mem
release_mem-runs b size p s e = rw (release_leak-runs b p s e) (
    rw
      (modify-runs b.stack_node (used_less size) (unleak_process b s p) (unleak_stack b s)
        (update_self p.rb_stacks b.stack_node (some (unleak_stack b s))))
      (simp update-update))
