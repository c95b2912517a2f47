-- ===== src/Process/Books/Resolved.antt =====
-- client/process.c: `stack_resolv` returns for a call stack in mapped files, if memory is not exhausted.
use mtrace.Base.{
  ℕ, zero, suc, ◌≡◌, inl, inr, Bool, true, some, List, drop, All, Ends, Ends-bind, Option-cases,
}
use mtrace.Message.Wire.{Format, ptr_size}
use mtrace.Process.State.{Map, Env, answers}
use mtrace.Process.Resolv.{locate_map, resolv_address, resolv_all, entries, stack_resolv, AllMapped}
use mtrace.Process.Books.Same.{answer-true, answers-true}

abbrev Free : List Bool → Type 0
Free memory = All (λ b. b ≡ true) memory

module _ (v : Env) (R : Type 0) (maps : List Map) where
  resolv_address-Free :
      (a : ℕ) (m : Map) (memory : List Bool)
      → locate_map maps a ≡ some m
      → Free memory
      → Ends R (λ r. Free r.1) (resolv_address v maps a memory)
  unfolding resolv_address
  resolv_address-Free a m memory e free = elim (Option-cases (v.lookup m a)) [
    | inl unnamed ↦
        rw (e, resolv_address)
          (rw (unnamed, answer-true memory free, Ends)
            (answers-true (answers memory) (answers-true memory free)))
    | inr (name, named) ↦ rw (e, resolv_address) (rw (named, Ends) free)
  ]

  resolv_all-Free :
      (f : Format) (n : ℕ) (addrs : List ℕ) (memory : List Bool)
      → AllMapped maps f n addrs
      → Free memory
      → Ends R (λ r. Free r.1) (resolv_all v maps f n addrs memory)
  unfolding resolv_all
  resolv_all-Free f zero addrs memory h free = free
  resolv_all-Free f (suc n) addrs memory h free =
      rw (h.0.1, resolv_all)
        (Ends-bind R (λ r. Free r.1) (λ r. Free r.1) (resolv_address v maps h.0.0 memory) _
          (resolv_address-Free h.0.0 h.0.2 memory h.0.3 free)
          λ r left.
            Ends-bind R (λ q. Free q.1) (λ q. Free q.1)
              (resolv_all v maps f n (drop (ptr_size f) addrs) r.1) _
              (resolv_all-Free f n (drop (ptr_size f) addrs) r.1 h.1 left) λ q rest. rest)

  pub stack_resolv-Given :
      (f : Format) (addrs : List ℕ) (memory : List Bool)
      → Free memory
      → AllMapped maps f (entries v maps f addrs) addrs
      → Ends R (λ r. Free r.1) (stack_resolv v maps f addrs memory)
  unfolding stack_resolv
  stack_resolv-Given f addrs memory free h =
      rw (answer-true memory free, stack_resolv)
        (Ends-bind R (λ r. Free r.1) (λ r. Free r.1)
          (resolv_all v maps f (entries v maps f addrs) addrs (answers memory)) _
          (resolv_all-Free f (entries v maps f addrs) addrs (answers memory) h
            (answers-true memory free))
          λ r left. left)
