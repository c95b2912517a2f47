-- ===== src/Server/ProcMemory/Failing.antt =====
-- sysdeps/linux-gnu/trace.c: what a copy to a process leaves where ptrace fails.
use mtrace.Base.{
  ℕ, zero, suc, ◌+◌, ◌≤◌, ◌<◌, ◌==◌, ltb, ◌≡◌, refl, sym, ap, ◌∙◌, ◌⊎◌, inl, inr, not, ◌&&◌, ◌||◌,
  none, some, List, [], ◌∷◌, ◌++◌, length, take, drop, length-drop, arith, Bool-cases, Ends,
  Ends-map,
}
use Prim.Native.Nat.{min}
use mtrace.Server.ProcMemory.{
  ProcBytes, write, Ptrace, Copied, give_up, patched, copy_to_loop, copy_to_proc,
}
use mtrace.Server.ProcMemory.Copy.{write-patched, length-take, min_le}
use mtrace.Server.ProcMemory.Bytes.{write-append}

-- The first bytes, and no others, are written; the result is their number, or -1.
pub record IsPrefix (mem : ProcBytes) (a : ℕ) (src : List ℕ) (num : ℕ) (c : Copied) : Type 0 where
  pub done : ℕ
  pub fits : done ≤ length src
  pub memory : c.memory ≡ write mem a (take done src)
  pub result : (c.num_bytes ≡ some (num + done)) ⊎ ((c.num_bytes ≡ none) × (done < length src))

take-nil : (n : ℕ) → take {A = ℕ} n [] ≡ []
take-nil zero = refl
take-nil (suc n) = refl

suc_out : (n k : ℕ) → suc (n + k) ≡ suc n + k
suc_out n k = omega arith

take-take : (n k : ℕ) (src : List ℕ) → take n src ++ take k (drop n src) ≡ take (n + k) src
take-take zero k src = ap (λ z. take z src) (omega arith)
take-take (suc n) k [] = take-nil k ∙ sym (take-nil (suc n + k))
take-take (suc n) k (x ∷ src) =
    ap (λ l. x ∷ l) (take-take n k src) ∙ ap (λ z. take z (x ∷ src)) (suc_out n k)

module _ (os : Ptrace) where
  given_up :
      (mem : ProcBytes) (a : ℕ) (b : ℕ) (src : List ℕ) (num : ℕ)
      → IsPrefix mem a (b ∷ src) num (record { memory = mem; dst = []; num_bytes = give_up os num })
  unfolding write
  given_up mem a b src num = record {
    done = 0;
    fits = omega arith;
    memory = refl;
    result = elim (Bool-cases (not (num == 0) && os.eio)) [
      | inl e ↦ inl (rw (e) (ap some (omega arith)))
      | inr e ↦ inr (rw (e) refl, omega arith)
    ];
  }

  further :
      (mem : ProcBytes) (a n : ℕ) (src : List ℕ) (num : ℕ) (c : Copied)
      → n ≤ length src
      → IsPrefix (write mem a (patched os mem a (take n src))) (a + n) (drop n src) (num + n) c
      → IsPrefix mem a src num c
  further mem a n src num c le w = record {
    done = n + w.done;
    fits = omega (arith, w.fits, length-drop n src);
    memory =
        w.memory
        ∙ ap (λ m. write m (a + n) (take w.done (drop n src))) (write-patched os mem a (take n src))
        ∙ ap (λ k. write (write mem a (take n src)) (a + k) (take w.done (drop n src)))
            (sym (length-take n src le))
        ∙ sym (write-append mem a (take n src) (take w.done (drop n src)))
        ∙ ap (write mem a) (take-take n w.done src);
    result = moved w.result;
  }
    where
      moved :
          (c.num_bytes ≡ some ((num + n) + w.done))
            ⊎ ((c.num_bytes ≡ none) × (w.done < length (drop n src)))
          → (c.num_bytes ≡ some (num + (n + w.done)))
            ⊎ ((c.num_bytes ≡ none) × (n + w.done < length src))
      moved (inl e) = inl (e ∙ ap some (omega arith))
      moved (inr e) = inr (e.0, omega (arith, e.1, length-drop n src))

  copy_to_loop-IsPrefix :
      (fuel : ℕ) (mem : ProcBytes) (a : ℕ) (src : List ℕ) (num : ℕ)
      → 0 < os.word
      → length src ≤ fuel
      → Ends ⊥ (IsPrefix mem a src num) (copy_to_loop os fuel mem a src num)
  unfolding copy_to_loop write
  copy_to_loop-IsPrefix zero mem a [] num pos h = record {
    done = 0;
    fits = omega arith;
    memory = refl;
    result = inl (ap some (omega arith));
  }
  copy_to_loop-IsPrefix (suc fuel) mem a [] num pos h = record {
    done = 0;
    fits = omega arith;
    memory = refl;
    result = inl (ap some (omega arith));
  }
  copy_to_loop-IsPrefix zero mem a (b ∷ src) num pos h = ground arith
  copy_to_loop-IsPrefix (suc fuel) mem a (b ∷ src) num pos h =
      let s = b ∷ src in
      let n = min os.word (length s) in
      elim (Bool-cases ((os.readable a || not (ltb n os.word)) && os.writable a)) [
        | inr f ↦ rw (f, copy_to_loop, Ends) (given_up mem a b src num)
        | inl t ↦
            rw (t, copy_to_loop, Ends)
              (Ends-map _ _ _
                (copy_to_loop os fuel (write mem a (patched os mem a (take n s))) (a + n) (drop n s)
                  (num + n))
                (copy_to_loop-IsPrefix fuel _ (a + n) (drop n s) (num + n) pos
                  (omega (arith, length-drop n s)))
                (λ c w. further mem a n s num c (min_le os.word (length s)) w))
      ]

  -- Wherever ptrace fails, a copy to a process returns; it has written the first bytes of the source and
  -- nothing else, and its result is their number, or -1 where some are missing.
  pub copy_to_proc-IsPrefix :
      (mem : ProcBytes) (a : ℕ) (src : List ℕ)
      → 0 < os.word
      → Ends ⊥ (IsPrefix mem a src 0) (copy_to_proc os mem a src)
  unfolding copy_to_proc
  copy_to_proc-IsPrefix mem a src pos =
      copy_to_loop-IsPrefix (length src) mem a src 0 pos (omega arith)
