-- ===== src/Server/ProcMemory/Copy.antt =====
-- sysdeps/linux-gnu/trace.c: what the copies do, and that one undoes the other.
use mtrace.Base.{
  ℕ, zero, suc, ◌+◌, ◌-◌, ◌≤◌, ◌<◌, ◌≡◌, refl, sym, ap, ◌∙◌, inr, true, some, List, [], ◌∷◌, ◌++◌,
  length, take, drop, length-drop, arith, Ends, Ends-map,
}
use mathlib.Core.Path.{ap₂}
use Prim.Native.Nat.{min}
use mathlib.Core.List.{append-nil, append_assoc}
use mtrace.Server.ProcMemory.{
  ProcBytes, bytes, write, Ptrace, Copied, patched, copy_to_loop, copy_to_proc, copy_from_to_loop,
  copy_from_to_proc,
}
use mtrace.Server.ProcMemory.Bytes.{
  write-outside, bytes-cong, write-append, restore, drop-bytes, take-bytes, bytes-append,
}

-- A whole word with the first bytes replaced writes those bytes alone.
pub write-patched :
    (os : Ptrace) (mem : ProcBytes) (a : ℕ) (src : List ℕ)
    → write mem a (patched os mem a src) ≡ write mem a src
unfolding patched
write-patched os mem a src =
    let k = length src in
    let m = write mem a src in
    write-append mem a src (drop k (bytes mem a os.word))
    ∙ ap (write m (a + k)) (
        drop-bytes mem a k os.word
        ∙ bytes-cong mem m (a + k) (os.word - k)
            (λ x le lt. sym (write-outside mem a src x (inr le))))
    ∙ (λ i x. restore m m (a + k) (os.word - k) (λ y h. refl) x i)

pub length-take : {A : Type 0} (n : ℕ) (xs : List A) → n ≤ length xs → length (take n xs) ≡ n
length-take zero xs h = refl
length-take (suc n) [] h = omega arith
length-take (suc n) (x ∷ xs) h = omega (arith, length-take n xs)

pub take-drop : {A : Type 0} (n : ℕ) (xs : List A) → take n xs ++ drop n xs ≡ xs
take-drop zero xs = refl
take-drop (suc n) [] = refl
take-drop (suc n) (x ∷ xs) = ap (λ l. x ∷ l) (take-drop n xs)

-- A write is done part by part.
pub write_parts :
    (mem : ProcBytes) (a n : ℕ) (src : List ℕ)
    → n ≤ length src
    → write (write mem a (take n src)) (a + n) (drop n src) ≡ write mem a src
write_parts mem a n src h =
    ap (λ k. write (write mem a (take n src)) (a + k) (drop n src)) (sym (length-take n src h))
    ∙ sym (write-append mem a (take n src) (drop n src))
    ∙ ap (write mem a) (take-drop n src)

pub min_le : (m n : ℕ) → min m n ≤ n
min_le m n = omega arith

min_word : (m n : ℕ) → min m n ≤ m
min_word m n = omega arith

rest_length : (n : ℕ) (src : List ℕ) → n ≤ length src → n + length (drop n src) ≡ length src
rest_length n src le = omega (arith, length-drop n src)

module _ (os : Ptrace) (some_word : 0 < os.word) (readable : (x : ℕ) → os.readable x ≡ true)
    (writable : (x : ℕ) → os.writable x ≡ true) where
  -- Every byte is written, and the result is their number.
  abbrev IsWritten : ProcBytes → ℕ → List ℕ → ℕ → Copied → Type 0
  IsWritten mem a src num c = (c.memory ≡ write mem a src) × (c.num_bytes ≡ some (num + length src))

  -- One word further: the rest is written behind it.
  further :
      (mem : ProcBytes) (a n : ℕ) (src : List ℕ) (num : ℕ) (c : Copied)
      → n ≤ length src
      → IsWritten (write mem a (patched os mem a (take n src))) (a + n) (drop n src) (num + n) c
      → IsWritten mem a src num c
  further mem a n src num c le w = (
    w.0
        ∙ ap (λ m. write m (a + n) (drop n src)) (write-patched os mem a (take n src))
        ∙ write_parts mem a n src le,
    w.1 ∙ ap some (omega (arith, length-drop n src)),
  )

  copy_to_loop-IsWritten :
      (fuel : ℕ) (mem : ProcBytes) (a : ℕ) (src : List ℕ) (num : ℕ)
      → length src ≤ fuel
      → Ends ⊥ (IsWritten mem a src num) (copy_to_loop os fuel mem a src num)
  unfolding copy_to_loop write
  copy_to_loop-IsWritten zero mem a [] num h = (refl, ap some (omega arith))
  copy_to_loop-IsWritten (suc fuel) mem a [] num h = (refl, ap some (omega arith))
  copy_to_loop-IsWritten zero mem a (b ∷ src) num h = ground arith
  copy_to_loop-IsWritten (suc fuel) mem a (b ∷ src) num h =
      let s = b ∷ src in
      let n = min os.word (length s) in
      rw (readable a, writable a, copy_to_loop, Ends)
        (Ends-map _ _ _
          (copy_to_loop os fuel (write mem a (patched os mem a (take n s))) (a + n) (drop n s)
            (num + n))
          (copy_to_loop-IsWritten fuel _ (a + n) (drop n s) (num + n)
            (omega (arith, length-drop n s)))
          (λ c w. further mem a n s num c (min_le os.word (length s)) w))

  -- And the bytes that stood there come back.
  abbrev IsExchanged : ProcBytes → ℕ → List ℕ → List ℕ → ℕ → Copied → Type 0
  IsExchanged mem a src dst num c =
      IsWritten mem a src num c × (c.dst ≡ dst ++ bytes mem a (length src))

  -- The bytes behind a write are those that were there.
  got_further :
      (mem : ProcBytes) (a n : ℕ) (src dst : List ℕ)
      → n ≤ os.word
      → n ≤ length src
      → (dst ++ take n (bytes mem a os.word))
          ++ bytes (write mem a (patched os mem a (take n src))) (a + n) (length (drop n src))
        ≡ dst ++ bytes mem a (length src)
  got_further mem a n src dst lw le =
      append_assoc dst _ _
      ∙ ap (λ l. dst ++ l)
          (ap₂ (λ p q. p ++ q) (take-bytes mem a n os.word lw)
              (ap (λ m. bytes m (a + n) (length (drop n src))) (write-patched os mem a (take n src))
                ∙ bytes-cong (write mem a (take n src)) mem (a + n) (length (drop n src)) (λ x k lt.
                  write-outside mem a (take n src) x (inr (omega (arith, length-take n src le)))))
            ∙ bytes-append mem a n (length (drop n src))
            ∙ ap (bytes mem a) (rest_length n src le))

  copy_from_to_loop-IsExchanged :
      (fuel : ℕ) (mem : ProcBytes) (a : ℕ) (src dst : List ℕ) (num : ℕ)
      → length src ≤ fuel
      → Ends ⊥ (IsExchanged mem a src dst num) (copy_from_to_loop os fuel mem a src dst num)
  unfolding copy_from_to_loop write bytes
  copy_from_to_loop-IsExchanged zero mem a [] dst num h =
      ((refl, ap some (omega arith)), sym (append-nil dst))
  copy_from_to_loop-IsExchanged (suc fuel) mem a [] dst num h =
      ((refl, ap some (omega arith)), sym (append-nil dst))
  copy_from_to_loop-IsExchanged zero mem a (b ∷ src) dst num h = ground arith
  copy_from_to_loop-IsExchanged (suc fuel) mem a (b ∷ src) dst num h =
      let s = b ∷ src in
      let n = min os.word (length s) in
      let got = dst ++ take n (bytes mem a os.word) in
      rw (readable a, writable a, copy_from_to_loop, Ends)
        (Ends-map _ _ _
          (copy_from_to_loop os fuel (write mem a (patched os mem a (take n s))) (a + n) (drop n s)
            got (num + n))
          (copy_from_to_loop-IsExchanged fuel _ (a + n) (drop n s) got (num + n)
            (omega (arith, length-drop n s)))
          (λ c w. (
            further mem a n s num c (min_le os.word (length s)) w.0,
            w.1
                ∙ got_further mem a n s dst (min_word os.word (length s))
                    (min_le os.word (length s)),
          )))

  pub copy_to_proc-IsWritten :
      (mem : ProcBytes) (a : ℕ) (src : List ℕ)
      → Ends ⊥ (IsWritten mem a src 0) (copy_to_proc os mem a src)
  unfolding copy_to_proc
  copy_to_proc-IsWritten mem a src = copy_to_loop-IsWritten (length src) mem a src 0 (omega arith)

  pub copy_from_to_proc-IsExchanged :
      (mem : ProcBytes) (a : ℕ) (src : List ℕ)
      → Ends ⊥ (IsExchanged mem a src [] 0) (copy_from_to_proc os mem a src)
  unfolding copy_from_to_proc
  copy_from_to_proc-IsExchanged mem a src =
      copy_from_to_loop-IsExchanged (length src) mem a src [] 0 (omega arith)
