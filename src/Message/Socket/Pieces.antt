-- ===== src/Message/Socket/Pieces.antt =====
-- sysdeps/linux-gnu/socket.c: what is read does not depend on the pieces in which it arrives.
use mtrace.Base.{
  ℕ, ◌+◌, ◌-◌, ltb, true, Outcome, ok, aborted, fault, diverged, Ends, ◌≤◌, ◌≡◌, refl, ap, sym, ◌∙◌,
  inl, inr, ◌==◌, leb, false, Option, none, some, List, [], ◌∷◌, ◌++◌, arith, length, take, drop,
  zero, suc, length-append, All, Bool-cases,
}
use mathlib.Core.List.{append_assoc}
use mtrace.Message.Socket.{left_over, in_front, read_from, safe_read}

-- All bytes that will arrive.
abbrev pub stream : List (List ℕ) → List ℕ
stream [] = []
stream (c ∷ pieces) = c ++ stream pieces

abbrev pub NonEmpty : List (List ℕ) → Type 0
NonEmpty pieces = All (λ c. 1 ≤ length c) pieces

-- The read has taken the first bytes of the stream, and the rest is still to come.
abbrev pub ReadsFront : List ℕ → ℕ → Option (List ℕ × List (List ℕ)) → Type 0
ReadsFront bytes n none = ⊥
ReadsFront bytes n (some (bs, rest)) = (length bs ≡ n) × (bytes ≡ bs ++ stream rest) × NonEmpty rest

take-drop : (n : ℕ) (c : List ℕ) → c ≡ take n c ++ drop n c
take-drop zero c = refl
take-drop (suc n) [] = refl
take-drop (suc n) (x ∷ c) = ap (◌∷◌ x) (take-drop n c)

length-take : (n : ℕ) (c : List ℕ) → n ≤ length c → length (take n c) ≡ n
length-take zero c h = refl
length-take (suc n) [] h = absurd (omega arith)
length-take (suc n) (x ∷ c) h = ap suc (length-take n c (omega arith))

stream-left_over :
    (c : List ℕ) (pieces : List (List ℕ)) → stream (left_over c pieces) ≡ c ++ stream pieces
stream-left_over [] pieces = refl
stream-left_over (x ∷ c) pieces = refl

left_over-NonEmpty :
    (c : List ℕ) (pieces : List (List ℕ)) → NonEmpty pieces → NonEmpty (left_over c pieces)
left_over-NonEmpty [] pieces h = h
left_over-NonEmpty (x ∷ c) pieces h = (omega arith, h)

in_front-ReadsFront :
    (c bytes : List ℕ) (n : ℕ) (o : Outcome (Option (List ℕ × List (List ℕ))))
    → length c ≤ n
    → Ends ⊥ (ReadsFront bytes (n - length c)) o
    → Ends ⊥ (ReadsFront (c ++ bytes) n) (in_front c o)
in_front-ReadsFront c bytes n (ok none) le h = h
in_front-ReadsFront c bytes n (ok (some (bs, rest))) le h = (
  omega (arith, length-append c bs, h.0),
  ap (◌++◌ c) h.1 ∙ sym (append_assoc c bs (stream rest)),
  h.2,
)
in_front-ReadsFront c bytes n aborted le h = h
in_front-ReadsFront c bytes n fault le h = h
in_front-ReadsFront c bytes n diverged le h = h

read_from-ReadsFront :
    (off : ℕ) (pieces : List (List ℕ)) (n : ℕ)
    → NonEmpty pieces
    → 1 ≤ n
    → off + n ≤ 2147483648
    → n ≤ length (stream pieces)
    → Ends ⊥ (ReadsFront (stream pieces) n) (read_from off pieces n)
unfolding read_from
read_from-ReadsFront off [] n h pos fits le = absurd (omega arith)
read_from-ReadsFront off (c ∷ pieces) n (some_c, h) pos fits le =
    let is_some : (length c == 0) ≡ false = ground arith in
    elim (Bool-cases (leb n (length c))) [
      | inl enough ↦
          rw (is_some, enough, Ends)
            (
              length-take n c (ground arith),
              ap (λ z. z ++ stream pieces) (take-drop n c)
                  ∙ append_assoc (take n c) (drop n c) (stream pieces)
                  ∙ ap (◌++◌ (take n c)) (sym (stream-left_over (drop n c) pieces)),
              left_over-NonEmpty (drop n c) pieces h,
            )
      | inr short ↦
          let in_range : ltb (off + length c) 2147483648 ≡ true = ground arith in
          rw (is_some, short, in_range)
            (in_front-ReadsFront c (stream pieces) n
              (read_from (off + length c) pieces (n - length c)) (ground arith)
              (read_from-ReadsFront (off + length c) pieces (n - length c) h (ground arith)
                (ground arith) (ground (arith, length-append c (stream pieces)))))
    ]

-- Where at least one byte is asked for and at most 2 ^ 31, and enough bytes will arrive, `safe_read` takes
-- exactly as many as it was asked for, in whatever pieces they arrive, and leaves the rest.
pub safe_read-ReadsFront :
    (pieces : List (List ℕ)) (n : ℕ)
    → NonEmpty pieces
    → 1 ≤ n
    → n ≤ 2147483648
    → n ≤ length (stream pieces)
    → Ends ⊥ (ReadsFront (stream pieces) n) (safe_read pieces n)
unfolding safe_read
safe_read-ReadsFront pieces n h pos fits le = read_from-ReadsFront 0 pieces n h pos (omega arith) le
