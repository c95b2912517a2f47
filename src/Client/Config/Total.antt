-- ===== src/Client/Config/Total.antt =====
-- client/client.c: the parser of the configuration ends and reads nothing outside of the file.
use mtrace.Base.{
  length-drop, ℕ, zero, suc, ◌+◌, ◌-◌, ◌≤◌, ◌<◌, ◌≡◌, refl, inl, inr, ◌==◌, Bool, true, false, not,
  List, [], ◌∷◌, ◌++◌, sym, ap, subst, ◌∙◌, arith, drop, length, All, All-append, Bool-cases, ok,
  ◌>>=◌, Ends, Ends-bind, Ends-map,
}
use mathlib.Core.List.{append_assoc, append-nil}
use mtrace.Client.Config.{
  byte, is_nl, is_space, skip_nl, get_line, skip_space, trim_space, cmp_from, cmp_n, keyword,
  strndup, add_valid, parse_line, unless_comment, parse_loop, _parse_config,
}
use mtrace.Client.Config.Scanners.{
  Counted, count_while-Counted, byte_at, trim_space_within, cmp_from_within,
}

module _ (regcomp : List ℕ → Bool) where
  -- Valid expressions were appended.
  pub record Parsed (before after : List (List ℕ)) : Type 0 where
    pub found : List (List ℕ)
    pub appended : after ≡ before ++ found
    pub valid : All (λ regex. regcomp regex ≡ true) found

  Parsed-nothing : (rs : List (List ℕ)) → Parsed rs rs
  Parsed-nothing rs = record { found = []; appended = sym (append-nil rs); valid = tt }

  Parsed-both : (rs ss ts : List (List ℕ)) → Parsed rs ss → Parsed ss ts → Parsed rs ts
  Parsed-both rs ss ts a b = record {
    found = a.found ++ b.found;
    appended = b.appended ∙ ap (λ l. l ++ b.found) a.appended ∙ append_assoc rs a.found b.found;
    valid = All-append _ a.found b.found a.valid b.valid;
  }

  add_valid-Parsed : (regex : List ℕ) (rs : List (List ℕ)) → Parsed rs (add_valid regcomp regex rs)
  unfolding add_valid
  add_valid-Parsed regex rs = elim (Bool-cases (regcomp regex)) [
    | inl valid ↦ rw valid (record { found = regex ∷ []; appended = refl; valid = (valid, tt) })
    | inr invalid ↦ rw invalid (Parsed-nothing rs)
  ]

  parse_line-Parsed :
      (p : List ℕ) (l : ℕ) (rs : List (List ℕ))
      → l ≤ length p
      → Ends ⊥ (Parsed rs) (parse_line regcomp p l rs)
  unfolding parse_line cmp_n
  parse_line-Parsed p l rs h =
      Ends-bind ⊥ (λ r. r ≤ 0 + l) (Parsed rs) (cmp_from 0 p keyword l) _
        (cmp_from_within 0 p keyword l h)
        λ c le. elim (Bool-cases (c == 0)) [
          | inl none_of_it ↦ rw (none_of_it, Ends) (Parsed-nothing rs)
          | inr some_c ↦
              rw (some_c, Ends)
                (Ends-bind ⊥ (Counted is_space (drop c p) (l - c)) (Parsed rs)
                  (skip_space (drop c p) (l - c)) _
                  (count_while-Counted is_space (drop c p) (l - c) (omega (arith, length-drop c p)))
                  λ d k. elim (Bool-cases (c + d == l)) [
                    | inl end ↦ rw (end, Ends) (Parsed-nothing rs)
                    | inr more ↦
                        rw (more, Ends)
                          (Ends-bind ⊥ (λ n. n ≤ l - (c + d)) (Parsed rs)
                            (trim_space (drop (c + d) p) (l - (c + d))) _
                            (trim_space_within (drop (c + d) p) (l - (c + d))
                              (omega (arith, length-drop (c + d) p)))
                            λ n le_n. add_valid-Parsed (strndup (drop (c + d) p) n) rs)
                  ])
        ]

  unless_comment-Parsed :
      (first : ℕ) (p : List ℕ) (l : ℕ) (rs : List (List ℕ))
      → l ≤ length p
      → Ends ⊥ (Parsed rs) (unless_comment regcomp first p l rs)
  unless_comment-Parsed first p l rs h = elim (Bool-cases (first == 35)) [
    | inl comment ↦ rw (comment, Ends) (Parsed-nothing rs)
    | inr line ↦ rw (line, Ends) (parse_line-Parsed p l rs h)
  ]

  -- A byte that ends the run of newlines is no newline, so the line behind it is not empty.
  line_starts :
      (p : List ℕ) (n c l : ℕ)
      → Counted is_nl p n c
      → c < n
      → Counted (λ x. not (is_nl x)) (drop c p) (n - c) l
      → 1 ≤ l
  unfolding byte
  line_starts p n c zero k lt line =
      let (x, at, other) = k.stops lt in
      let (y, at', is) = line.stops (omega arith) in
      let same : x ≡ y = cc in
      let newline : not (is_nl x) ≡ false = subst (λ z. not (is_nl z) ≡ false) (sym same) is in
      let none_there : not (is_nl x) ≡ true = ap not other in cc
  line_starts p n c (suc l) k lt line = omega arith

  -- With more rounds than there are bytes the loop ends.
  parse_loop-Parsed :
      (fuel : ℕ) (p : List ℕ) (n : ℕ) (rs : List (List ℕ))
      → n ≤ length p
      → n < fuel
      → Ends ⊥ (Parsed rs) (parse_loop regcomp fuel p n rs)
  unfolding parse_loop
  parse_loop-Parsed zero p n rs h lt = absurd (omega arith)
  parse_loop-Parsed (suc fuel) p n rs h lt =
      Ends-bind ⊥ (Counted is_nl p n) (Parsed rs) (skip_nl p n) _ (count_while-Counted is_nl p n h)
        λ c k. elim (Bool-cases (n - c == 0)) [
          | inl end ↦ rw (end, Ends) (Parsed-nothing rs)
          | inr more ↦
              rw (more, Ends)
                (Ends-bind ⊥ (Counted (λ x. not (is_nl x)) (drop c p) (n - c)) (Parsed rs)
                  (get_line (drop c p) (n - c)) _
                  (count_while-Counted _ (drop c p) (n - c) (omega (arith, length-drop c p)))
                  λ l line.
                    Ends-bind ⊥ (Counted is_space (drop c p) l) (Parsed rs)
                      (skip_space (drop c p) l) _
                      (count_while-Counted is_space (drop c p) l
                        (omega (arith, length-drop c p, line.within)))
                      λ d space. rest c l d k line space more (parse_loop-Parsed fuel))
        ]
    where
      rest :
          (c l d : ℕ)
          → Counted is_nl p n c
          → Counted (λ x. not (is_nl x)) (drop c p) (n - c) l
          → Counted is_space (drop c p) l d
          → (n - c == 0) ≡ false
          → ((q : List ℕ) (m : ℕ) (found : List (List ℕ))
              → m ≤ length q
              → m < fuel
              → Ends ⊥ (Parsed found) (parse_loop regcomp fuel q m found))
          → Ends ⊥ (Parsed rs) (elim (n - c - d == 0) [
            | true ↦ ok rs
            | false ↦ do
              first ← byte (drop d (drop c p))
              found ← unless_comment regcomp first (drop d (drop c p)) (l - d) rs
              elim (n - c - d - (l - d) == 0) [
                | true ↦ ok found
                | false ↦
                    parse_loop regcomp fuel
                      (drop (l - d) (drop d (drop c p)))
                      (n - c - d - (l - d))
                      found
              ]
          ])
      rest c l d k line space more again = elim (Bool-cases (n - c - d == 0)) [
        | inl end ↦ rw (end, Ends) (Parsed-nothing rs)
        | inr left ↦
            let q = drop d (drop c p) in
            let len : length q ≡ length p - c - d =
              length-drop d (drop c p) ∙ ap (λ x. x - d) (length-drop c p) in
            let first = byte_at d (drop c p) (ground (arith, length-drop c p)) in
            let long = line_starts p n c l k (ground arith) line in
            rw (left, Ends)
              (rw (first.1, Ends)
                (Ends-bind ⊥ (Parsed rs) (Parsed rs) (unless_comment regcomp first.0 q (l - d) rs) _
                  (unless_comment-Parsed first.0 q (l - d) rs
                    (omega (arith, len, line.within, space.within)))
                  λ found f. elim (Bool-cases (n - c - d - (l - d) == 0)) [
                    | inl end ↦ rw (end, Ends) f
                    | inr more_lines ↦
                        rw (more_lines, Ends)
                          (Ends-map ⊥ (Parsed found) (Parsed rs)
                            (parse_loop regcomp fuel (drop (l - d) q) (n - c - d - (l - d)) found)
                            (again (drop (l - d) q) (n - c - d - (l - d)) found
                              (omega (arith, len, length-drop (l - d) q))
                              (omega (arith, k.within, line.within, space.within)))
                            λ r g. Parsed-both rs found r f g)
                  ]))
      ]

  -- The parser of the configuration file ends, reads nothing outside of a buffer that has the length it
  -- is told, and appends valid expressions, if anything, to the list.
  pub _parse_config-Parsed :
      (p : List ℕ) (n : ℕ) (rs : List (List ℕ))
      → n ≤ length p
      → Ends ⊥ (Parsed rs) (_parse_config regcomp p n rs)
  unfolding _parse_config
  _parse_config-Parsed p n rs h = parse_loop-Parsed (suc n) p n rs h (omega arith)
