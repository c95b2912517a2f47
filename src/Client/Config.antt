-- ===== src/Client/Config.antt =====
-- client/client.c: the parser of the configuration file. A buffer is the list of the bytes from a
-- pointer on, and a read behind its end is a fault. What is printed to stderr is left out.
pub mod Total
pub mod Scanners
use mtrace.Base.{
  ℕ, zero, suc, ◌+◌, ◌-◌, ◌==◌, if◌then◌else◌, Bool, true, false, not, ◌||◌, List, [], ◌∷◌, ◌++◌,
  drop, Outcome, ok, fault, diverged, ◌>>=◌,
}

-- The byte that a pointer points to.
unfoldable pub byte : List ℕ → Outcome ℕ
byte [] = fault
byte (x ∷ p) = ok x

abbrev pub is_nl : ℕ → Bool
is_nl x = (x == 10) || (x == 13)

abbrev pub is_space : ℕ → Bool
is_space x = (x == 32) || (x == 9)

-- The loop that three scanners share: how many of the next `n` bytes pass a test before one does not.
unfoldable pub count_while : (ℕ → Bool) → List ℕ → ℕ → Outcome ℕ
count_while f p zero = ok 0
count_while f p (suc n) = do
  x ← byte p
  elim (f x) [ false ↦ ok 0 | true ↦ count_while f (drop 1 p) n >>= λ c. ok (suc c) ]

abbrev pub skip_nl : List ℕ → ℕ → Outcome ℕ
skip_nl = count_while is_nl

abbrev pub get_line : List ℕ → ℕ → Outcome ℕ
get_line = count_while (λ x. not (is_nl x))

abbrev pub skip_space : List ℕ → ℕ → Outcome ℕ
skip_space = count_while is_space

unfoldable pub trim_space : List ℕ → ℕ → Outcome ℕ
trim_space p zero = ok 0
trim_space p (suc c) = do
  x ← byte (drop c p)
  elim (is_space x) [ true ↦ trim_space p c | false ↦ ok (suc c) ]

-- The loop of `cmp_n` at index `c`, with the rest of the string, whose end is its NUL.
unfoldable pub cmp_from : ℕ → List ℕ → List ℕ → ℕ → Outcome ℕ
cmp_from c p str zero = ok 0
cmp_from c p [] (suc n) = do x ← byte p; ok (if is_space x then c else 0)
cmp_from c p (s ∷ str) (suc n) = do
  x ← byte p
  elim (x == s) [ true ↦ cmp_from (suc c) (drop 1 p) str n | false ↦ ok 0 ]

unfoldable pub cmp_n : List ℕ → List ℕ → ℕ → Outcome ℕ
cmp_n p str n = cmp_from 0 p str n

-- `"ignore"`.
abbrev pub keyword : List ℕ
keyword = 105 ∷ 103 ∷ 110 ∷ 111 ∷ 114 ∷ 101 ∷ []

-- `strndup`, which stops at a NUL.
unfoldable pub strndup : List ℕ → ℕ → List ℕ
strndup p zero = []
strndup [] (suc n) = []
strndup (x ∷ p) (suc n) = if x == 0 then [] else x ∷ strndup p n

-- `regcomp` decides which expressions are valid. `regexes` is the list behind `regex_ignore_list`.
module _ (regcomp : List ℕ → Bool) where
  -- The call of `add_ignore_regex`, which appends.
  unfoldable pub add_valid : List ℕ → List (List ℕ) → List (List ℕ)
  add_valid regex regexes = if regcomp regex then regexes ++ regex ∷ [] else regexes

  -- A line of `l` bytes that is no comment.
  unfoldable pub parse_line : List ℕ → ℕ → List (List ℕ) → Outcome (List (List ℕ))
  parse_line p l regexes = do
    c ← cmp_n p keyword l
    elim (c == 0) [
      | true ↦ ok regexes
      | false ↦ do
        d ← skip_space (drop c p) (l - c)
        elim (c + d == l) [
          | true ↦ ok regexes
          | false ↦ do
            n ← trim_space (drop (c + d) p) (l - (c + d))
            ok (add_valid (strndup (drop (c + d) p) n) regexes)
        ]
    ]

  abbrev pub unless_comment : ℕ → List ℕ → ℕ → List (List ℕ) → Outcome (List (List ℕ))
  unless_comment first p l regexes = if first == 35 then ok regexes else parse_line p l regexes

  -- The loop. The fuel counts its rounds.
  unfoldable pub parse_loop : ℕ → List ℕ → ℕ → List (List ℕ) → Outcome (List (List ℕ))
  parse_loop zero p n regexes = diverged
  parse_loop (suc fuel) p n regexes = do
    c ← skip_nl p n
    elim (n - c == 0) [
      | true ↦ ok regexes
      | false ↦ do
        l ← get_line (drop c p) (n - c)
        d ← skip_space (drop c p) l
        let q = drop d (drop c p)
        elim (n - c - d == 0) [
          | true ↦ ok regexes
          | false ↦ do
            first ← byte q
            found ← unless_comment first q (l - d) regexes
            elim (n - c - d - (l - d) == 0) [
              | true ↦ ok found
              | false ↦ parse_loop fuel (drop (l - d) q) (n - c - d - (l - d)) found
            ]
        ]
    ]

  -- Each round but the last takes a byte at least.
  unfoldable pub _parse_config : List ℕ → ℕ → List (List ℕ) → Outcome (List (List ℕ))
  _parse_config p n regexes = parse_loop (suc n) p n regexes
