-- ===== src/Process/Resolv.antt =====
-- client/process.c: the names of the addresses of a call stack, from the files that the process has mapped.
use mtrace.Base.{
  ℕ, zero, suc, ◌/◌, ◌≡◌, ltb, leb, if◌then◌else◌, Bool, true, false, ◌&&◌, ◌||◌, Option, none,
  some, List, [], ◌∷◌, length, drop, Outcome, ok, fault, ◌>>=◌,
}
use mtrace.Base.Word.{add64}
use mtrace.Message.Wire.{Format, ptr_size, get_ulong}
use mtrace.Process.State.{Map, Process, Env, answer, answers}

-- Whether an address lies in a map.
unfoldable pub covers : ℕ → Map → Bool
covers a m = leb m.addr a && ltb a (add64 m.addr m.size)

unfoldable pub locate_map : List Map → ℕ → Option Map
locate_map [] a = none
locate_map (m ∷ ms) a = elim (covers a m) [ true ↦ some m | false ↦ locate_map ms a ]

module _ (v : Env) (maps : List Map) where
  -- What stands in `sym->sym`, or nothing where it or `sym` is null. For an address that lies in no map,
  -- `map->filename` follows a null pointer, if `malloc` gives room for the symbol. `strdup` takes memory too.
  unfoldable pub resolv_address : ℕ → List Bool → Outcome (Option (List ℕ) × List Bool)
  resolv_address a memory =
      let given = answer memory in
      let left = answers memory in
      elim (locate_map maps a) [
        | none ↦ if given then fault else ok (none, left)
        | some m ↦ elim (v.lookup m a) [
          | some name ↦ ok (some name, memory)
          | none ↦
              if given
              then ok (if answer left then some m.filename else none, answers left)
              else ok (none, left)
        ]
      ]

  unfoldable pub resolv_all :
      Format → ℕ → List ℕ → List Bool → Outcome (List (Option (List ℕ)) × List Bool)
  resolv_all f zero addrs memory = ok ([], memory)
  resolv_all f (suc n) addrs memory = elim (get_ulong f addrs) [
    | none ↦ fault
    | some a ↦ do
      (sym, left) ← resolv_address a memory
      (syms, rest) ← resolv_all f n (drop (ptr_size f) addrs) left
      ok (sym ∷ syms, rest)
  ]

  abbrev pub any_ignored : List (Option (List ℕ)) → Bool
  any_ignored [] = false
  any_ignored (none ∷ syms) = any_ignored syms
  any_ignored (some name ∷ syms) = v.ignores name || any_ignored syms

  abbrev pub entries : Format → List ℕ → ℕ
  entries f addrs = length addrs / ptr_size f

  -- Whether the call stack is ignored, and the answers of `malloc` that are left.
  unfoldable pub stack_resolv : Format → List ℕ → List Bool → Outcome (Bool × List Bool)
  stack_resolv f addrs memory = elim (answer memory) [
    | false ↦ ok (false, answers memory)
    | true ↦
        resolv_all f (entries f addrs) addrs (answers memory) >>= λ r. ok (any_ignored r.0, r.1)
  ]

-- The first `n` addresses lie in mapped files.
abbrev pub AllMapped : List Map → Format → ℕ → List ℕ → Type 0
AllMapped maps f zero addrs = Unit
AllMapped maps f (suc n) addrs =
    ((a : ℕ) × (get_ulong f addrs ≡ some a) × (m : Map) × (locate_map maps a ≡ some m))
    × AllMapped maps f n (drop (ptr_size f) addrs)

abbrev pub IsMapped : Process → List ℕ → Type 0
IsMapped p addrs = AllMapped p.map_list p.format (length addrs / ptr_size p.format) addrs
