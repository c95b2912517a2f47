-- ===== src/Process/Maps.antt =====
-- client/process.c: the list of the files that a traced process has mapped. The calls of `malloc` are not
-- checked there and are taken to succeed; a `struct bin_file` is a number, and its counter, which
-- client/binfile.c keeps, is left out.
pub mod Roundtrip
use mtrace.Base.{
  ℕ, suc, ◌+◌, ◌-◌, ◌*◌, ◌==◌, ltb, leb, if◌then◌else◌, Bool, true, false, ◌&&◌, Option, none, some,
  List, [], ◌∷◌, ◌++◌, length, drop, Outcome, ok, aborted, fault, ◌>>=◌,
}
use mtrace.Base.Word.{add64}
use mtrace.Message.Wire.{Format, load, val}
use mtrace.Process.State.{Map}
use mtrace.Process.Handlers.{or_fault}

-- The fields `filename` and `map_list` of `struct process`.
pub record Maps : Type 0 where
  pub filename : Option (List ℕ)
  pub map_list : List Map

-- `safe_strncpy` into `n + 1` bytes, the last of which is the NUL: the bytes up to a NUL, at most `n`.
unfoldable pub copy_name : List ℕ → ℕ → List ℕ
copy_name [] n = []
copy_name (x ∷ name) n =
    let rest = copy_name name (n - 1) in if n == 0 then [] else if x == 0 then [] else x ∷ rest

abbrev pub named : List Map → Option (List ℕ) → List ℕ → Option (List ℕ)
named [] old name = some name
named (m ∷ ms) old name = old

abbrev pub new_map : ℕ → ℕ → ℕ → ℕ → List ℕ → ℕ → Option ℕ → Map
new_map addr offset size bias filename len binfile = record {
  offset = offset;
  addr = addr;
  size = size;
  bias = bias;
  filename = copy_name filename len;
  binfile = binfile;
  ignore = false;
}

unfoldable pub _process_add_map : Maps → ℕ → ℕ → ℕ → ℕ → List ℕ → ℕ → Option ℕ → Maps
_process_add_map p addr offset size bias filename len binfile = record {
  filename = named p.map_list p.filename (copy_name filename len);
  map_list = p.map_list ++ new_map addr offset size bias filename len binfile ∷ [];
}

-- The field of 64 bits with the number `i` of a payload, in the byte order of the traced process.
unfoldable pub field64 : Format → ℕ → List ℕ → Outcome ℕ
field64 f i payload = or_fault (load 8 (drop (8 * i) payload)) >>= λ v. ok (val f 8 v)

-- `payload_len` is the length of the payload.
unfoldable pub process_add_map : Format → Maps → List ℕ → Outcome Maps
process_add_map f p payload = do
  addr ← field64 f 0 payload
  offset ← field64 f 1 payload
  size ← field64 f 2 payload
  bias ← field64 f 3 payload
  ok (_process_add_map p addr offset size bias (drop 32 payload) (length payload - 32) none)

unfoldable pub same_map : ℕ → ℕ → ℕ → Map → Bool
same_map addr offset size m = (m.addr == addr) && ((m.offset == offset) && (m.size == size))

abbrev pub beside : Map → Option (List Map) → Option (List Map)
beside m none = none
beside m (some ms) = some (m ∷ ms)

-- The list without the first such map.
unfoldable pub del_first : ℕ → ℕ → ℕ → List Map → Option (List Map)
del_first addr offset size [] = none
del_first addr offset size (m ∷ ms) = elim (same_map addr offset size m) [
  | true ↦ some ms
  | false ↦ beside m (del_first addr offset size ms)
]

unfoldable pub process_del_map : Format → Maps → List ℕ → Outcome Maps
process_del_map f p payload = do
  addr ← field64 f 0 payload
  offset ← field64 f 1 payload
  size ← field64 f 2 payload
  elim (del_first addr offset size p.map_list) [
    | none ↦ aborted
    | some ms ↦ ok (record p { map_list = ms })
  ]
