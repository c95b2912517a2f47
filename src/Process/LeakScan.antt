-- ===== src/Process/LeakScan.antt =====
-- client/process.c: `process_leaks_scan`, which asks the server to scan for leaks: the message lists the
-- blocks to look for, and a mask of the low bits that are zero in all their addresses.
pub mod Fits
pub mod Mask
pub mod Trails
use mtrace.Base.{
  ℕ, zero, suc, ◌+◌, ◌*◌, ◌%◌, ◌/◌, ◌==◌, ltb, if◌then◌else◌, Bool, true, false, not, ◌&&◌, ◌||◌,
  Option, none, some, List, [], ◌∷◌, ◌++◌, length, map, Outcome, ok, fault, ◌>>=◌,
}
use mtrace.Base.Word.{low32}
use mtrace.Message.Wire.{Format, ptr_size, put_ulong, val}
use mtrace.Rbtree.{Tree, leaf, node, left, right, Trail, get, put}
use mtrace.Process.State.{Flags, no_flags, RbBlock, Stack, Process, answer, answers}
use mtrace.Process.Stacks.{stack_of}

-- SCAN_ALL, SCAN_NEW and SCAN_LEAK, and any other number.
pub data ScanMode : Type 0 where
  scan_all scan_new scan_leak scan_other : ScanMode

-- `flags & mask` is not zero.
abbrev pub any_flag : Flags → Flags → Bool
any_flag f m = (f.leaked && m.leaked) || ((f.scanned && m.scanned) || (f.ignored && m.ignored))

abbrev pub implied : Bool → Bool → Bool
implied a b = not a || b

-- `flags & mask` is the mask.
abbrev pub all_flags : Flags → Flags → Bool
all_flags f m =
    implied m.leaked f.leaked && (implied m.scanned f.scanned && implied m.ignored f.ignored)

-- `struct block_helper`. The mask is always of the form 2 ^ k - 1, and is known by its number of bits.
-- `data` has the words that were written to the payload.
pub record BlockHelper : Type 0 where
  pub len : ℕ
  pub mask : ℕ
  pub fmask : Flags
  pub fmode : Flags
  pub data_words : List ℕ
  pub payload_len : ℕ

-- `addr & mask` is zero for a mask of `k` bits.
unfoldable pub clear_bits : ℕ → ℕ → Bool
clear_bits zero addr = true
clear_bits (suc k) addr = (addr % 2 == 0) && clear_bits k (addr / 2)

-- The loop that shifts the mask until no bit of the address is under it.
unfoldable pub narrow : ℕ → ℕ → ℕ
narrow zero addr = zero
narrow (suc k) addr = let rest = narrow k addr in if clear_bits (suc k) addr then suc k else rest

-- A word that is written to the payload, 16 bytes of which stand in front of the data.
unfoldable pub put_word : Format → ℕ → BlockHelper → Outcome BlockHelper
put_word f addr bh =
    elim (ltb bh.payload_len (16 + length bh.data_words * ptr_size f + ptr_size f)) [
      | true ↦ fault
      | false ↦ ok (record bh { data_words = bh.data_words ++ addr ∷ [] })
    ]

abbrev pub as_scanned : RbBlock → RbBlock
as_scanned b = record b { flags = record (b.flags) { scanned = true } }

-- The three tests of `set_block`.
unfoldable pub is_wanted : Stack → RbBlock → BlockHelper → Bool
is_wanted k b bh = not k.ignore && (not (any_flag b.flags bh.fmask) && all_flags b.flags bh.fmode)

-- `set_block` on the block behind a pointer.
unfoldable pub set_block : Trail → RbBlock → Process → BlockHelper → Outcome (Process × BlockHelper)
set_block t b p bh = do
  k ← stack_of p b.stack_node
  elim (is_wanted k b bh) [
    | false ↦ ok (p, bh)
    | true ↦ do
      bh' ← put_word p.format b.addr (record bh { mask = narrow bh.mask b.addr })
      ok (
        record p { block_table = put p.block_table t (as_scanned b) },
        record bh' { len = low32 (bh'.len + 1) },
      )
  ]

-- The pointers to the nodes, from `rb_first` on by `rb_next`.
unfoldable pub trails {ℓ} : {A : Type ℓ} → Tree A → List Trail
trails leaf = []
trails (node c l x r) = map (λ t. left ∷ t) (trails l) ++ [] ∷ map (λ t. right ∷ t) (trails r)

-- `process_block_foreach` with `set_block`.
unfoldable pub block_foreach : List Trail → Process → BlockHelper → Outcome (Process × BlockHelper)
block_foreach [] p bh = ok (p, bh)
block_foreach (t ∷ ts) p bh = elim (get p.block_table t) [
  | none ↦ fault
  | some b ↦ do (q, bh') ← set_block t b p bh; block_foreach ts q bh'
]

-- The masks of the flags for a mode; BLOCK_IGNORE is always excluded.
unfoldable pub flags_of : ScanMode → Option (Flags × Flags)
flags_of scan_all = some (record no_flags { ignored = true }, no_flags)
flags_of scan_new = some (record no_flags { ignored = true; scanned = true }, no_flags)
flags_of scan_leak = some (record no_flags { ignored = true }, record no_flags { leaked = true })
flags_of scan_other = none

-- The message MT_SCAN: the pointer size, the mask and the addresses.
pub record ScanRequest : Type 0 where
  pub ptr_bytes : ℕ
  pub mask_bits : ℕ
  pub addrs : List ℕ

abbrev pub start_helper : Process → Flags × Flags → BlockHelper
start_helper p m = record {
  len = 0;
  mask = 64;
  fmask = m.0;
  fmode = m.1;
  data_words = [];
  payload_len = low32 (16 + p.n_allocations * ptr_size p.format);
}

-- The number of blocks in the message, and the message, if one is sent.
unfoldable pub process_leaks_scan :
    Process → ScanMode → Outcome ((ℕ × Option ScanRequest) × Process)
process_leaks_scan p mode = elim (p.n_allocations == 0) [
  | true ↦ ok ((0, none), p)
  | false ↦ elim (flags_of mode) [
    | none ↦ ok ((0, none), p)
    | some m ↦
        let q = record p { memory = answers p.memory } in
        elim (answer p.memory) [
          | false ↦ ok ((0, none), q)
          | true ↦ do
            (r, bh) ← block_foreach (trails q.block_table) q (start_helper p m)
            ok (
              (
                bh.len,
                some (record {
                  ptr_bytes = ptr_size p.format;
                  mask_bits = bh.mask;
                  addrs = bh.data_words;
                }),
              ),
              r,
            )
        ]
  ]
]
