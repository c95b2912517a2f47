-- ===== src/Message/Wire.antt =====
-- client/process.c: the readers and writers of integers in messages, and the byte swaps.
-- A buffer is a list of bytes. The client runs on a little-endian host, as x86 and ARM are.
use mathlib.Core.List.{reverse}
use mtrace.Base.{
  ℕ, zero, suc, ◌+◌, ◌*◌, ◌/◌, ◌%◌, Bool, Option, none, some, List, [], ◌∷◌, take, length,
  if◌then◌else◌, leb,
}

-- The first `n` bytes of a number in memory, lowest first.
unfoldable pub bytes_le : ℕ → ℕ → List ℕ
bytes_le zero v = []
bytes_le (suc n) v = (v % 256) ∷ bytes_le n (v / 256)

unfoldable pub value_le : List ℕ → ℕ
value_le [] = 0
value_le (b ∷ bs) = b + 256 * value_le bs

-- `bswap_16`, `bswap_32` and `bswap_64` for 2, 4 and 8 bytes.
unfoldable pub bswap : ℕ → ℕ → ℕ
bswap n v = value_le (reverse (bytes_le n v))

-- `memcpy` of the first `n` bytes into an integer; `none` is a read past the end of the buffer.
unfoldable pub load : ℕ → List ℕ → Option ℕ
load n p = if leb n (length p) then some (value_le (take n p)) else none

-- The format of a traced process: its pointer size and whether its bytes stand in the other order.
pub record Format : Type 0 where
  pub is_64bit : Bool
  pub swap_endian : Bool

-- `process->ptr_size`.
abbrev pub ptr_size : Format → ℕ
ptr_size f = if f.is_64bit then 8 else 4

abbrev pub swap_option : Bool → ℕ → Option ℕ → Option ℕ
swap_option s n none = none
swap_option s n (some v) = some (if s then bswap n v else v)

-- `get_uint64`, `get_uint64_swap`, `get_uint32` and `get_uint32_swap`.
unfoldable pub get_ulong : Format → List ℕ → Option ℕ
get_ulong f p = swap_option f.swap_endian (ptr_size f) (load (ptr_size f) p)

-- `put_uint64`, `put_uint64_swap`, `put_uint32` and `put_uint32_swap`.
unfoldable pub put_ulong : Format → ℕ → List ℕ
put_ulong f v = bytes_le (ptr_size f) (if f.swap_endian then bswap (ptr_size f) v else v)

-- `val16`, `val32` and `val64` with their swapping versions, for 2, 4 and 8 bytes.
unfoldable pub val : Format → ℕ → ℕ → ℕ
val f n v = if f.swap_endian then bswap n v else v
