-- ===== src/Base/Word.antt =====
-- Arithmetic of C's unsigned types: sums and differences modulo 2 ^ 64, and the cut to 32 bits.
use Prim.Native.Nat.{ℕ, ◌+◌, ◌-◌, ◌%◌}

abbrev pub w16 : ℕ
w16 = 0x1_0000

abbrev pub w32 : ℕ
w32 = 0x1_0000_0000

abbrev pub w64 : ℕ
w64 = 0x1_0000_0000_0000_0000

abbrev pub add64 : ℕ → ℕ → ℕ
add64 a b = (a + b) % w64

abbrev pub sub64 : ℕ → ℕ → ℕ
sub64 a b = (a + w64 - b) % w64

-- The value of an `unsigned int` parameter.
abbrev pub low32 : ℕ → ℕ
low32 a = a % w32
