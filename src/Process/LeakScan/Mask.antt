-- ===== src/Process/LeakScan/Mask.antt =====
-- client/process.c: the mask of a leak scan.
use mtrace.Base.{ℕ, zero, suc, ◌/◌, ◌≡◌, refl, inl, inr, true, arith, Bool-cases}
use mtrace.Process.LeakScan.{clear_bits, narrow}

-- Fewer bits are clear too.
clear_less : (k a : ℕ) → clear_bits (suc k) a ≡ true → clear_bits k a ≡ true
unfolding clear_bits
clear_less zero a h = refl
clear_less (suc k) a h = ground (arith, clear_less k (a / 2))

pub narrow-clear : (k a : ℕ) → clear_bits (narrow k a) a ≡ true
unfolding narrow
narrow-clear zero a = unfold clear_bits in refl
narrow-clear (suc k) a = elim (Bool-cases (clear_bits (suc k) a)) [
  | inl e ↦ rw e (rw e refl)
  | inr e ↦ rw e (narrow-clear k a)
]

pub narrow_keeps : (k a b : ℕ) → clear_bits k b ≡ true → clear_bits (narrow k a) b ≡ true
unfolding narrow
narrow_keeps zero a b h = h
narrow_keeps (suc k) a b h = elim (Bool-cases (clear_bits (suc k) a)) [
  | inl e ↦ rw e h
  | inr e ↦ rw e (narrow_keeps k a b (clear_less k b h))
]
