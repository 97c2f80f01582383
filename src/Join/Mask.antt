-- ===== src/Join/Mask.antt =====
-- The `uint64_t` leaf masks of src/delta/operators/join.cpp. Bit i stands for leaf i; shifts are
-- recursion on the bit's number. A join has at most 16 leaves, so no mask leaves 64 bits.
use openivm.Base.{
  ℕ, zero, suc, ◌+◌, ◌*◌, ◌/◌, ◌%◌, ◌≡◌, Bool, false, ◌&&◌, ◌||◌, not, arith, ◌==◌, if◌then◌else◌,
  ap,
}

-- `mask & 1`
abbrev pub odd : ℕ → Bool
odd mask = (mask % 2) == 1

-- `mask & (1ULL << i)`
unfoldable pub bit : ℕ → ℕ → Bool
bit mask zero = odd mask
bit mask (suc i) = bit (mask / 2) i

-- `mask | (1ULL << i)`
unfoldable pub set_bit : ℕ → ℕ → ℕ
set_bit mask zero = if odd mask then mask else mask + 1
set_bit mask (suc i) = mask % 2 + 2 * set_bit (mask / 2) i

-- `(a & b) != 0` on the low n bits
unfoldable pub overlaps : ℕ → ℕ → ℕ → Bool
overlaps zero a b = false
overlaps (suc n) a b = (odd a && odd b) || overlaps n (a / 2) (b / 2)

-- `a & b` on the low n bits
unfoldable pub and_bits : ℕ → ℕ → ℕ → ℕ
and_bits zero a b = 0
and_bits (suc n) a b = (if odd a && odd b then 1 else 0) + 2 * and_bits n (a / 2) (b / 2)

-- `a & ~b` on the low n bits
unfoldable pub and_not : ℕ → ℕ → ℕ → ℕ
and_not zero a b = 0
and_not (suc n) a b = (if odd a && not (odd b) then 1 else 0) + 2 * and_not n (a / 2) (b / 2)

-- The loop of `CountBits`; the fuel is the width of `uint64_t`.
unfoldable pub count_loop : ℕ → ℕ → ℕ → ℕ
count_loop zero value count = count
count_loop (suc f) value count =
    let rest = count_loop f (value / 2) (count + value % 2) in if value == 0 then count else rest

unfoldable pub count_bits : ℕ → ℕ
unfolding count_loop
count_bits value = count_loop 64 value 0

set_bit-half : (mask : ℕ) → (if odd mask then mask else mask + 1) / 2 ≡ mask / 2
set_bit-half mask = ground arith

step_half : (mask n : ℕ) → (mask % 2 + 2 * n) / 2 ≡ n
step_half mask n = omega arith

-- Setting a bit changes that bit and no other.
pub bit-set_bit : (mask i j : ℕ) → bit (set_bit mask i) j ≡ ((i == j) || bit mask j)
unfolding bit set_bit
bit-set_bit mask zero zero = ground arith
bit-set_bit mask zero (suc j) = rw (ap (λ (t : ℕ). bit t j) (set_bit-half mask)) (ground arith)
bit-set_bit mask (suc i) zero = ground arith
bit-set_bit mask (suc i) (suc j) =
    rw (step_half mask (set_bit (mask / 2) i)) (ground (arith, bit-set_bit (mask / 2) i j))
