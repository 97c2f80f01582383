-- ===== src/Join/MaskLaws.antt =====
-- What the mask operations say of single bits.
use openivm.Base.{
  ℕ, zero, suc, ◌+◌, ◌-◌, ◌*◌, ◌/◌, ◌%◌, ◌^◌, ◌<◌, ◌≤◌, ◌≡◌, ◌≢◌, refl, ap, ◌∙◌, inl, inr, Bool,
  true, false, ◌&&◌, arith, if◌then◌else◌, Bool-cases, two_pow-suc, two_pow_pos,
}
use native.Mathlib.Nat.{zero-add}
use openivm.Join.Mask.{odd, bit, overlaps, and_bits, and_not, count_loop, count_bits}

-- A common bit of two overlapping masks.
pub overlaps-bit :
    (n a b : ℕ) → overlaps n a b ≡ true → (i : ℕ) × (i < n) × (bit a i ≡ true) × (bit b i ≡ true)
unfolding overlaps bit
overlaps-bit zero a b h = cc
overlaps-bit (suc n) a b h = elim (Bool-cases (odd a && odd b)) [
  | inl both ↦ (0, omega arith, ground arith, ground arith)
  | inr other ↦
      let (i, lt, ha, hb) = overlaps-bit n (a / 2) (b / 2) (ground arith) in
      (suc i, omega arith, ha, hb)
]

low_bit : (b : Bool) (n : ℕ) → odd ((if b then 1 else 0) + 2 * n) ≡ b
low_bit true n = ground arith
low_bit false n = ground arith

high_bits : (b : Bool) (n : ℕ) → ((if b then 1 else 0) + 2 * n) / 2 ≡ n
high_bits true n = omega arith
high_bits false n = omega arith

pub bit-zero : (i : ℕ) → bit 0 i ≡ false
unfolding bit
bit-zero zero = refl
bit-zero (suc i) = bit-zero i

pub bit-and_bits :
    (n a b i : ℕ) → bit (and_bits n a b) i ≡ true → (bit a i ≡ true) × (bit b i ≡ true)
unfolding and_bits bit
bit-and_bits zero a b zero h = cc
bit-and_bits zero a b (suc i) h = ground (arith, bit-zero i)
bit-and_bits (suc n) a b zero h =
    ground (arith, low_bit (odd a && odd b) (and_bits n (a / 2) (b / 2)))
bit-and_bits (suc n) a b (suc i) h =
    bit-and_bits n (a / 2) (b / 2) i
      (rw (high_bits (odd a && odd b) (and_bits n (a / 2) (b / 2))) at h)

pub bit-and_not :
    (n a b i : ℕ) → i < n → bit a i ≡ true → bit b i ≡ false → bit (and_not n a b) i ≡ true
unfolding and_not bit
bit-and_not zero a b i lt ha hb = elim lt [ ]
bit-and_not (suc n) a b zero lt ha hb = rw low_bit (ground arith)
bit-and_not (suc n) a b (suc i) lt ha hb =
    rw high_bits (bit-and_not n (a / 2) (b / 2) i (omega arith) ha hb)

pow_step : (n : ℕ) → (2 ^ suc n - 1) / 2 ≡ 2 ^ n - 1
pow_step n = omega (arith, two_pow-suc n, two_pow_pos n)

pow_odd : (n : ℕ) → odd (2 ^ suc n - 1) ≡ true
pow_odd n = ground (arith, two_pow-suc n, two_pow_pos n)

pub bit-all_ones : (n i : ℕ) → i < n → bit (2 ^ n - 1) i ≡ true
unfolding bit
bit-all_ones zero i lt = elim lt [ ]
bit-all_ones (suc n) zero lt = pow_odd n
bit-all_ones (suc n) (suc i) lt = rw pow_step (bit-all_ones n i (omega arith))

-- the number of bits set among the low f bits
population : ℕ → ℕ → ℕ
population zero m = 0
population (suc f) m = m % 2 + population f (m / 2)

population-zero : (f : ℕ) → population f 0 ≡ 0
unfolding population
population-zero zero = refl
population-zero (suc f) = omega (arith, population-zero f)

count_loop-population : (f m c : ℕ) → count_loop f m c ≡ c + population f m
unfolding count_loop population
count_loop-population zero m c = omega arith
count_loop-population (suc f) m c =
    ground (arith, count_loop-population f (m / 2) (c + m % 2), population-zero f)

count_bits-population : (m : ℕ) → count_bits m ≡ population 64 m
unfolding count_bits
count_bits-population m = count_loop-population 64 m 0 ∙ zero-add _

population_one : (f m i : ℕ) → i < f → bit m i ≡ true → 1 ≤ population f m
unfolding population bit
population_one zero m i lt h = elim lt [ ]
population_one (suc f) m zero lt h = ground arith
population_one (suc f) m (suc i) lt h = omega (arith, population_one f (m / 2) i (omega arith) h)

population_two :
    (f m i j : ℕ) → i < f → j < f → i ≢ j → bit m i ≡ true → bit m j ≡ true → 2 ≤ population f m
unfolding population bit
population_two zero m i j lt lt' ne h h' = elim lt [ ]
population_two (suc f) m zero zero lt lt' ne h h' = absurd (ne refl)
population_two (suc f) m zero (suc j) lt lt' ne h h' =
    ground (arith, population_one f (m / 2) j (omega arith) h')
population_two (suc f) m (suc i) zero lt lt' ne h h' =
    ground (arith, population_one f (m / 2) i (omega arith) h)
population_two (suc f) m (suc i) (suc j) lt lt' ne h h' =
    omega
      (arith, population_two f (m / 2) i j (omega arith) (omega arith) (λ e. ne (ap suc e)) h h')

-- A mask with one bit set has no second one.
pub count_bits_unique :
    (m i j : ℕ) → count_bits m ≡ 1 → i < 64 → j < 64 → bit m i ≡ true → bit m j ≡ true → i ≢ j → ⊥
count_bits_unique m i j one lt lt' h h' ne =
    omega (arith, one, count_bits-population m, population_two 64 m i j lt lt' ne h h')
