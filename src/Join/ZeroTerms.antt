-- ===== src/Join/ZeroTerms.antt =====
-- Terms whose weight is zero, and the union without them.
use openivm.Base.{
  ℕ, zero, suc, ◌+◌, ◌/◌, ◌≡◌, refl, ap, ◌∙◌, inl, inr, true, false, List, [], ◌∷◌, some, arith,
  if◌then◌else◌, Bool-cases, get_elem?,
}
use openivm.Base.Int.{ℤ, pos, ◌+ℤ◌, ◌-ℤ◌, ◌*ℤ◌, int_laws, *ℤ_zero, *ℤ_comm}
use openivm.Join.Mask.{bit}
use openivm.Join.Terms.{KeyContext, Pruning, prunes, terms_from}
use openivm.Join.Weights.{Cell, term_weight, union_weight}
use openivm.Join.Expansion.{signed, sum_range, term_weight-signed}

zero_mul : (x y : ℤ) → x ≡ pos 0 → x *ℤ y ≡ pos 0
zero_mul x y e = rw e (*ℤ_comm (pos 0) y ∙ *ℤ_zero y)

-- One zero factor makes the signed product zero.
zero_factor :
    (mask i : ℕ) (cs : List Cell) (c : Cell)
    → get_elem? cs i ≡ some c
    → (if bit mask i then pos 0 -ℤ c.delta else c.now) ≡ pos 0
    → signed mask cs ≡ pos 0
unfolding signed bit
zero_factor mask i [] c at z = cc
zero_factor mask zero (x ∷ cs) c at z = zero_mul _ (signed (mask / 2) cs) (ground arith)
zero_factor mask (suc i) (x ∷ cs) c at z = rw (zero_factor (mask / 2) i cs c at z) (*ℤ_zero _)

minus_zero : pos 0 -ℤ pos 0 ≡ pos 0
minus_zero = omega int_laws

pub term_zero_delta :
    (mask i : ℕ) (cs : List Cell) (c : Cell)
    → get_elem? cs i ≡ some c
    → bit mask i ≡ true
    → c.delta ≡ pos 0
    → term_weight cs mask ≡ pos 0
term_zero_delta mask i cs c at set z =
    term_weight-signed cs mask
    ∙ ap (λ (t : ℤ). pos 0 -ℤ t) (zero_factor mask i cs c at (rw (set, z) minus_zero))
    ∙ minus_zero

pub term_zero_now :
    (mask i : ℕ) (cs : List Cell) (c : Cell)
    → get_elem? cs i ≡ some c
    → bit mask i ≡ false
    → c.now ≡ pos 0
    → term_weight cs mask ≡ pos 0
term_zero_now mask i cs c at clear z =
    term_weight-signed cs mask
    ∙ ap (λ (t : ℤ). pos 0 -ℤ t) (zero_factor mask i cs c at (rw clear z))
    ∙ minus_zero

zero_plus : (x y : ℤ) → x ≡ pos 0 → y ≡ x +ℤ y
zero_plus x y e = rw e (omega int_laws)

-- Leaving out terms of weight zero does not change the union.
pub union-terms_from :
    (p : Pruning) (k : KeyContext) (n rounds mask : ℕ) (cs : List Cell)
    → ((m : ℕ) → prunes p k n m ≡ true → term_weight cs m ≡ pos 0)
    → union_weight cs (terms_from p k n rounds mask) ≡ sum_range rounds mask (term_weight cs)
unfolding union_weight terms_from sum_range
union-terms_from p k n zero mask cs sound = refl
union-terms_from p k n (suc rounds) mask cs sound = elim (Bool-cases (prunes p k n mask)) [
  | inl out ↦ rw out (
      union-terms_from p k n rounds (mask + 1) cs sound
      ∙ zero_plus (term_weight cs mask) _ (sound mask out))
  | inr kept ↦
      rw kept (
        ap (λ (t : ℤ). term_weight cs mask +ℤ t)
          (union-terms_from p k n rounds (mask + 1) cs sound))
]
