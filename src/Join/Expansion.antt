-- ===== src/Join/Expansion.antt =====
-- Inclusion-exclusion: the sum over all masks of the signed products is the product of the old
-- weights.
use openivm.Base.{
  ℕ, zero, suc, ◌+◌, ◌*◌, ◌/◌, ◌^◌, ◌-◌, ◌<◌, ◌≡◌, refl, sym, ap, ◌∙◌, true, false, not, List, [],
  ◌∷◌, map, arith, if◌then◌else◌, length, two_pow-suc, two_pow_pos,
}
use mathlib.Core.Path.{fun_ext}
use openivm.Base.Int.{
  ℤ, pos_part, neg_part, -ℤ_parts, pos, negsuc, ◌+ℤ◌, ◌-ℤ◌, ◌*ℤ◌, int_laws, mul_laws, *ℤ_comm,
  *ℤ_distrib, *ℤ_assoc, *ℤ_zero, *ℤ_one,
}
use openivm.Join.Mask.{odd}
use openivm.Join.Weights.{
  Cell, old, now_of, product, even, combined, mul_weights, base_product, term_weight,
}

unfoldable pub signed : ℕ → List Cell → ℤ
signed mask [] = pos 1
signed mask (c ∷ cs) = (if odd mask then pos 0 -ℤ c.delta else c.now) *ℤ signed (mask / 2) cs

unfoldable pub sum_range : ℕ → ℕ → (ℕ → ℤ) → ℤ
sum_range zero m f = pos 0
sum_range (suc n) m f = f m +ℤ sum_range n (m + 1) f

negated : List ℤ → ℤ
negated [] = pos 1
negated (w ∷ ws) = (pos 0 -ℤ w) *ℤ negated ws

neg-eq-mul : (w : ℤ) → pos 0 -ℤ w ≡ negsuc 0 *ℤ w
neg-eq-mul w = omega mul_laws

neg_mul : (w x : ℤ) → (pos 0 -ℤ w) *ℤ x ≡ negsuc 0 *ℤ (w *ℤ x)
neg_mul w x = rw neg-eq-mul (*ℤ_assoc (negsuc 0) w x)

mul_neg_mul : (w x : ℤ) → w *ℤ (negsuc 0 *ℤ x) ≡ negsuc 0 *ℤ (w *ℤ x)
mul_neg_mul w x =
    sym (*ℤ_assoc w (negsuc 0) x)
    ∙ ap (λ (t : ℤ). t *ℤ x) (*ℤ_comm w (negsuc 0))
    ∙ *ℤ_assoc (negsuc 0) w x

neg_neg : (x : ℤ) → negsuc 0 *ℤ (negsuc 0 *ℤ x) ≡ x
neg_neg x = omega mul_laws

even-suc : (n : ℕ) → even (suc n) ≡ not (even n)
unfolding even
even-suc n = ground arith

-- The products of the negated weights, by the parity of their number.
negated-product :
    (ws : List ℤ) → negated ws ≡ (if even (length ws) then product ws else negsuc 0 *ℤ product ws)
unfolding negated
negated-product [] = unfold even in refl
negated-product (w ∷ ws) =
    rw (negated-product ws, even-suc)
      (ground (
        arith,
        neg_mul w (product ws),
        neg_mul w (negsuc 0 *ℤ product ws),
        mul_neg_mul w (product ws),
        neg_neg (w *ℤ product ws),
      ))

combined-negated : (ws : List ℤ) → combined ws ≡ pos 0 -ℤ negated ws
combined-negated ws =
    rw (negated-product ws, neg-eq-mul) (unfold combined in ground (arith, neg_neg (product ws)))

two_suc : (n : ℕ) → 2 * suc n ≡ suc (suc (2 * n))
two_suc n = omega arith

next_even : (m : ℕ) → 2 * m + 1 + 1 ≡ 2 * (m + 1)
next_even m = omega arith

+ℤ_assoc_lem : (a b c : ℤ) → a +ℤ (b +ℤ c) ≡ a +ℤ b +ℤ c
+ℤ_assoc_lem a b c = omega int_laws

sum_double :
    (n m : ℕ) (f : ℕ → ℤ)
    → sum_range (2 * n) (2 * m) f ≡ sum_range n m (λ k. f (2 * k) +ℤ f (2 * k + 1))
unfolding sum_range
sum_double zero m f = refl
sum_double (suc n) m f =
    rw (two_suc n, next_even m, sum_double n (m + 1) f)
      (+ℤ_assoc_lem (f (2 * m)) (f (2 * m + 1))
        (sum_range n (m + 1) (λ k. f (2 * k) +ℤ f (2 * k + 1))))

-- The factors of a product that all masks share.
pub sum_mul : (n m : ℕ) (x : ℤ) (f : ℕ → ℤ) → sum_range n m (λ k. x *ℤ f k) ≡ x *ℤ sum_range n m f
unfolding sum_range
sum_mul zero m x f = sym (*ℤ_zero x)
sum_mul (suc n) m x f = rw (sum_mul n (m + 1) x f) (sym (*ℤ_distrib x (f m) _))

half_even : (k : ℕ) → 2 * k / 2 ≡ k
half_even k = omega arith

half_odd : (k : ℕ) → (2 * k + 1) / 2 ≡ k
half_odd k = omega arith

odd_even : (k : ℕ) → odd (2 * k) ≡ false
odd_even k = ground arith

odd-odd : (k : ℕ) → odd (2 * k + 1) ≡ true
odd-odd k = ground arith

factor : (a d x : ℤ) → a *ℤ x +ℤ (pos 0 -ℤ d) *ℤ x ≡ (a -ℤ d) *ℤ x
factor a d x = omega (
  mul_laws,
  ap (λ (t : ℕ). t * pos_part x) (-ℤ_parts a d),
  ap (λ (t : ℕ). t * neg_part x) (-ℤ_parts a d),
  ap (λ (t : ℕ). t * pos_part x) (-ℤ_parts (pos 0) d),
  ap (λ (t : ℕ). t * neg_part x) (-ℤ_parts (pos 0) d),
)

signed_pair :
    (c : Cell) (cs : List Cell) (k : ℕ)
    → signed (2 * k) (c ∷ cs) +ℤ signed (2 * k + 1) (c ∷ cs) ≡ old c *ℤ signed k cs
unfolding signed
signed_pair c cs k =
    rw (odd_even k, odd-odd k, half_even k, half_odd k) (factor c.now c.delta (signed k cs))

sum_ext : (n m : ℕ) {f g : ℕ → ℤ} → ((k : ℕ) → f k ≡ g k) → sum_range n m f ≡ sum_range n m g
sum_ext n m h = ap (sum_range n m) (fun_ext h)

-- Over all masks the signed products add up to the product of the old weights.
sum-signed :
    (cs : List Cell) → sum_range (2 ^ length cs) 0 (λ mask. signed mask cs) ≡ product (map old cs)
sum-signed [] = unfold sum_range signed ◌+ℤ◌ in refl
sum-signed (c ∷ cs) = rw two_pow-suc (
    sum_double (2 ^ length cs) 0 (λ mask. signed mask (c ∷ cs))
    ∙ sum_ext (2 ^ length cs) 0 (signed_pair c cs)
    ∙ sum_mul (2 ^ length cs) 0 (old c) (λ mask. signed mask cs)
    ∙ ap (λ (t : ℤ). old c *ℤ t) (sum-signed cs))

mul_swap : (a b c : ℤ) → a *ℤ (b *ℤ c) ≡ b *ℤ (a *ℤ c)
mul_swap a b c = sym (*ℤ_assoc a b c) ∙ ap (λ (t : ℤ). t *ℤ c) (*ℤ_comm a b) ∙ *ℤ_assoc b a c

-- A term's weight is the negated signed product of its mask.
negated-signed :
    (cs : List Cell) (mask : ℕ)
    → negated (mul_weights mask cs) *ℤ base_product mask cs ≡ signed mask cs
unfolding mul_weights base_product signed negated
negated-signed [] mask = *ℤ_one (pos 1)
negated-signed (c ∷ cs) mask =
    let rest = negated (mul_weights (mask / 2) cs) in
    let base = base_product (mask / 2) cs in
    ground (
      arith,
      negated-signed cs (mask / 2),
      *ℤ_assoc (pos 0 -ℤ c.delta) rest base,
      mul_swap rest c.now base,
    )

pub term_weight-signed : (cs : List Cell) (mask : ℕ) → term_weight cs mask ≡ pos 0 -ℤ signed mask cs
unfolding term_weight
term_weight-signed cs mask =
    rw (combined-negated, ← negated-signed cs mask)
      (neg_mul (negated (mul_weights mask cs)) (base_product mask cs)
        ∙ sym (neg-eq-mul (negated (mul_weights mask cs) *ℤ base_product mask cs)))

neg_add : (a b : ℤ) → (pos 0 -ℤ a) +ℤ (pos 0 -ℤ b) ≡ pos 0 -ℤ (a +ℤ b)
neg_add a b = omega int_laws

sum_neg : (n m : ℕ) (f : ℕ → ℤ) → sum_range n m (λ k. pos 0 -ℤ f k) ≡ pos 0 -ℤ sum_range n m f
unfolding sum_range
sum_neg zero m f = unfold ◌-ℤ◌ in refl
sum_neg (suc n) m f = rw (sum_neg n (m + 1) f) (neg_add (f m) (sum_range n (m + 1) f))

signed-zero : (cs : List Cell) → signed 0 cs ≡ product (map now_of cs)
unfolding signed
signed-zero [] = refl
signed-zero (c ∷ cs) = ap (λ (t : ℤ). c.now *ℤ t) (signed-zero cs)

suc_sub_one : (n : ℕ) → suc n - 1 ≡ n
suc_sub_one n = omega arith

sum_head : (n : ℕ) (f : ℕ → ℤ) → 0 < n → sum_range n 0 f ≡ f 0 +ℤ sum_range (n - 1) 1 f
sum_head zero f h = elim h [ ]
sum_head (suc n) f h = rw (suc_sub_one n) (unfold sum_range in refl)

rearrange : (n r : ℤ) → pos 0 -ℤ r ≡ n -ℤ (n +ℤ r)
rearrange n r = omega int_laws

-- Over all non-empty masks the terms add up to the change of the join.
pub sum-term_weight :
    (cs : List Cell)
    → sum_range (2 ^ length cs - 1) 1 (term_weight cs)
      ≡ product (map now_of cs) -ℤ product (map old cs)
sum-term_weight cs =
    sum_ext (2 ^ length cs - 1) 1 (term_weight-signed cs)
    ∙ sum_neg (2 ^ length cs - 1) 1 (λ mask. signed mask cs)
    ∙ rearrange (product (map now_of cs)) (sum_range (2 ^ length cs - 1) 1 (λ mask. signed mask cs))
    ∙ ap (λ (t : ℤ). product (map now_of cs) -ℤ t)
        (ap (λ (t : ℤ). t +ℤ sum_range (2 ^ length cs - 1) 1 (λ mask. signed mask cs))
            (sym (signed-zero cs))
          ∙ sym (sum_head (2 ^ length cs) (λ mask. signed mask cs) (two_pow_pos (length cs)))
          ∙ sum-signed cs)
