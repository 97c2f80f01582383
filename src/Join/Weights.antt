-- ===== src/Join/Weights.antt =====
-- src/delta/operators/join.cpp: the rows that a term contributes, as Z-set weights. The current
-- table of a leaf already holds its pending delta.
use openivm.Base.{ℕ, ◌/◌, ◌%◌, List, [], ◌∷◌, Bool, ◌==◌, if◌then◌else◌, length}
use openivm.Base.Int.{ℤ, pos, negsuc, ◌+ℤ◌, ◌-ℤ◌, ◌*ℤ◌}
use openivm.Join.Mask.{odd}

-- The weights of one leaf at one row: in the current table, and in the pending delta.
pub record Cell : Type 0 where
  pub now : ℤ
  pub delta : ℤ

abbrev pub old : Cell → ℤ
old c = c.now -ℤ c.delta

abbrev pub product : List ℤ → ℤ
product [] = pos 1
product (w ∷ ws) = w *ℤ product ws

abbrev pub now_of : Cell → ℤ
now_of c = c.now

unfoldable pub even : ℕ → Bool
even n = (n % 2) == 0

-- The combined multiplicity of a term: the product of the delta weights, times -1 where their
-- number is even.
unfoldable pub combined : List ℤ → ℤ
unfolding even
combined ws = let p = product ws in if even (length ws) then negsuc 0 *ℤ p else p

-- `mul_bindings`: the weight columns of the leaves that the mask replaces by their deltas.
unfoldable pub mul_weights : ℕ → List Cell → List ℤ
mul_weights mask [] = []
mul_weights mask (c ∷ cs) =
    let rest = mul_weights (mask / 2) cs in if odd mask then c.delta ∷ rest else rest

-- How often the other leaves' current tables hold the row.
unfoldable pub base_product : ℕ → List Cell → ℤ
base_product mask [] = pos 1
base_product mask (c ∷ cs) =
    let rest = base_product (mask / 2) cs in if odd mask then rest else c.now *ℤ rest

-- The weight of one joined row in the term of a mask.
unfoldable pub term_weight : List Cell → ℕ → ℤ
term_weight cs mask = combined (mul_weights mask cs) *ℤ base_product mask cs

-- UNION ALL of the terms.
unfoldable pub union_weight : List Cell → List ℕ → ℤ
union_weight cs [] = pos 0
union_weight cs (mask ∷ masks) = term_weight cs mask +ℤ union_weight cs masks
