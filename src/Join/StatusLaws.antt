-- ===== src/Join/StatusLaws.antt =====
-- What the masks of `DetectDeltaStatus` and `ComputeSkipBits` say of the leaves.
use openivm.Base.{
  ℕ, suc, ◌+◌, ◌<◌, ◌≤◌, ◌≡◌, refl, sym, ap, ◌∙◌, ◌⊎◌, inl, inr, true, false, List, [], ◌∷◌, Option,
  none, some, arith, ◌==◌, ==_iff, if◌then◌else◌, Bool-cases, length, get_elem?, All, All-append,
}
use native.Mathlib.Nat.{zero-add}
use openivm.Join.MaskLaws.{bit-zero}
use openivm.Join.Mask.{bit, set_bit, bit-set_bit}
use openivm.Join.Status.{
  LeafTable, Constraint, other, foreign_key, LeafProbe, constant_leaf, table_function, counts,
  DeltaStatus, mark_leaf, detect_from, no_status, detect_delta_status, FkRelation, table_to_leaf,
  fk_targets, fk_relations_from, detect_fk_relations, skip_loop, compute_skip_bits, is_empty_probe,
  is_insert_only_probe,
}

mark_leaf-empty :
    (i j : ℕ) (p : LeafProbe) (s : DeltaStatus)
    → bit (mark_leaf i p s).empty_mask j ≡ true
    → (bit s.empty_mask j ≡ true) ⊎ ((i ≡ j) × (is_empty_probe p ≡ true))
unfolding mark_leaf
mark_leaf-empty i j constant_leaf s h = ground (arith, bit-set_bit s.empty_mask i j)
mark_leaf-empty i j (counts t d b) s h = ground (arith, bit-set_bit s.empty_mask i j)
mark_leaf-empty i j table_function s h = ground (arith, bit-set_bit s.empty_mask i j)
mark_leaf-empty i j _ s h = inl h

mark_leaf-constant :
    (i j : ℕ) (p : LeafProbe) (s : DeltaStatus)
    → bit (mark_leaf i p s).constant_mask j ≡ true
    → (bit s.constant_mask j ≡ true) ⊎ ((i ≡ j) × (is_empty_probe p ≡ true))
unfolding mark_leaf
mark_leaf-constant i j constant_leaf s h = ground (arith, bit-set_bit s.constant_mask i j)
mark_leaf-constant i j (counts t d b) s h = ground (arith, bit-set_bit s.constant_mask i j)
mark_leaf-constant i j table_function s h = ground (arith, bit-set_bit s.constant_mask i j)
mark_leaf-constant i j _ s h = inl h

-- Leaf j, counted from i, has a probe that finds nothing.
EmptyAt : ℕ → List LeafProbe → ℕ → Type 0
EmptyAt i ps j =
    (d : ℕ) × (p : LeafProbe) × (j ≡ i + d) × (get_elem? ps d ≡ some p) × (is_empty_probe p ≡ true)

EmptyAt-cons :
    (i j : ℕ) (p : LeafProbe) (ps : List LeafProbe) → EmptyAt (suc i) ps j → EmptyAt i (p ∷ ps) j
unfolding EmptyAt
EmptyAt-cons i j p ps (d, q, e, at, empty) = (suc d, q, omega arith, at, empty)

detect_from-empty :
    (i j : ℕ) (ps : List LeafProbe) (s : DeltaStatus)
    → bit (detect_from i ps s).empty_mask j ≡ true
    → (bit s.empty_mask j ≡ true) ⊎ EmptyAt i ps j
unfolding detect_from
detect_from-empty i j [] s h = inl h
detect_from-empty i j (p ∷ ps) s h = elim (detect_from-empty (suc i) j ps (mark_leaf i p s) h) [
  | inr later ↦ inr (EmptyAt-cons i j p ps later)
  | inl now ↦ elim (mark_leaf-empty i j p s now) [
    | inl before ↦ inl before
    | inr (e, empty) ↦ inr (unfold EmptyAt in (0, p, omega arith, refl, empty))
  ]
]

detect_from-constant :
    (i j : ℕ) (ps : List LeafProbe) (s : DeltaStatus)
    → bit (detect_from i ps s).constant_mask j ≡ true
    → (bit s.constant_mask j ≡ true) ⊎ EmptyAt i ps j
unfolding detect_from
detect_from-constant i j [] s h = inl h
detect_from-constant i j (p ∷ ps) s h =
    elim (detect_from-constant (suc i) j ps (mark_leaf i p s) h) [
      | inr later ↦ inr (EmptyAt-cons i j p ps later)
      | inl now ↦ elim (mark_leaf-constant i j p s now) [
        | inl before ↦ inl before
        | inr (e, empty) ↦ inr (unfold EmptyAt in (0, p, omega arith, refl, empty))
      ]
    ]

not_at_start : (j : ℕ) → bit 0 j ≡ true → ⊥
not_at_start j h = ground (arith, bit-zero j)

EmptyAt-probe :
    (ps : List LeafProbe) (j : ℕ)
    → EmptyAt 0 ps j
    → (p : LeafProbe) × (get_elem? ps j ≡ some p) × (is_empty_probe p ≡ true)
unfolding EmptyAt
EmptyAt-probe ps j (d, p, e, at, empty) = (p, rw (e, zero-add) at, empty)

-- A leaf in the empty mask has a probe that finds nothing.
pub empty_mask_sound :
    (ps : List LeafProbe) (j : ℕ)
    → bit (detect_delta_status ps).empty_mask j ≡ true
    → (p : LeafProbe) × (get_elem? ps j ≡ some p) × (is_empty_probe p ≡ true)
unfolding detect_delta_status
empty_mask_sound ps j h = elim (detect_from-empty 0 j ps no_status h) [
  | inl never ↦ absurd (not_at_start j never)
  | inr at ↦ EmptyAt-probe ps j at
]

pub constant_mask_sound :
    (ps : List LeafProbe) (j : ℕ)
    → bit (detect_delta_status ps).constant_mask j ≡ true
    → (p : LeafProbe) × (get_elem? ps j ≡ some p) × (is_empty_probe p ≡ true)
unfolding detect_delta_status
constant_mask_sound ps j h = elim (detect_from-constant 0 j ps no_status h) [
  | inl never ↦ absurd (not_at_start j never)
  | inr at ↦ EmptyAt-probe ps j at
]

mark_leaf-insert_only :
    (i j : ℕ) (p : LeafProbe) (s : DeltaStatus)
    → bit (mark_leaf i p s).insert_only_mask j ≡ true
    → (bit s.insert_only_mask j ≡ true) ⊎ ((i ≡ j) × (is_insert_only_probe p ≡ true))
unfolding mark_leaf
mark_leaf-insert_only i j constant_leaf s h = ground (arith, bit-set_bit s.insert_only_mask i j)
mark_leaf-insert_only i j (counts t d b) s h = ground (arith, bit-set_bit s.insert_only_mask i j)
mark_leaf-insert_only i j table_function s h = ground (arith, bit-set_bit s.insert_only_mask i j)
mark_leaf-insert_only i j _ s h = inl h

-- Leaf j, counted from i, has a probe without deletes.
InsertOnlyAt : ℕ → List LeafProbe → ℕ → Type 0
InsertOnlyAt i ps j =
    (d : ℕ) × (p : LeafProbe) × (j ≡ i + d)
    × (get_elem? ps d ≡ some p)
    × (is_insert_only_probe p ≡ true)

detect_from-insert_only :
    (i j : ℕ) (ps : List LeafProbe) (s : DeltaStatus)
    → bit (detect_from i ps s).insert_only_mask j ≡ true
    → (bit s.insert_only_mask j ≡ true) ⊎ InsertOnlyAt i ps j
unfolding detect_from InsertOnlyAt
detect_from-insert_only i j [] s h = inl h
detect_from-insert_only i j (p ∷ ps) s h =
    elim (detect_from-insert_only (suc i) j ps (mark_leaf i p s) h) [
      | inr (d, q, e, at, only) ↦ inr (suc d, q, omega arith, at, only)
      | inl now ↦ elim (mark_leaf-insert_only i j p s now) [
        | inl before ↦ inl before
        | inr (e, only) ↦ inr (0, p, omega arith, refl, only)
      ]
    ]

-- A leaf in the insert-only mask has a probe without deletes.
pub insert_only_mask_sound :
    (ps : List LeafProbe) (j : ℕ)
    → bit (detect_delta_status ps).insert_only_mask j ≡ true
    → (p : LeafProbe) × (get_elem? ps j ≡ some p) × (is_insert_only_probe p ≡ true)
unfolding detect_delta_status InsertOnlyAt
insert_only_mask_sound ps j h = elim (detect_from-insert_only 0 j ps no_status h) [
  | inl never ↦ absurd (not_at_start j never)
  | inr (d, p, e, at, only) ↦ (p, rw (e, zero-add) at, only)
]

skip_loop_sound :
    {P : FkRelation → Type 0} (rs : List FkRelation) (insert_only skip j : ℕ)
    → All P rs
    → bit (skip_loop rs insert_only skip) j ≡ true
    → (bit skip j ≡ true) ⊎ ((r : FkRelation) × P r × (r.pk_leaf ≡ j) × (bit insert_only j ≡ true))
unfolding skip_loop
skip_loop_sound [] insert_only skip j all h = inl h
skip_loop_sound (r ∷ rs) insert_only skip j (here, all) h =
    elim (skip_loop_sound rs insert_only
      (if bit insert_only r.pk_leaf then set_bit skip r.pk_leaf else skip) j all h) [
        | inr later ↦ inr later
        | inl now ↦ elim (Bool-cases (bit insert_only r.pk_leaf)) [
          | inr not_only ↦ inl (ground arith)
          | inl only ↦ elim (Bool-cases (r.pk_leaf == j)) [
            | inl e ↦
                let same = (==_iff r.pk_leaf j).0 e in
                inr (r, here, same, ap (bit insert_only) (sym same) ∙ only)
            | inr ne ↦ inl (ground (arith, bit-set_bit skip r.pk_leaf j))
          ]
        ]
      ]

-- A leaf that is skipped is in the insert-only mask and referenced by a relation, of which all that
-- holds of every one does.
pub skip_bits_sound :
    {P : FkRelation → Type 0} (rs : List FkRelation) (insert_only j : ℕ)
    → All P rs
    → bit (compute_skip_bits rs insert_only) j ≡ true
    → (r : FkRelation) × P r × (r.pk_leaf ≡ j) × (bit insert_only j ≡ true)
unfolding compute_skip_bits
skip_bits_sound rs insert_only j all h = elim (skip_loop_sound rs insert_only 0 j all h) [
  | inl never ↦ absurd (not_at_start j never)
  | inr found ↦ found
]

fk_targets-lt :
    (i n : ℕ) (leaves : List (Option LeafTable)) (cs : List Constraint)
    → i < n
    → All (λ r. r.fk_leaf < n) (fk_targets i leaves cs)
unfolding fk_targets
fk_targets-lt i n leaves [] lt = tt
fk_targets-lt i n leaves (other ∷ cs) lt = fk_targets-lt i n leaves cs lt
fk_targets-lt i n leaves (foreign_key false t ∷ cs) lt = fk_targets-lt i n leaves cs lt
fk_targets-lt i n leaves (foreign_key true t ∷ cs) lt =
    elim (table_to_leaf 0 leaves t none)
      as (λ o.
        All (λ r. r.fk_leaf < n)
          (elim o [
            | none ↦ fk_targets i leaves cs
            | some pk ↦ record { fk_leaf = i; pk_leaf = pk } ∷ fk_targets i leaves cs
          ])) [
            | none ↦ fk_targets-lt i n leaves cs lt
            | some pk ↦ (lt, fk_targets-lt i n leaves cs lt)
          ]

fk_relations_from-lt :
    (i n : ℕ) (leaves ts : List (Option LeafTable))
    → i + length ts ≤ n
    → All (λ r. r.fk_leaf < n) (fk_relations_from i leaves ts)
unfolding fk_relations_from
fk_relations_from-lt i n leaves [] le = tt
fk_relations_from-lt i n leaves (none ∷ ts) le =
    fk_relations_from-lt (suc i) n leaves ts (omega arith)
fk_relations_from-lt i n leaves (some t ∷ ts) le =
    All-append (λ r. r.fk_leaf < n) _ _ (fk_targets-lt i n leaves t.constraints (omega arith))
      (fk_relations_from-lt (suc i) n leaves ts (omega arith))

-- The referencing leaf of a relation is one of the leaves.
pub detect_fk_relations-lt :
    (leaves : List (Option LeafTable))
    → All (λ r. r.fk_leaf < length leaves) (detect_fk_relations leaves)
unfolding detect_fk_relations
detect_fk_relations-lt leaves = fk_relations_from-lt 0 (length leaves) leaves leaves (omega arith)
