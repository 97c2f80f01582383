-- ===== src/Join/Tests.antt =====
-- A join of orders and items, in the terms of src/delta/operators/join.cpp: an item is new, no order
-- is, and the orders refer to the items.
use openivm.Base.{
  ℕ, zero, suc, ◌<◌, ◌≡◌, ◌≢◌, ◌⊎◌, refl, sym, ◌∙◌, inl, inr, Bool-cases, ==_iff, Bool, true, false,
  List, [], ◌∷◌, some, codes, ◌==◌, arith, if◌then◌else◌, length, All,
}
use mathlib.Core.Path.{subst}
use mathlib.Core.Option.{some-injective}
use openivm.Base.Int.{ℤ, pos, ◌-ℤ◌}
use openivm.Join.Mask.{bit, set_bit, overlaps, and_bits, and_not, count_bits, count_loop}
use openivm.Join.Status.{
  foreign_key, counts, detect_fk_relations, fk_relations_from, fk_targets, table_to_leaf,
  detect_delta_status, detect_from, mark_leaf, compute_skip_bits, skip_loop,
}
use openivm.Join.Terms.{
  Settings, KeyContext, KeyProbe, build_terms, terms_from, prunes, plan_pruning, non_empty_mask,
  key_domain_empty, key_domain_loop, any_probe_empty, probe_empty,
}
use openivm.Join.Leaves.{
  Leaf, cells, join_now, join_old, join_delta, tables_of, probes_of, ProbeSound, FkIntegrity,
  ForeignKeyHolds, KeySound,
}
use openivm.Join.Correct

abbrev at_one : ℤ → ℕ → ℤ
at_one w row = if row == 1 then w else pos 0

abbrev orders : Leaf ℕ
orders = record {
  current = at_one (pos 3);
  delta = λ row. pos 0;
  probe = counts 0 0 3;
  table =
      some (record { name = codes "orders"; constraints = foreign_key true (codes "items") ∷ [] });
}

-- Item 2 is new.
abbrev new_item : ℕ → ℤ
new_item row = if row == 2 then pos 1 else pos 0

abbrev both_items : ℕ → ℤ
both_items row = if row == 1 then pos 1 else new_item row

abbrev items : Leaf ℕ
items = record {
  current = both_items;
  delta = new_item;
  probe = counts 1 0 9;
  table = some (record { name = codes "items"; constraints = [] });
}

abbrev leaves : List (Leaf ℕ)
leaves = orders ∷ items ∷ []

abbrev all_settings : Settings
all_settings = record { fk_pruning = true; skip_empty_deltas = true; compile_only = false }

abbrev item_key : KeyProbe
item_key = record { other_leaf = 1; delta_column = codes "item"; other_column = codes "id" }

abbrev probes_at : ℕ → List KeyProbe
probes_at zero = item_key ∷ []
probes_at (suc i) = []

abbrev keys : KeyContext
keys = record {
  known = λ i. true;
  probes = probes_at;
  delta_match = λ i p. true;
  base_match = λ i p. true;
}

abbrev same_row : (ℕ → ℕ) → Bool
same_row rows = rows 0 == rows 1

abbrev first_row : ℕ → ℕ
first_row i = 1

-- None of the three terms is built.
kept_terms : build_terms all_settings false (tables_of leaves) (probes_of leaves) keys ≡ []
unfolding build_terms terms_from prunes plan_pruning non_empty_mask key_domain_empty key_domain_loop
    any_probe_empty probe_empty detect_delta_status detect_from mark_leaf compute_skip_bits
    skip_loop detect_fk_relations fk_relations_from fk_targets table_to_leaf bit set_bit overlaps
    and_bits and_not count_bits count_loop
kept_terms = refl

new_item-pos : (row : ℕ) → (n : ℕ) × (new_item row ≡ pos n)
new_item-pos row = elim (Bool-cases (row == 2)) [ inl e ↦ (1, rw e refl) | inr e ↦ (0, rw e refl) ]

leaves-ProbeSound : All ProbeSound leaves
leaves-ProbeSound = (
  record { no_rows = λ empty row. refl; no_deletes = λ only row. (0, refl) },
  (record { no_rows = λ empty row. cc; no_deletes = λ only row. new_item-pos row }, tt),
)

zero_not_one : ◌≢◌ {A = ℕ} 0 1
zero_not_one e = omega (arith, e)

both_items-once : (y : ℕ) → (both_items y ≡ pos 0) ⊎ (both_items y ≡ pos 1)
both_items-once y = elim (Bool-cases (y == 1)) [
  | inl e ↦ inr (rw e refl)
  | inr e ↦ elim (Bool-cases (y == 2)) [
    | inl e2 ↦ inr (rw e (rw e2 refl))
    | inr e2 ↦ inl (rw e (rw e2 refl))
  ]
]

old_items-once :
    (y : ℕ) → (both_items y -ℤ new_item y ≡ pos 0) ⊎ (both_items y -ℤ new_item y ≡ pos 1)
unfolding ◌-ℤ◌
old_items-once y = elim (Bool-cases (y == 1)) [
  | inl e ↦ inr (rw e (rw ((==_iff y 1).0 e) refl))
  | inr e ↦ elim (Bool-cases (y == 2)) [
    | inl e2 ↦ inl (rw e (rw e2 refl))
    | inr e2 ↦ inl (rw e (rw e2 refl))
  ]
]

orders-referenced :
    (x : ℕ)
    → (at_one (pos 3) x -ℤ pos 0 ≡ pos 0)
      ⊎ ((y : ℕ) × (x ≡ y) × (both_items y -ℤ new_item y ≡ pos 1))
unfolding ◌-ℤ◌
orders-referenced x = elim (Bool-cases (x == 1)) [
  | inl e ↦ inr (1, (==_iff x 1).0 e, refl)
  | inr e ↦ inl (rw e refl)
]

orders-ForeignKeyHolds : ForeignKeyHolds (λ x y. x ≡ y) orders items
orders-ForeignKeyHolds = record {
  once = both_items-once;
  once_before = old_items-once;
  referenced = λ x y same. orders-referenced x;
  unique = λ x y z xy xz here there. sym xy ∙ xz;
}

orders-FkIntegrity : All (FkIntegrity same_row leaves) (detect_fk_relations (tables_of leaves))
unfolding detect_fk_relations fk_relations_from fk_targets table_to_leaf
orders-FkIntegrity = (
  record {
    distinct = λ e. zero_not_one e;
    refers = λ x y. x ≡ y;
    joined = λ rows on. (==_iff (rows 0) (rows 1)).0 on;
    holds = λ f p at at'.
        subst (λ (g : Leaf ℕ). ForeignKeyHolds (λ x y. x ≡ y) g p) (some-injective _ _ at)
          (subst (λ (g : Leaf ℕ). ForeignKeyHolds (λ x y. x ≡ y) orders g) (some-injective _ _ at')
            orders-ForeignKeyHolds);
  },
  tt,
)

probes_at-in_range :
    (i : ℕ) → All (λ p. p.other_leaf < length (cells 0 leaves first_row)) (probes_at i)
probes_at-in_range zero = (omega arith, tt)
probes_at-in_range (suc i) = tt

keys-KeySound : KeySound keys (cells 0 leaves first_row)
keys-KeySound = record {
  in_range = probes_at-in_range;
  delta_sound = λ i p c d missing at at'. cc;
  base_sound = λ i p c d missing at at'. cc;
}

join_delta_correct_example :
    join_delta all_settings keys same_row leaves first_row
    ≡ join_now same_row leaves first_row -ℤ join_old same_row leaves first_row
join_delta_correct_example =
    Correct.join_delta_correct all_settings keys same_row leaves first_row (omega arith)
      leaves-ProbeSound (λ used. orders-FkIntegrity) (λ on used. keys-KeySound)
