-- ===== src/Join/Status.antt =====
-- src/delta/operators/join.cpp: `DetectDeltaStatus`, `DetectFKRelations` and `ComputeSkipBits`. What
-- the source asks of the database (rows pending, rows deleted, rows of the table) and of the catalog
-- (constraints) is a value that the functions here take.
use Prim.Native.Nat.{max}
use openivm.Base.{
  ℕ, suc, ◌+◌, ◌/◌, Bool, true, false, ◌||◌, List, [], ◌∷◌, ◌++◌, Option, none, some, Bytes, ◌==◌,
  leb, bytes_eq, if◌then◌else◌,
}
use openivm.Join.Mask.{bit, set_bit}

-- A referential constraint of a table: another kind, or a foreign key with the name of the table
-- that it refers to and whether this table is the referring side.
pub data Constraint : Type 0 where
  other : Constraint
  foreign_key : Bool → Bytes → Constraint

pub record LeafTable : Type 0 where
  pub name : Bytes
  pub constraints : List Constraint

-- What `DetectDeltaStatus` finds for a leaf: no scan and a constant subtree; no scan otherwise; a
-- scan of a table function; no metadata row; a failed count; or the pending rows, the pending
-- deletes and the rows of the table.
pub data LeafProbe : Type 0 where
  constant_leaf opaque_leaf table_function no_metadata failed_count : LeafProbe
  counts : ℕ → ℕ → ℕ → LeafProbe

-- The probes after which a leaf is taken to have no pending row.
abbrev pub is_empty_probe : LeafProbe → Bool
is_empty_probe constant_leaf = true
is_empty_probe table_function = true
is_empty_probe (counts total _ _) = total == 0
is_empty_probe _ = false

-- The probes after which a leaf is taken to have no pending delete.
abbrev pub is_insert_only_probe : LeafProbe → Bool
is_insert_only_probe constant_leaf = true
is_insert_only_probe table_function = true
is_insert_only_probe (counts total deletes _) = (total == 0) || (deletes == 0)
is_insert_only_probe _ = false

pub record DeltaStatus : Type 0 where
  pub insert_only_mask : ℕ
  pub empty_mask : ℕ
  pub constant_mask : ℕ
  pub tiny_mask : ℕ

mark_constant : ℕ → DeltaStatus → DeltaStatus
mark_constant i s = record s {
  empty_mask = set_bit s.empty_mask i;
  insert_only_mask = set_bit s.insert_only_mask i;
  constant_mask = set_bit s.constant_mask i;
}

mark_counts : ℕ → ℕ → ℕ → ℕ → DeltaStatus → DeltaStatus
mark_counts i total_count delete_count base_count s =
    if total_count == 0
    then record s {
      empty_mask = set_bit s.empty_mask i;
      insert_only_mask = set_bit s.insert_only_mask i;
    }
    else record s {
      tiny_mask =
          if leb total_count (max 8 ((base_count + 19) / 20))
          then set_bit s.tiny_mask i
          else s.tiny_mask;
      insert_only_mask =
          if delete_count == 0 then set_bit s.insert_only_mask i else s.insert_only_mask;
    }

-- One round of the loop.
unfoldable pub mark_leaf : ℕ → LeafProbe → DeltaStatus → DeltaStatus
unfolding mark_constant mark_counts
mark_leaf i constant_leaf s = mark_constant i s
mark_leaf i opaque_leaf s = s
mark_leaf i table_function s = mark_constant i s
mark_leaf i no_metadata s = s
mark_leaf i failed_count s = s
mark_leaf i (counts total_count delete_count base_count) s =
    mark_counts i total_count delete_count base_count s

unfoldable pub detect_from : ℕ → List LeafProbe → DeltaStatus → DeltaStatus
detect_from i [] s = s
detect_from i (p ∷ ps) s = detect_from (suc i) ps (mark_leaf i p s)

abbrev pub no_status : DeltaStatus
no_status = record { insert_only_mask = 0; empty_mask = 0; constant_mask = 0; tiny_mask = 0 }

unfoldable pub detect_delta_status : List LeafProbe → DeltaStatus
unfolding detect_from mark_leaf
detect_delta_status ps = detect_from 0 ps no_status

pub record FkRelation : Type 0 where
  pub fk_leaf : ℕ
  pub pk_leaf : ℕ

-- `table_to_leaf`: a later leaf of the same name replaces an earlier one.
unfoldable pub table_to_leaf : ℕ → List (Option LeafTable) → Bytes → Option ℕ → Option ℕ
table_to_leaf i [] name found = found
table_to_leaf i (none ∷ ts) name found = table_to_leaf (suc i) ts name found
table_to_leaf i (some t ∷ ts) name found =
    table_to_leaf (suc i) ts name (if bytes_eq t.name name then some i else found)

unfoldable pub fk_targets : ℕ → List (Option LeafTable) → List Constraint → List FkRelation
fk_targets i leaves [] = []
fk_targets i leaves (other ∷ cs) = fk_targets i leaves cs
fk_targets i leaves (foreign_key referring table ∷ cs) =
    let rest = fk_targets i leaves cs in
    if referring
    then elim (table_to_leaf 0 leaves table none) [
      | none ↦ rest
      | some pk ↦ record { fk_leaf = i; pk_leaf = pk } ∷ rest
    ]
    else rest

unfoldable pub fk_relations_from :
    ℕ → List (Option LeafTable) → List (Option LeafTable) → List FkRelation
fk_relations_from i leaves [] = []
fk_relations_from i leaves (none ∷ ts) = fk_relations_from (suc i) leaves ts
fk_relations_from i leaves (some t ∷ ts) =
    fk_targets i leaves t.constraints ++ fk_relations_from (suc i) leaves ts

unfoldable pub detect_fk_relations : List (Option LeafTable) → List FkRelation
unfolding fk_relations_from fk_targets table_to_leaf
detect_fk_relations leaves = fk_relations_from 0 leaves leaves

unfoldable pub skip_loop : List FkRelation → ℕ → ℕ → ℕ
skip_loop [] insert_only skip = skip
skip_loop (r ∷ rs) insert_only skip =
    skip_loop rs insert_only (if bit insert_only r.pk_leaf then set_bit skip r.pk_leaf else skip)

unfoldable pub compute_skip_bits : List FkRelation → ℕ → ℕ
unfolding skip_loop
compute_skip_bits rs insert_only = skip_loop rs insert_only 0
