-- ===== src/Join/Leaves.antt =====
-- The leaves of a join, the relation that they make before and after the pending deltas, and what
-- the database's answers are taken to mean.
use openivm.Base.{
  ℕ, suc, ◌<◌, ◌≡◌, ◌≢◌, ◌⊎◌, Bool, true, false, List, [], ◌∷◌, map, Option, some, if◌then◌else◌,
  length, get_elem?, All,
}
use openivm.Base.Int.{ℤ, pos, ◌-ℤ◌}
use openivm.Join.Status.{LeafTable, LeafProbe, FkRelation, is_empty_probe, is_insert_only_probe}
use openivm.Join.Terms.{Settings, KeyContext, KeyProbe, build_terms}
use openivm.Join.Weights.{Cell, old, now_of, product, union_weight}

-- A join leaf: the current table and the pending delta as weights of rows, what the delta status
-- query found, and the catalog entry.
pub record Leaf (Row : Type 0) : Type 0 where
  pub current : Row → ℤ
  pub delta : Row → ℤ
  pub probe : LeafProbe
  pub table : Option LeafTable

module _ {Row : Type 0} where
  -- The weights at a joined row: `rows i` is the row of leaf i.
  abbrev pub cells : ℕ → List (Leaf Row) → (ℕ → Row) → List Cell
  cells i [] rows = []
  cells i (l ∷ ls) rows =
      record { now = l.current (rows i); delta = l.delta (rows i) } ∷ cells (suc i) ls rows

  abbrev pub probes_of : List (Leaf Row) → List LeafProbe
  probes_of [] = []
  probes_of (l ∷ ls) = l.probe ∷ probes_of ls

  abbrev pub tables_of : List (Leaf Row) → List (Option LeafTable)
  tables_of [] = []
  tables_of (l ∷ ls) = l.table ∷ tables_of ls

  -- The joined relation, from the current tables and from those before the pending deltas.
  abbrev pub join_now : ((ℕ → Row) → Bool) → List (Leaf Row) → (ℕ → Row) → ℤ
  join_now on ls rows = if on rows then product (map now_of (cells 0 ls rows)) else pos 0

  abbrev pub join_old : ((ℕ → Row) → Bool) → List (Leaf Row) → (ℕ → Row) → ℤ
  join_old on ls rows = if on rows then product (map old (cells 0 ls rows)) else pos 0

  -- What the compiled plan yields: each term keeps the join condition.
  abbrev pub join_delta :
      Settings → KeyContext → ((ℕ → Row) → Bool) → List (Leaf Row) → (ℕ → Row) → ℤ
  join_delta settings k on ls rows =
      if on rows
      then union_weight (cells 0 ls rows)
          (build_terms settings false (tables_of ls) (probes_of ls) k)
      else pos 0

  -- The delta status query counts what is there: a leaf that it calls empty has no pending row, and a
  -- leaf without pending deletes has no row of negative weight.
  pub record ProbeSound (l : Leaf Row) : Type 0 where
    pub no_rows : is_empty_probe l.probe ≡ true → (r : Row) → l.delta r ≡ pos 0
    pub no_deletes : is_insert_only_probe l.probe ≡ true → (r : Row) → (n : ℕ) × (l.delta r ≡ pos n)

  -- A foreign key that a database keeps between a referencing table and a referenced one: at both
  -- times the referenced table holds each row once at most, a referencing row that was there before
  -- the pending deltas and has a key referred to a row that was there too, and no two rows of the
  -- current table have the key that it refers to. Rows without a key (NULL) refer to none.
  pub record ForeignKeyHolds (refers : Row → Row → Type 0) (f p : Leaf Row) : Type 0 where
    pub once : (y : Row) → (p.current y ≡ pos 0) ⊎ (p.current y ≡ pos 1)
    pub once_before :
        (y : Row) → (p.current y -ℤ p.delta y ≡ pos 0) ⊎ (p.current y -ℤ p.delta y ≡ pos 1)
    pub referenced :
        (x y : Row)
        → refers x y
        → (f.current x -ℤ f.delta x ≡ pos 0)
          ⊎ ((z : Row) × refers x z × (p.current z -ℤ p.delta z ≡ pos 1))
    pub unique :
        (x y z : Row) → refers x y → refers x z → p.current y ≡ pos 1 → p.current z ≡ pos 1 → y ≡ z

  -- A relation of `DetectFKRelations` joins two leaves, the foreign key holds between their tables,
  -- and a joined row has rows of them that refer to each other.
  pub record FkIntegrity (on : (ℕ → Row) → Bool) (ls : List (Leaf Row)) (r : FkRelation)
      : Type 1 where
    pub distinct : r.fk_leaf ≢ r.pk_leaf
    pub refers : Row → Row → Type 0
    pub joined : (rows : ℕ → Row) → on rows ≡ true → refers (rows r.fk_leaf) (rows r.pk_leaf)
    pub holds :
        (f p : Leaf Row)
        → get_elem? ls r.fk_leaf ≡ some f
        → get_elem? ls r.pk_leaf ≡ some p
        → ForeignKeyHolds refers f p

-- At a joined row, for a relation whose referenced leaf has no pending deletes: a referencing row that
-- was there before the pending deltas does not meet a pending referenced row.
pub record Unreferenced (cs : List Cell) (probes : List LeafProbe) (r : FkRelation) : Type 0 where
  pub apart : r.fk_leaf ≢ r.pk_leaf
  pub unreferenced :
      (f p : Cell) (q : LeafProbe)
      → get_elem? cs r.fk_leaf ≡ some f
      → get_elem? cs r.pk_leaf ≡ some p
      → get_elem? probes r.pk_leaf ≡ some q
      → is_insert_only_probe q ≡ true
      → (old f ≡ pos 0) ⊎ (p.delta ≡ pos 0)

-- The EXISTS queries answer rightly at a joined row: where a query finds no match, one of the two
-- inputs does not hold its row. The other leaf of a probe is a leaf of the join.
pub record KeySound (k : KeyContext) (cs : List Cell) : Type 0 where
  pub in_range : (i : ℕ) → All (λ p. p.other_leaf < length cs) (k.probes i)
  pub delta_sound :
      (i : ℕ) (p : KeyProbe) (c d : Cell)
      → k.delta_match i p ≡ false
      → get_elem? cs i ≡ some c
      → get_elem? cs p.other_leaf ≡ some d
      → (c.delta ≡ pos 0) ⊎ (d.delta ≡ pos 0)
  pub base_sound :
      (i : ℕ) (p : KeyProbe) (c d : Cell)
      → k.base_match i p ≡ false
      → get_elem? cs i ≡ some c
      → get_elem? cs p.other_leaf ≡ some d
      → (c.delta ≡ pos 0) ⊎ (d.now ≡ pos 0)
