-- ===== src/Extract/SumItem.antt =====
-- What the first loop of `ExtractFilteredGroupCount` (src/core/parser_sql_extractors.cpp) has seen.
use openivm.Base.{
  All, get_elem?, ◌≡◌, refl, sym, ap, ℕ, ◌+◌, Bool, true, false, List, [], ◌∷◌, Option, none, some,
  Bytes, codes, if◌then◌else◌,
}
use mathlib.Core.Path.{subst}
use mathlib.Core.Option.{some-injective}
use openivm.Extract.Parens.{find_top_level_keyword_token}
use openivm.Extract.Tokens.{read_identifier_token, last_identifier_part, parse_sum_call}
use openivm.Extract.Select.{SelectOutputItem, parse_select_output_items}
use openivm.Extract.WhereColumn.{Stands}
use openivm.Extract.Filtered.{
  GroupedSum, SelectStep, goes_on, returns_false, breaks, select_loop, try_select, try_items,
  grouped_sum, sum_and_group,
}

first_break :
    (step : SelectStep) (later : Option GroupedSum) (sum : GroupedSum) (P : Type 0)
    → elim step [ goes_on ↦ later | returns_false ↦ none | breaks x ↦ some x ] ≡ some sum
    → (step ≡ breaks sum → P)
    → (later ≡ some sum → P)
    → P
first_break goes_on later sum P h now after = after h
first_break returns_false later sum P h now after = cc
first_break (breaks x) later sum P h now after = now (ap breaks (some-injective _ _ h))

else_breaks :
    (b : Bool) (x y : GroupedSum) → (if b then returns_false else breaks x) ≡ breaks y → x ≡ y
else_breaks true x y h = cc
else_breaks false x y h = cc

step_of :
    {A : Type 0} (r : Option A) (f : A → SelectStep) (otherwise : SelectStep) (sum : GroupedSum)
    → (otherwise ≡ breaks sum → ⊥)
    → elim r [ none ↦ otherwise | some x ↦ f x ] ≡ breaks sum
    → (x : A) × (r ≡ some x) × (f x ≡ breaks sum)
step_of none f otherwise sum never h = absurd (never h)
step_of (some x) f otherwise sum never h = (x, refl, h)

module _ (trim lower : Bytes → Bytes) (ci_equals : Bytes → Bytes → Bool) (sql : Bytes) where
  -- One of the items, which is a sum.
  abbrev pub IsItem : List SelectOutputItem → SelectOutputItem → Bytes → Type 0
  IsItem items item arg =
      (i : ℕ) × (get_elem? items i ≡ some item) × (parse_sum_call trim lower item.expr ≡ some arg)

  -- What the first loop finds: the alias is the name of a sum over the column, which is one of the items
  -- between a SELECT and its FROM.
  abbrev pub IsSum : GroupedSum → Type 0
  IsSum sum =
      (select_pos from_pos : ℕ) × Stands (lower sql) (codes "select") select_pos
      × (find_top_level_keyword_token (lower sql) (codes "from") (select_pos + 6) ≡ some from_pos)
      × (items : List SelectOutputItem) × (parse_select_output_items trim lower sql select_pos
            from_pos
          ≡ some items)
      × (item : SelectOutputItem) × (arg : Bytes) × IsItem items item arg
      × (sum.sum_alias ≡ item.name)
      × (sum.sum_col ≡ last_identifier_part trim arg)

  sum_of :
      (a b : SelectOutputItem) (ra rb : Option Bytes)
      (found : (SelectOutputItem × Bytes) × SelectOutputItem)
      → parse_sum_call trim lower a.expr ≡ ra
      → parse_sum_call trim lower b.expr ≡ rb
      → elim ra [
        | none ↦ elim rb [ none ↦ none | some arg ↦ some ((b, arg), a) ]
        | some arg ↦ elim rb [ none ↦ some ((a, arg), b) | some other ↦ none ]
      ]
        ≡ some found
      → IsItem (a ∷ b ∷ []) found.0.0 found.0.1
  sum_of a b none none found ha hb h = cc
  sum_of a b none (some arg) found ha hb h =
      subst (λ f. IsItem (a ∷ b ∷ []) f.0.0 f.0.1) (some-injective _ _ h) (1, refl, hb)
  sum_of a b (some arg) none found ha hb h =
      subst (λ f. IsItem (a ∷ b ∷ []) f.0.0 f.0.1) (some-injective _ _ h) (0, refl, ha)
  sum_of a b (some arg) (some other) found ha hb h = cc

  sum_and_group-sum :
      (items : List SelectOutputItem) (found : (SelectOutputItem × Bytes) × SelectOutputItem)
      → sum_and_group trim lower ci_equals items ≡ some found
      → IsItem items found.0.0 found.0.1
  unfolding sum_and_group
  sum_and_group-sum (a ∷ b ∷ []) found h =
      sum_of a b (parse_sum_call trim lower a.expr) (parse_sum_call trim lower b.expr) found refl
        refl h
  sum_and_group-sum _ found h = cc

  grouped_sum-alias :
      (group_pos : ℕ) (found : (SelectOutputItem × Bytes) × SelectOutputItem) (source : Bytes × ℕ)
      (sum : GroupedSum)
      → grouped_sum trim lower ci_equals sql group_pos found source ≡ breaks sum
      → (sum.sum_alias ≡ found.0.0.name) × (sum.sum_col ≡ last_identifier_part trim found.0.1)
  unfolding grouped_sum
  grouped_sum-alias group_pos ((item, arg), group_item) (source, source_pos) sum h =
      let same = else_breaks _ _ _ h in
      (
        ap (λ (u : GroupedSum). u.sum_alias) (sym same),
        ap (λ (u : GroupedSum). u.sum_col) (sym same),
      )

  try_items-IsItem :
      (from_pos group_pos : ℕ) (parsed : Option (List SelectOutputItem)) (sum : GroupedSum)
      → try_items trim lower ci_equals sql from_pos group_pos parsed ≡ breaks sum
      → (items : List SelectOutputItem) × (parsed ≡ some items)
        × (item : SelectOutputItem) × (arg : Bytes) × IsItem items item arg
        × (sum.sum_alias ≡ item.name)
        × (sum.sum_col ≡ last_identifier_part trim arg)
  unfolding try_items
  try_items-IsItem from_pos group_pos none sum h = cc
  try_items-IsItem from_pos group_pos (some items) sum h =
      let (found, is_found, rest) =
        step_of (sum_and_group trim lower ci_equals items)
          (λ found. elim (read_identifier_token sql (from_pos + 4)) [
            | none ↦ returns_false
            | some source ↦ grouped_sum trim lower ci_equals sql group_pos found source
          ])
          goes_on sum (λ k. cc) h in
      let (source, is_source, rest) =
        step_of (read_identifier_token sql (from_pos + 4))
          (λ source. grouped_sum trim lower ci_equals sql group_pos found source) returns_false sum
          (λ k. cc) rest in
      let (alias, col) = grouped_sum-alias group_pos found source sum rest in
      (items, refl, found.0.0, found.0.1, sum_and_group-sum items found is_found, alias, col)

  try_select-IsSum :
      (select_pos : ℕ) (sum : GroupedSum)
      → Stands (lower sql) (codes "select") select_pos
      → try_select trim lower ci_equals sql select_pos ≡ breaks sum
      → IsSum sum
  unfolding try_select
  try_select-IsSum select_pos sum stands h =
      let (from_pos, is_from, rest) =
        step_of (find_top_level_keyword_token (lower sql) (codes "from") (select_pos + 6))
          (λ from_pos. elim (find_top_level_keyword_token (lower sql) (codes "group") from_pos) [
            | none ↦ goes_on
            | some group_pos ↦
                try_items trim lower ci_equals sql from_pos group_pos
                  (parse_select_output_items trim lower sql select_pos from_pos)
          ])
          goes_on sum (λ k. cc) h in
      let (group_pos, is_group, rest) =
        step_of (find_top_level_keyword_token (lower sql) (codes "group") from_pos)
          (λ group_pos.
            try_items trim lower ci_equals sql from_pos group_pos
              (parse_select_output_items trim lower sql select_pos from_pos))
          goes_on sum (λ k. cc) rest in
      let (items, parsed, item, arg, is_item, alias, col) =
        try_items-IsItem from_pos group_pos
          (parse_select_output_items trim lower sql select_pos from_pos) sum rest in
      (select_pos, from_pos, stands, is_from, items, parsed, item, arg, is_item, alias, col)

  pub select_loop-IsSum :
      (selects : List ℕ) (sum : GroupedSum)
      → All (Stands (lower sql) (codes "select")) selects
      → select_loop trim lower ci_equals sql selects ≡ some sum
      → IsSum sum
  unfolding select_loop
  select_loop-IsSum [] sum stand h = cc
  select_loop-IsSum (p ∷ ps) sum (here, stand) h =
      first_break (try_select trim lower ci_equals sql p) (select_loop trim lower ci_equals sql ps)
        sum (IsSum sum) h (try_select-IsSum p sum here) (select_loop-IsSum ps sum stand)
