-- ===== src/Extract/Filtered.antt =====
-- src/core/parser_sql_extractors.cpp: `ExtractFilteredGroupCount`, which looks for a count over a grouped sum
-- that is compared with zero. The caller's record is empty. The loops over the positions of a keyword
-- are loops over the list of these positions.
use openivm.Base.{
  ℕ, zero, suc, ◌+◌, Bool, ◌&&◌, ◌||◌, not, List, [], ◌∷◌, Option, none, some, Bytes, bytes_eq,
  codes, length, drop, is_empty, if◌then◌else◌,
}
use openivm.Classifier.Reasons.{is_set}
use openivm.Sql.Json.{after_first}
use openivm.Extract.Chars.{contains_char}
use openivm.Extract.Keywords.{find_keyword_token, starts_keyword_token}
use openivm.Extract.Parens.{find_top_level_keyword_token, find_clause_end}
use openivm.Extract.Tokens.{
  between, spaces, read_identifier_token, read_comparison_op, last_identifier_part,
  is_zero_sql_literal, parse_sum_call,
}
use openivm.Extract.Select.{SelectOutputItem, parse_select_output_items}

pub record FilteredGroupCountExtract : Type 0 where
  pub source : Bytes
  pub group_col : Bytes
  pub sum_col : Bytes
  pub sum_alias : Bytes
  pub output_col : Bytes
  pub comparison_op : Bytes
  pub threshold_sql : Bytes

-- What the first loop finds.
pub record GroupedSum : Type 0 where
  pub source : Bytes
  pub group_col : Bytes
  pub sum_col : Bytes
  pub sum_alias : Bytes

-- How a turn of the first loop ends: on with the next position, `return false`, or `break`.
pub data SelectStep : Type 0 where
  goes_on returns_false : SelectStep
  breaks : GroupedSum → SelectStep

-- What the second loop finds.
pub record Threshold : Type 0 where
  pub comparison_op : Bytes
  pub threshold_sql : Bytes

unfoldable pub add_position : ℕ → Option (List ℕ) → Option (List ℕ)
add_position p none = none
add_position p (some ps) = some (p ∷ ps)

-- The positions that the loop `while (pos != npos)` goes through, each search starting behind the
-- keyword that the last one found; without fuel it is not done.
unfoldable pub keyword_positions : ℕ → Bytes → Bytes → ℕ → Option (List ℕ)
unfolding find_keyword_token add_position
keyword_positions zero text keyword from = none
keyword_positions (suc fuel) text keyword from = elim (find_keyword_token text keyword from) [
  | none ↦ some []
  | some p ↦ add_position p (keyword_positions fuel text keyword (p + length keyword))
]

-- Both loops have their positions, or one ran out of fuel.
unfoldable pub with_positions :
    {R : Type 0} → Option (List ℕ) → Option (List ℕ) → (List ℕ → List ℕ → R) → Option R
with_positions (some selects) (some wheres) f = some (f selects wheres)
with_positions _ _ f = none

module _ (trim lower : Bytes → Bytes) (ci_equals : Bytes → Bytes → Bool) where
  -- The item that is a sum, with its argument, and the one that is not.
  unfoldable pub sum_and_group :
      List SelectOutputItem → Option ((SelectOutputItem × Bytes) × SelectOutputItem)
  unfolding parse_sum_call
  sum_and_group (a ∷ b ∷ []) = elim (parse_sum_call trim lower a.expr) [
    | none ↦ elim (parse_sum_call trim lower b.expr) [ none ↦ none | some arg ↦ some ((b, arg), a) ]
    | some arg ↦ elim (parse_sum_call trim lower b.expr) [
      | none ↦ some ((a, arg), b)
      | some other ↦ none
    ]
  ]
  sum_and_group _ = none

  -- From the source behind FROM to the GROUP BY column.
  unfoldable pub grouped_sum :
      Bytes → ℕ → (SelectOutputItem × Bytes) × SelectOutputItem → Bytes × ℕ → SelectStep
  unfolding last_identifier_part between spaces starts_keyword_token find_clause_end
      find_keyword_token contains_char
  grouped_sum sql group_pos ((sum_item, sum_arg), group_item) (source, source_pos) =
      let text = lower sql in
      let source_tail = trim (between sql source_pos group_pos) in
      let by_pos = group_pos + 5 + spaces (drop (group_pos + 5) text) in
      let group_by_expr = trim (between sql (by_pos + 2) (find_clause_end text (by_pos + 2))) in
      let group_col = last_identifier_part trim group_item.expr in
      if contains_char 44 source_tail
        || is_set (find_keyword_token (lower source_tail) (codes "join") 0)
        || not (starts_keyword_token (drop by_pos text) (codes "by"))
        || contains_char 44 group_by_expr
        || not (ci_equals (last_identifier_part trim group_by_expr) group_col)
      then returns_false
      else breaks (record {
        source = source;
        group_col = group_col;
        sum_col = last_identifier_part trim sum_arg;
        sum_alias = sum_item.name;
      })

  -- The items of a SELECT whose FROM and GROUP are found.
  unfoldable pub try_items : Bytes → ℕ → ℕ → Option (List SelectOutputItem) → SelectStep
  unfolding sum_and_group grouped_sum read_identifier_token
  try_items sql from_pos group_pos none = goes_on
  try_items sql from_pos group_pos (some items) = elim (sum_and_group items) [
    | none ↦ goes_on
    | some found ↦ elim (read_identifier_token sql (from_pos + 4)) [
      | none ↦ returns_false
      | some source ↦ grouped_sum sql group_pos found source
    ]
  ]

  -- One turn of the first loop.
  unfoldable pub try_select : Bytes → ℕ → SelectStep
  unfolding try_items find_top_level_keyword_token parse_select_output_items
  try_select sql select_pos =
      elim (find_top_level_keyword_token (lower sql) (codes "from") (select_pos + 6)) [
        | none ↦ goes_on
        | some from_pos ↦ elim (find_top_level_keyword_token (lower sql) (codes "group") from_pos) [
          | none ↦ goes_on
          | some group_pos ↦
              try_items sql from_pos group_pos
                (parse_select_output_items trim lower sql select_pos from_pos)
        ]
      ]

  unfoldable pub select_loop : Bytes → List ℕ → Option GroupedSum
  unfolding try_select
  select_loop sql [] = none
  select_loop sql (p ∷ ps) =
      let later = select_loop sql ps in
      elim (try_select sql p) [ goes_on ↦ later | returns_false ↦ none | breaks sum ↦ some sum ]

  -- One turn of the second loop.
  unfoldable pub try_where : Bytes → Bytes → ℕ → Option Threshold
  unfolding read_identifier_token read_comparison_op last_identifier_part find_clause_end between
  try_where sql sum_alias where_pos = elim (read_identifier_token sql (where_pos + 5)) [
    | none ↦ none
    | some (lhs, behind) ↦
        if ci_equals (last_identifier_part trim lhs) sum_alias
        then elim (read_comparison_op sql behind) [
          | none ↦ none
          | some (op, pos) ↦ some (record {
            comparison_op = op;
            threshold_sql = trim (between sql pos (find_clause_end (lower sql) pos));
          })
        ]
        else none
  ]

  unfoldable pub where_loop : Bytes → Bytes → List ℕ → Option Threshold
  unfolding try_where
  where_loop sql sum_alias [] = none
  where_loop sql sum_alias (p ∷ ps) =
      let later = where_loop sql sum_alias ps in
      elim (try_where sql sum_alias p) [ none ↦ later | some t ↦ some t ]

  -- The checks on what the loops found.
  unfoldable pub finish : Bytes → GroupedSum → Threshold → Option FilteredGroupCountExtract
  unfolding is_zero_sql_literal
  finish output_col sum t =
      if is_empty t.comparison_op
        || is_empty t.threshold_sql
        || (not (bytes_eq t.comparison_op (codes "<"))
            && not (bytes_eq t.comparison_op (codes ">")))
        || not (is_zero_sql_literal trim t.threshold_sql)
        || is_empty output_col
      then none
      else some (record {
        source = sum.source;
        group_col = sum.group_col;
        sum_col = sum.sum_col;
        sum_alias = sum.sum_alias;
        output_col = output_col;
        comparison_op = t.comparison_op;
        threshold_sql = t.threshold_sql;
      })

  unfoldable pub where_part : Bytes → Bytes → GroupedSum → List ℕ → Option FilteredGroupCountExtract
  unfolding where_loop finish
  where_part sql output_col sum wheres =
      if is_empty sum.source
        || is_empty sum.group_col
        || is_empty sum.sum_col
        || is_empty sum.sum_alias
      then none
      else elim (where_loop sql sum.sum_alias wheres) [
        | none ↦ none
        | some t ↦ finish output_col sum t
      ]

  -- Both loops over the positions of their keywords.
  unfoldable pub extract_with : Bytes → Bytes → List ℕ → List ℕ → Option FilteredGroupCountExtract
  unfolding select_loop where_part
  extract_with sql output_col selects wheres = elim (select_loop sql selects) [
    | none ↦ none
    | some sum ↦ where_part sql output_col sum wheres
  ]

  unfoldable pub counts_rows : Bytes → Bool
  unfolding after_first
  counts_rows text =
      is_set (after_first (codes "count(*)") text)
      || is_set (after_first (codes "count_star()") text)

  -- `ExtractFilteredGroupCount`; a loop over a text passes at most one position for each of its
  -- characters. The outer `none` is a loop that ran out of fuel, the inner one `return false`.
  unfoldable pub extract_filtered_group_count :
      Bytes → List Bytes → Option (Option FilteredGroupCountExtract)
  unfolding extract_with counts_rows keyword_positions with_positions
  extract_filtered_group_count sql (output_col ∷ []) =
      let text = lower sql in
      let fuel = suc (length text) in
      if counts_rows text
      then with_positions (keyword_positions fuel text (codes "select") 0)
          (keyword_positions fuel text (codes "where") 0) (extract_with sql output_col)
      else some none
  extract_filtered_group_count sql _ = some none
