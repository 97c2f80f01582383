-- ===== src/Extract/Exists.antt =====
-- src/core/parser_sql_extractors.cpp: `ExtractExistsSubquery`, for a query
-- `SELECT cols FROM l WHERE [NOT] EXISTS (SELECT ... FROM r WHERE p)`. As for a semi join, what a failed
-- extraction leaves in the caller's record is not modelled.
use openivm.Base.{
  ℕ, ◌+◌, Bool, true, false, ◌||◌, List, [], ◌∷◌, ◌++◌, Option, none, some, Bytes, codes, ltb, leb,
  length, drop, is_empty, if◌then◌else◌,
}
use openivm.Classifier.Reasons.{is_set}
use openivm.Extract.Chars.{contains_char}
use openivm.Extract.Keywords.{find_keyword_token}
use openivm.Extract.Parens.{find_top_level_keyword_token, find_matching_paren}
use openivm.Extract.Tokens.{between, spaces, trim_and_conjunctions}
use openivm.Extract.Select.{parse_select_output_columns}
use openivm.Extract.SemiAnti.{SemiAntiExtract, TableRef, JoinKeyword, read_table}

-- NOT EXISTS wins, unless an EXISTS stands before it.
unfoldable pub subquery_keyword : Option ℕ → Option ℕ → Option JoinKeyword
subquery_keyword (some negated) none = some (record { is_semi = false; position = negated })
subquery_keyword (some negated) (some plain) =
    if ltb plain negated then none else some (record { is_semi = false; position = negated })
subquery_keyword none (some plain) = some (record { is_semi = true; position = plain })
subquery_keyword none none = none

-- The least of a position and those of the keywords of the query itself that are found behind another.
unfoldable pub first_top_keyword : Bytes → List Bytes → ℕ → ℕ → ℕ
unfolding find_top_level_keyword_token
first_top_keyword lower [] from end = end
first_top_keyword lower (k ∷ ks) from end =
    let rest = first_top_keyword lower ks from end in
    elim (find_top_level_keyword_token lower k from) [
      | none ↦ rest
      | some pos ↦ if ltb pos rest then pos else rest
    ]

-- Whether more than one table stands in the text.
unfoldable pub joins : Bytes → Bool
unfolding find_keyword_token contains_char
joins text = is_set (find_keyword_token text (codes "join") 0) || contains_char 44 text

module _ (trim lower : Bytes → Bytes) where
  -- SELECT and the FROM behind it.
  unfoldable pub select_and_from : Bytes → Option (ℕ × ℕ)
  unfolding find_keyword_token find_top_level_keyword_token
  select_and_from text = elim (find_keyword_token text (codes "select") 0) [
    | none ↦ none
    | some select_pos ↦ elim (find_top_level_keyword_token text (codes "from") select_pos) [
      | none ↦ none
      | some from_pos ↦ if leb select_pos from_pos then some (select_pos, from_pos) else none
    ]
  ]

  -- The condition of the subquery, which holds of every row if there is no WHERE.
  unfoldable pub sub_predicate : Bytes → Option ℕ → Bytes
  unfolding first_top_keyword between
  sub_predicate subquery none = codes "true"
  sub_predicate subquery (some sub_where) =
      let start = sub_where + 5 in
      trim (
        between subquery start (
          first_top_keyword (lower subquery)
            (codes "group" ∷ codes "order" ∷ codes "limit" ∷ codes "union" ∷ []) start
            (length subquery)))

  unfoldable pub end_of_tables : Bytes → Option ℕ → ℕ
  end_of_tables subquery none = length (lower subquery)
  end_of_tables subquery (some sub_where) = sub_where

  -- The condition of the subquery of one table.
  unfoldable pub with_right : Bytes → TableRef → Option (TableRef × Bytes)
  unfolding find_top_level_keyword_token joins between end_of_tables sub_predicate
  with_right subquery right =
      let sub_where = find_top_level_keyword_token (lower subquery) (codes "where") right.behind in
      let predicate = sub_predicate subquery sub_where in
      if joins (between (lower subquery) right.behind (end_of_tables subquery sub_where))
        || is_empty predicate
      then none
      else some (right, predicate)

  unfoldable pub read_right : Bytes → ℕ × ℕ → Option (TableRef × Bytes)
  unfolding read_table with_right
  read_right subquery (sub_select, sub_from) =
      elim (read_table trim lower subquery (sub_from + 4)
        (codes "where" ∷ codes "group" ∷ codes "order" ∷ codes "limit" ∷ [])) [
          | none ↦ none
          | some right ↦ with_right subquery right
        ]

  -- The table of the subquery and its condition.
  unfoldable pub read_subquery : Bytes → Option (TableRef × Bytes)
  unfolding select_and_from read_right
  read_subquery subquery = elim (select_and_from (lower subquery)) [
    | none ↦ none
    | some positions ↦ read_right subquery positions
  ]

  -- What is extracted, with the rest of the condition around the keyword and the subquery.
  unfoldable pub semi_anti_of :
      Bytes
      → List Bytes × List Bytes
      → TableRef
      → ℕ
      → JoinKeyword
      → ℕ
      → TableRef × Bytes
      → SemiAntiExtract
  unfolding trim_and_conjunctions between
  semi_anti_of sql (names, exprs) left where_pos key close_pos (right, predicate) = record {
    join_type = if key.is_semi then codes "semi" else codes "anti";
    left_table = left.table;
    left_alias = left.alias;
    right_table = right.table;
    right_alias = right.alias;
    predicate = predicate;
    post_filter =
        trim_and_conjunctions trim lower
          (between sql (where_pos + 5) key.position ++ drop (close_pos + 1) sql);
    output_cols = names;
    output_exprs = exprs;
  }

  unfoldable pub in_parens :
      Bytes → List Bytes × List Bytes → TableRef → ℕ → JoinKeyword → ℕ → ℕ → Option SemiAntiExtract
  unfolding read_subquery semi_anti_of between
  in_parens sql outputs left where_pos key after_exists close_pos =
      elim (read_subquery (between sql (after_exists + 1) close_pos)) [
        | none ↦ none
        | some found ↦ some (semi_anti_of sql outputs left where_pos key close_pos found)
      ]

  -- From the keyword on: the subquery in parentheses.
  unfoldable pub with_subquery :
      Bytes → List Bytes × List Bytes → TableRef → ℕ → JoinKeyword → Option SemiAntiExtract
  unfolding find_matching_paren spaces in_parens
  with_subquery sql outputs left where_pos key =
      let behind = key.position + (if key.is_semi then 6 else 10) in
      let after_exists = behind + spaces (drop behind sql) in
      elim (find_matching_paren sql after_exists) [
        | none ↦ none
        | some close_pos ↦ in_parens sql outputs left where_pos key after_exists close_pos
      ]

  unfoldable pub with_where :
      Bytes → List Bytes × List Bytes → TableRef → ℕ → Option SemiAntiExtract
  unfolding find_top_level_keyword_token joins between subquery_keyword with_subquery
  with_where sql outputs left where_pos =
      if joins (lower (between sql left.behind where_pos))
      then none
      else elim (subquery_keyword
          (find_top_level_keyword_token (lower sql) (codes "not exists") where_pos)
          (find_top_level_keyword_token (lower sql) (codes "exists") where_pos)) [
            | none ↦ none
            | some key ↦ with_subquery sql outputs left where_pos key
          ]

  -- One table in front of WHERE, and one keyword behind it.
  unfoldable pub with_left_table :
      Bytes → List Bytes × List Bytes → TableRef → Option SemiAntiExtract
  unfolding find_top_level_keyword_token with_where
  with_left_table sql outputs left =
      elim (find_top_level_keyword_token (lower sql) (codes "where") left.behind) [
        | none ↦ none
        | some where_pos ↦ with_where sql outputs left where_pos
      ]

  unfoldable pub with_columns : Bytes → ℕ × ℕ → Option SemiAntiExtract
  unfolding parse_select_output_columns read_table with_left_table
  with_columns sql (select_pos, from_pos) =
      elim (parse_select_output_columns trim lower sql select_pos from_pos) [
        | none ↦ none
        | some outputs ↦ elim (read_table trim lower sql (from_pos + 4) (codes "where" ∷ [])) [
          | none ↦ none
          | some left ↦ with_left_table sql outputs left
        ]
      ]

  -- `ExtractExistsSubquery`
  unfoldable pub extract_exists_subquery : Bytes → Option SemiAntiExtract
  unfolding select_and_from with_columns
  extract_exists_subquery sql = elim (select_and_from (lower sql)) [
    | none ↦ none
    | some positions ↦ with_columns sql positions
  ]
