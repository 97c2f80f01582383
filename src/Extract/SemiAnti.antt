-- ===== src/Extract/SemiAnti.antt =====
-- src/core/parser_sql_extractors.cpp: `ExtractSemiAntiJoin`, for `SELECT cols FROM l SEMI|ANTI JOIN r ON p`.
-- What a failed extraction leaves in the caller's record is not modelled; the record is empty before.
use openivm.Base.{
  ℕ, ◌+◌, Bool, true, false, ◌&&◌, ◌||◌, List, [], ◌∷◌, Option, none, some, Bytes, bytes_eq, codes,
  ltb, leb, length, is_empty, if◌then◌else◌,
}
use openivm.Classifier.Reasons.{is_set}
use openivm.Extract.Chars.{contains_char}
use openivm.Extract.Keywords.{find_keyword_token}
use openivm.Extract.Tokens.{between, read_identifier_token, last_identifier_part}
use openivm.Extract.Select.{parse_select_output_columns}

pub record SemiAntiExtract : Type 0 where
  pub join_type : Bytes
  pub left_table : Bytes
  pub left_alias : Bytes
  pub right_table : Bytes
  pub right_alias : Bytes
  pub predicate : Bytes
  pub post_filter : Bytes
  pub output_cols : List Bytes
  pub output_exprs : List Bytes

-- A table, its alias and the position behind them.
pub record TableRef : Type 0 where
  pub table : Bytes
  pub alias : Bytes
  pub behind : ℕ

-- The keyword of the join and its position.
pub record JoinKeyword : Type 0 where
  pub is_semi : Bool
  pub position : ℕ

-- One of "semi join" and "anti join" is there, but not both.
unfoldable pub one_keyword : Option ℕ → Option ℕ → Option JoinKeyword
one_keyword (some semi) (some anti) = none
one_keyword (some semi) none = some (record { is_semi = true; position = semi })
one_keyword none (some anti) = some (record { is_semi = false; position = anti })
one_keyword none none = none

-- The least of a position and those of the keywords that are found behind another.
unfoldable pub first_keyword : Bytes → List Bytes → ℕ → ℕ → ℕ
unfolding find_keyword_token
first_keyword lower [] from end = end
first_keyword lower (k ∷ ks) from end =
    let rest = first_keyword lower ks from end in
    elim (find_keyword_token lower k from) [
      | none ↦ rest
      | some pos ↦ if ltb pos rest then pos else rest
    ]

module _ (trim lower : Bytes → Bytes) where
  unfoldable pub is_one_of : Bytes → List Bytes → Bool
  is_one_of word [] = false
  is_one_of word (w ∷ ws) = bytes_eq word w || is_one_of word ws

  unfoldable pub table_with_alias : Bytes → ℕ → List Bytes → Option (Bytes × ℕ) → TableRef
  unfolding is_one_of last_identifier_part
  table_with_alias table behind keywords none = record {
    table = table;
    alias = last_identifier_part trim table;
    behind = behind;
  }
  table_with_alias table behind keywords (some (word, alias_end)) =
      if is_one_of (lower word) keywords
      then record { table = table; alias = last_identifier_part trim table; behind = behind }
      else record { table = table; alias = word; behind = alias_end }

  -- A table and the word behind it, which is its alias unless it is one of the keywords.
  unfoldable pub read_table : Bytes → ℕ → List Bytes → Option TableRef
  unfolding table_with_alias read_identifier_token
  read_table sql pos keywords = elim (read_identifier_token sql pos) [
    | none ↦ none
    | some (table, behind) ↦
        some (table_with_alias table behind keywords (read_identifier_token sql behind))
  ]

  -- The text of WHERE, up to the next clause.
  unfoldable pub post_filter_of : Bytes → Option ℕ → Bytes
  unfolding first_keyword between
  post_filter_of sql none = []
  post_filter_of sql (some where_pos) = trim (
      between sql (where_pos + 5) (
        first_keyword (lower sql)
          (codes "group" ∷ codes "order" ∷ codes "limit" ∷ codes "union" ∷ []) (where_pos + 5)
          (length sql)))

  -- What follows ON; an empty predicate fails.
  unfoldable pub with_predicate :
      Bytes
      → JoinKeyword
      → List Bytes × List Bytes
      → TableRef
      → TableRef
      → ℕ
      → Option SemiAntiExtract
  unfolding post_filter_of first_keyword between find_keyword_token
  with_predicate sql key (names, exprs) left right on_pos =
      let start = on_pos + 2 in
      let end =
        first_keyword (lower sql)
          (codes "where" ∷ codes "group" ∷ codes "order" ∷ codes "limit" ∷ codes "union" ∷ []) start
          (length sql) in
      let predicate = trim (between sql start end) in
      if is_empty predicate
      then none
      else some (record {
        join_type = if key.is_semi then codes "semi" else codes "anti";
        left_table = left.table;
        left_alias = left.alias;
        right_table = right.table;
        right_alias = right.alias;
        predicate = predicate;
        post_filter = post_filter_of sql (find_keyword_token (lower sql) (codes "where") start);
        output_cols = names;
        output_exprs = exprs;
      })

  -- The right table, and ON behind it.
  unfoldable pub with_left :
      Bytes → JoinKeyword → List Bytes × List Bytes → TableRef → Option SemiAntiExtract
  unfolding read_table with_predicate between find_keyword_token contains_char
  with_left sql key outputs left =
      let gap = lower (between sql left.behind key.position) in
      if is_set (find_keyword_token gap (codes "join") 0) || contains_char 44 gap
      then none
      else elim (read_table sql (key.position + 9) (codes "on" ∷ [])) [
        | none ↦ none
        | some right ↦ elim (find_keyword_token (lower sql) (codes "on") right.behind) [
          | none ↦ none
          | some on_pos ↦ with_predicate sql key outputs left right on_pos
        ]
      ]

  unfoldable pub with_outputs :
      Bytes → JoinKeyword → ℕ → Option (List Bytes × List Bytes) → Option SemiAntiExtract
  unfolding read_table with_left
  with_outputs sql key from_pos none = none
  with_outputs sql key from_pos (some outputs) =
      elim (read_table sql (from_pos + 4) (codes "semi" ∷ codes "anti" ∷ [])) [
        | none ↦ none
        | some left ↦ with_left sql key outputs left
      ]

  -- SELECT stands before FROM, and FROM before the join.
  unfoldable pub with_join : Bytes → JoinKeyword → Option ℕ → Option ℕ → Option SemiAntiExtract
  unfolding with_outputs parse_select_output_columns
  with_join sql key none select_pos = none
  with_join sql key (some from_pos) none = none
  with_join sql key (some from_pos) (some select_pos) =
      if leb from_pos key.position && leb select_pos from_pos
      then with_outputs sql key from_pos
          (parse_select_output_columns trim lower sql select_pos from_pos)
      else none

  -- `ExtractSemiAntiJoin`
  unfoldable pub extract_semi_anti_join : Bytes → Option SemiAntiExtract
  unfolding one_keyword with_join find_keyword_token
  extract_semi_anti_join sql =
      let text = lower sql in
      elim (one_keyword (find_keyword_token text (codes "semi join") 0)
        (find_keyword_token text (codes "anti join") 0)) [
          | none ↦ none
          | some key ↦
              with_join sql key (find_keyword_token text (codes "from") 0)
                (find_keyword_token text (codes "select") 0)
        ]
