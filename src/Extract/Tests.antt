-- ===== src/Extract/Tests.antt =====
-- Texts as src/core/parser_sql_extractors.cpp reads them. Here trimming takes blanks off both ends, and the
-- texts are in lower case.
use openivm.Base.{
  ◌≡◌, refl, ◌+◌, true, false, is_empty, ◌&&◌, [], ◌∷◌, ◌++◌, some, Bytes, bytes_eq, codes, ◌==◌,
  if◌then◌else◌,
}
use openivm.Classifier.Reasons.{is_set}
use openivm.Sql.Json.{after_prefix, after_first}
use openivm.Extract.Chars.{
  open_paren, close_paren, shift_by, contains_char, is_space, is_alnum, is_digit,
  is_identifier_token_char,
}
use openivm.Extract.Keywords.{
  find_keyword_token, token_at, before_position, find_from, next_mode, compares, ok_left, ok_right,
  starts_keyword_token, starts_any_keyword_token,
}
use openivm.Extract.KeywordLaws
use openivm.Extract.Parens.{
  find_matching_paren, find_top_level_keyword_token, scan_from, closes, is_top_keyword, next_depth,
  starts_with_open, find_clause_end, clause_end_from, clause_ends, clause_mode, clause_depth,
}
use openivm.Extract.ParenLaws
use openivm.Extract.ParenLaws.{Nested, nothing, ordinary, literal, group}
use openivm.Extract.Tokens.{
  read_identifier_token, is_zero_sql_literal, bare_literal, between, spaces, token_length,
  first_prefix, last_identifier_part, behind_last_dot, is_enclosed, last_char, find_char,
  trim_and_conjunctions, starts_with_and, ends_with_and,
}
use openivm.Extract.TokenLaws
use openivm.Extract.TokenLaws.{Token}
use openivm.Extract.Select.{
  parse_select_output_items, parse_pieces, parse_item, comma_pieces, add_char, add_item,
  checked_item,
}
use openivm.Extract.Filtered.{extract_filtered_group_count}
use openivm.Extract.FilteredLaws
use openivm.Extract.Select.{parse_select_output_columns}
use openivm.Extract.SemiAnti.{
  SemiAntiExtract, extract_semi_anti_join, one_keyword, with_join, with_outputs, with_left,
  with_predicate, read_table, table_with_alias, is_one_of, post_filter_of, first_keyword,
}
use openivm.Extract.SemiAntiLaws
use openivm.Extract.Compares
use openivm.Extract.Filtered.{FilteredGroupCountExtract}
use openivm.Extract.Exists.{
  extract_exists_subquery, subquery_keyword, first_top_keyword, joins, select_and_from,
  sub_predicate, end_of_tables, read_subquery, with_subquery, with_left_table, with_right,
  read_right, semi_anti_of, in_parens, with_where, with_columns,
}

skip_blanks : Bytes → Bytes
skip_blanks [] = []
skip_blanks (c ∷ s) = if c == 32 then skip_blanks s else c ∷ s

reversed : Bytes → Bytes → Bytes
reversed [] found = found
reversed (c ∷ s) found = reversed s (c ∷ found)

abbrev trim_blanks : Bytes → Bytes
unfolding skip_blanks reversed
trim_blanks text = reversed (skip_blanks (reversed (skip_blanks text) [])) []

abbrev unchanged : Bytes → Bytes
unchanged text = text

abbrev view_sql : Bytes
view_sql = codes "select count(*) from (select k, sum(v) as t from b group by k) where t > 0"

abbrev filtered_extract : FilteredGroupCountExtract
filtered_extract = record {
  source = codes "b";
  group_col = codes "k";
  sum_col = codes "v";
  sum_alias = codes "t";
  output_col = codes "n";
  comparison_op = codes ">";
  threshold_sql = codes "0";
}

extract_filtered_group_count-total_example :
    is_set (extract_filtered_group_count trim_blanks unchanged bytes_eq view_sql (codes "n" ∷ []))
    ≡ true
extract_filtered_group_count-total_example =
    FilteredLaws.extract_filtered_group_count-total trim_blanks unchanged bytes_eq view_sql
      (codes "n" ∷ [])

-- a(b')')
find_matching_paren-Nested_example :
    find_matching_paren (codes "a" ++ (open_paren ∷ (codes "b')'" ++ (close_paren ∷ codes " c")))) 1
    ≡ some (1 + 5)
find_matching_paren-Nested_example =
    ParenLaws.find_matching_paren-Nested (codes "a") (codes "b')'") (codes " c")
      (ordinary refl (literal (codes ")") (unfold contains_char in refl) nothing))

find_top_level_keyword_token-Nested_example :
    find_top_level_keyword_token
      (open_paren ∷ (codes "a from b" ++ (close_paren ∷ codes " from c")))
      (codes "from")
      0
    ≡ shift_by (8 + 2) (find_top_level_keyword_token (codes " from c") (codes "from") 0)
find_top_level_keyword_token-Nested_example =
    ParenLaws.find_top_level_keyword_token-Nested (codes "from") (codes "a from b")
      (codes " from c")
      (ordinary refl (
        ordinary refl (
          ordinary refl (
            ordinary refl
              (ordinary refl (ordinary refl (ordinary refl (ordinary refl nothing))))))))

a_dot_b : Token (codes "a.b")
unfolding is_alnum is_digit
a_dot_b = Token.plain refl (Token.plain refl (Token.plain refl Token.nothing))

blank_stops : TokenLaws.stops (codes " y") ≡ true
unfolding is_alnum is_digit
blank_stops = refl

read_identifier_token-Token_example :
    read_identifier_token (codes "x " ++ (codes "a.b" ++ codes " y")) 2 ≡ some (codes "a.b", 2 + 3)
read_identifier_token-Token_example =
    TokenLaws.read_identifier_token-Token (codes "x ") (codes "a.b") (codes " y") a_dot_b refl
      blank_stops

is_zero_sql_literal-only_zeros_example : is_zero_sql_literal trim_blanks (codes "(-0.0)") ≡ (
    TokenLaws.only_zeros (bare_literal trim_blanks (codes "(-0.0)"))
    && contains_char 48 (bare_literal trim_blanks (codes "(-0.0)")))
is_zero_sql_literal-only_zeros_example =
    TokenLaws.is_zero_sql_literal-only_zeros trim_blanks (codes "(-0.0)")

abbrev anti_sql : Bytes
anti_sql = codes "select k from l where k > 1 and not exists (select 1 from r q where q.k = l.k)"

abbrev anti_extract : SemiAntiExtract
anti_extract = record {
  join_type = codes "anti";
  left_table = codes "l";
  left_alias = codes "l";
  right_table = codes "r";
  right_alias = codes "q";
  predicate = codes "q.k = l.k";
  post_filter = codes "k > 1";
  output_cols = codes "k" ∷ [];
  output_exprs = codes "k" ∷ [];
}

anti_extracted : extract_exists_subquery trim_blanks unchanged anti_sql ≡ some anti_extract
unfolding extract_exists_subquery subquery_keyword first_top_keyword joins starts_with_and
    ends_with_and trim_and_conjunctions select_and_from sub_predicate end_of_tables read_subquery
    with_subquery with_left_table with_right read_right semi_anti_of in_parens with_where
    with_columns read_table table_with_alias is_one_of parse_select_output_columns
    find_keyword_token find_from next_mode compares token_at ok_left ok_right before_position
    is_space is_alnum is_digit is_identifier_token_char contains_char starts_keyword_token
    starts_any_keyword_token find_top_level_keyword_token scan_from is_top_keyword next_depth
    find_matching_paren closes starts_with_open find_clause_end clause_end_from clause_ends
    clause_mode clause_depth between spaces token_length read_identifier_token first_prefix
    last_identifier_part behind_last_dot is_enclosed last_char after_prefix after_first find_char
    parse_select_output_items parse_pieces parse_item comma_pieces add_char add_item checked_item
    trim_blanks
anti_extracted = refl

abbrev semi_sql : Bytes
semi_sql = codes "select k from l as_l semi join r on as_l.k = r.k where k > 1"

abbrev semi_extract : SemiAntiExtract
semi_extract = record {
  join_type = codes "semi";
  left_table = codes "l";
  left_alias = codes "as_l";
  right_table = codes "r";
  right_alias = codes "r";
  predicate = codes "as_l.k = r.k";
  post_filter = codes "k > 1";
  output_cols = codes "k" ∷ [];
  output_exprs = codes "k" ∷ [];
}

semi_extracted : extract_semi_anti_join trim_blanks unchanged semi_sql ≡ some semi_extract
unfolding extract_semi_anti_join one_keyword with_join with_outputs with_left with_predicate
    read_table table_with_alias is_one_of post_filter_of first_keyword parse_select_output_columns
    find_keyword_token find_from next_mode compares token_at ok_left ok_right before_position
    is_space is_alnum is_digit is_identifier_token_char contains_char starts_keyword_token
    starts_any_keyword_token find_top_level_keyword_token scan_from is_top_keyword next_depth
    find_matching_paren closes starts_with_open find_clause_end clause_end_from clause_ends
    clause_mode clause_depth between spaces token_length read_identifier_token first_prefix
    last_identifier_part behind_last_dot is_enclosed last_char after_prefix after_first find_char
    parse_select_output_items parse_pieces parse_item comma_pieces add_char add_item checked_item
    trim_blanks
semi_extracted = refl

extract_semi_anti_join-type_example :
    (is_set (find_keyword_token semi_sql (codes "semi join") 0)
      ≡ bytes_eq semi_extract.join_type (codes "semi"))
    × (is_set (find_keyword_token semi_sql (codes "anti join") 0)
        ≡ bytes_eq semi_extract.join_type (codes "anti"))
    × (is_empty semi_extract.predicate ≡ false)
extract_semi_anti_join-type_example =
    SemiAntiLaws.extract_semi_anti_join-type trim_blanks unchanged semi_sql semi_extract
      semi_extracted

-- The word AS is taken for the alias.
alias_after_as :
    read_table trim_blanks unchanged (codes "r as q") 0 (codes "where" ∷ [])
    ≡ some (record { table = codes "r"; alias = codes "as"; behind = 4 })
unfolding read_table table_with_alias is_one_of read_identifier_token spaces token_length is_space
    is_alnum is_digit last_identifier_part behind_last_dot is_enclosed last_char trim_blanks
alias_after_as = refl

-- NOT and EXISTS with two blanks between them are taken for a semi join.
not_exists_with_two_blanks :
    subquery_keyword
      (find_top_level_keyword_token (codes "where not  exists (b)") (codes "not exists") 0)
      (find_top_level_keyword_token (codes "where not  exists (b)") (codes "exists") 0)
    ≡ some (record { is_semi = true; position = 11 })
unfolding subquery_keyword find_top_level_keyword_token scan_from is_top_keyword next_depth token_at
    ok_left ok_right before_position is_space is_alnum is_digit is_identifier_token_char
    starts_keyword_token starts_any_keyword_token
not_exists_with_two_blanks = refl
