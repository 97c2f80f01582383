-- ===== src/Extract/Parens.antt =====
-- src/core/parser_sql_extractors.cpp: `FindTopLevelKeywordToken`, `FindMatchingParen` and `FindClauseEnd`.
-- The depth of FindMatchingParen is positive as long as its loop runs, so it is a natural number.
use openivm.Base.{
  ℕ, zero, suc, ◌+◌, ◌-◌, Bool, false, ◌&&◌, ◌||◌, not, List, [], ◌∷◌, Option, none, some, Bytes,
  codes, ◌==◌, leb, length, drop, if◌then◌else◌,
}
use openivm.Sql.Chars.{quote, double_quote}
use openivm.Sql.Split.{peek}
use openivm.Extract.Chars.{open_paren, close_paren, shift_by}
use openivm.Extract.Keywords.{
  QuoteMode, outside, in_string, in_identifier, in_identifier_pair, in_string_pair,
  starts_keyword_token, starts_any_keyword_token,
}

-- The flag `in_quote` after a character.
abbrev pub next_quote : Bool → ℕ → Bool
next_quote in_quote c = if in_quote then not (c == quote) else c == quote

-- The depth after a character; at depth 0 a closing parenthesis does nothing.
unfoldable pub next_depth : Bool → ℕ → ℕ → ℕ
next_depth in_quote depth c =
    if in_quote || (c == quote)
    then depth
    else if c == open_paren
    then suc depth
    else if c == close_paren
    then depth - 1
    else depth

-- The loop of `FindTopLevelKeywordToken` and `FindMatchingParen`, which differ in what they look for in
-- front of the text that is left.
unfoldable pub scan_from : (Bool → ℕ → Bytes → Bool) → Bool → ℕ → Bytes → Option ℕ
unfolding next_depth
scan_from test in_quote depth [] = none
scan_from test in_quote depth (c ∷ s) =
    let later = scan_from test (next_quote in_quote c) (next_depth in_quote depth c) s in
    if test in_quote depth (c ∷ s) then some 0 else shift_by 1 later

-- The loop compares the keyword only outside of strings and parentheses.
unfoldable pub is_top_keyword : Bytes → Bool → ℕ → Bytes → Bool
is_top_keyword keyword in_quote depth [] = false
is_top_keyword keyword in_quote depth (c ∷ s) =
    not in_quote
    && (depth == 0)
    && not (c == quote)
    && not (c == open_paren)
    && not (c == close_paren)
    && starts_keyword_token (c ∷ s) keyword

-- `FindTopLevelKeywordToken`
unfoldable pub find_top_level_keyword_token : Bytes → Bytes → ℕ → Option ℕ
unfolding scan_from is_top_keyword
find_top_level_keyword_token text keyword from =
    shift_by from (scan_from (is_top_keyword keyword) false 0 (drop from text))

-- The parenthesis that brings the depth to 0.
unfoldable pub closes : Bool → ℕ → Bytes → Bool
closes in_quote depth [] = false
closes in_quote depth (c ∷ s) = not in_quote && (depth == 1) && (c == close_paren)

unfoldable pub starts_with_open : Bytes → Bool
starts_with_open [] = false
starts_with_open (c ∷ s) = c == open_paren

-- `FindMatchingParen`
unfoldable pub find_matching_paren : Bytes → ℕ → Option ℕ
unfolding scan_from closes starts_with_open
find_matching_paren text open_pos =
    let rest = drop open_pos text in
    if starts_with_open rest then shift_by open_pos (scan_from closes false 0 rest) else none

abbrev pub clause_keywords : List Bytes
clause_keywords =
    codes "group" ∷ codes "having" ∷ codes "order" ∷ codes "limit" ∷ codes "union" ∷ []

-- Strings end at every quote here, and identifiers at a quote that is not doubled.
unfoldable pub clause_mode : QuoteMode → ℕ → ℕ → QuoteMode
clause_mode outside c next =
    if c == quote then in_string else if c == double_quote then in_identifier else outside
clause_mode in_string c next = if c == quote then outside else in_string
clause_mode in_string_pair c next = in_string
clause_mode in_identifier c next =
    if c == double_quote
    then (if next == double_quote then in_identifier_pair else outside)
    else in_identifier
clause_mode in_identifier_pair c next = in_identifier

unfoldable pub clause_depth : QuoteMode → ℕ → ℕ → ℕ
clause_depth outside depth c =
    if c == open_paren then suc depth else if c == close_paren then depth - 1 else depth
clause_depth _ depth c = depth

-- Whether the clause ends in front of the text.
unfoldable pub clause_ends : QuoteMode → ℕ → Bytes → Bool
clause_ends outside zero [] = false
clause_ends outside zero (c ∷ s) =
    not (c == quote)
    && not (c == double_quote)
    && not (c == open_paren)
    && ((c == close_paren) || (c == 44) || starts_any_keyword_token (c ∷ s) clause_keywords)
clause_ends _ depth text = false

-- The loop of `FindClauseEnd`; at the end of the text it returns the text's length.
unfoldable pub clause_end_from : QuoteMode → ℕ → Bytes → ℕ
unfolding clause_mode clause_depth clause_ends
clause_end_from mode depth [] = 0
clause_end_from mode depth (c ∷ s) =
    let later = clause_end_from (clause_mode mode c (peek s)) (clause_depth mode depth c) s in
    if clause_ends mode depth (c ∷ s) then 0 else suc later

-- `FindClauseEnd`
unfoldable pub find_clause_end : Bytes → ℕ → ℕ
unfolding clause_end_from
find_clause_end lower from =
    if leb from (length lower)
    then from + clause_end_from outside 0 (drop from lower)
    else length lower
