-- ===== src/Extract/Keywords.antt =====
-- src/core/parser_sql_extractors.cpp: `FindKeywordToken`, `StartsKeywordToken` and
-- `FindTopLevelKeywordToken`. A loop walks the text from a position on, and its result counts from there.
-- No keyword that is looked for is empty.
use openivm.Base.{
  ℕ, zero, suc, Bool, true, false, ◌&&◌, ◌||◌, not, List, [], ◌∷◌, Option, none, some, Bytes, ◌==◌,
  ltb, length, drop, get_elem?, if◌then◌else◌,
}
use openivm.Sql.Chars.{quote, double_quote}
use openivm.Sql.Json.{after_prefix}
use openivm.Sql.Split.{peek}
use openivm.Extract.Chars.{open_paren, is_space, is_identifier_token_char, shift_by}

-- Where the loop of `FindKeywordToken` stands; the second quote of a pair is skipped.
pub data QuoteMode : Type 0 where
  outside in_string in_string_pair in_identifier in_identifier_pair : QuoteMode

unfoldable pub next_mode : QuoteMode → ℕ → ℕ → QuoteMode
next_mode outside c next =
    if c == quote then in_string else if c == double_quote then in_identifier else outside
next_mode in_string c next =
    if c == quote then (if next == quote then in_string_pair else outside) else in_string
next_mode in_string_pair c next = in_string
next_mode in_identifier c next =
    if c == double_quote
    then (if next == double_quote then in_identifier_pair else outside)
    else in_identifier
next_mode in_identifier_pair c next = in_identifier

-- Whether the loop comes to compare the keyword here.
unfoldable pub compares : QuoteMode → ℕ → Bool
compares outside c = not (c == quote) && not (c == double_quote)
compares _ c = false

unfoldable pub ok_left : Option ℕ → Bool
unfolding is_space
ok_left none = true
ok_left (some c) = is_space c || (c == open_paren)

unfoldable pub ok_right : Option Bytes → Bool
unfolding is_space
ok_right none = false
ok_right (some []) = true
ok_right (some (c ∷ s)) = is_space c || (c == open_paren)

-- The keyword stands at the start of the text, between delimiters.
unfoldable pub token_at : Bytes → Option ℕ → Bytes → Bool
unfolding ok_left ok_right after_prefix
token_at keyword before text = ok_right (after_prefix keyword text) && ok_left before

-- The loop; `before` is the character in front of the text.
unfoldable pub find_from : Bytes → QuoteMode → Option ℕ → Bytes → Option ℕ
unfolding token_at compares next_mode
find_from keyword mode before [] = none
find_from keyword mode before (c ∷ s) =
    let later = find_from keyword (next_mode mode c (peek s)) (some c) s in
    if ltb (length (c ∷ s)) (length keyword)
    then none
    else if compares mode c && token_at keyword before (c ∷ s)
    then some 0
    else shift_by 1 later

-- The character in front of a position.
unfoldable pub before_position : Bytes → ℕ → Option ℕ
before_position text zero = none
before_position text (suc from) = get_elem? text from

-- `FindKeywordToken`
unfoldable pub find_keyword_token : Bytes → Bytes → ℕ → Option ℕ
unfolding find_from before_position
find_keyword_token text keyword from =
    shift_by from (find_from keyword outside (before_position text from) (drop from text))

ends_token : Option Bytes → Bool
unfolding is_identifier_token_char
ends_token none = false
ends_token (some []) = true
ends_token (some (c ∷ s)) = not (is_identifier_token_char c)

-- `StartsKeywordToken`; the position is given by the text from there on.
unfoldable pub starts_keyword_token : Bytes → Bytes → Bool
unfolding ends_token after_prefix
starts_keyword_token text keyword = ends_token (after_prefix keyword text)

-- `StartsAnyKeywordToken`
unfoldable pub starts_any_keyword_token : Bytes → List Bytes → Bool
unfolding starts_keyword_token
starts_any_keyword_token text [] = false
starts_any_keyword_token text (k ∷ ks) =
    starts_keyword_token text k || starts_any_keyword_token text ks
