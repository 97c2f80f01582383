-- ===== src/Extract/Tokens.antt =====
-- src/core/parser_sql_extractors.cpp: the readers of identifiers, comparisons and literals, and
-- `LastIdentifierPart` of src/core/sql_utils.cpp. `trim` and `lower` are DuckDB's `StringUtil`, and
-- parameters. A reader gives what it read and the position behind it; where it fails, no caller looks
-- at the position.
use openivm.Base.{
  ℕ, suc, ◌+◌, ◌-◌, Bool, true, false, ◌&&◌, ◌||◌, not, List, [], ◌∷◌, Option, none, some, Bytes,
  codes, ◌==◌, leb, length, take, drop, is_empty, if◌then◌else◌,
}
use openivm.Sql.Chars.{double_quote}
use openivm.Sql.Json.{after_prefix}
use openivm.Extract.Chars.{open_paren, close_paren, is_space, is_digit, is_alnum, contains_char}
use openivm.Extract.Parens.{find_matching_paren}

-- `substr` from a position up to another; a length that would be negative wraps around to the rest of
-- the text.
unfoldable pub between : Bytes → ℕ → ℕ → Bytes
between text start end =
    if leb start end then take (end - start) (drop start text) else drop start text

-- How many spaces the text starts with.
unfoldable pub spaces : Bytes → ℕ
unfolding is_space
spaces [] = 0
spaces (c ∷ s) = let rest = spaces s in if is_space c then suc rest else 0

-- The loop of `ReadIdentifierToken`: the length of the token.
unfoldable pub token_length : Bool → Bytes → ℕ
unfolding is_alnum
token_length in_quote [] = 0
token_length true (c ∷ s) = suc (token_length (not (c == double_quote)) s)
token_length false (c ∷ s) =
    let rest = token_length (c == double_quote) s in
    if (c == double_quote) || is_alnum c || (c == 95) || (c == 46) then suc rest else 0

-- `ReadIdentifierToken`
unfoldable pub read_identifier_token : Bytes → ℕ → Option (Bytes × ℕ)
unfolding spaces token_length
read_identifier_token sql pos =
    let start = pos + spaces (drop pos sql) in
    let n = token_length false (drop start sql) in
    if n == 0 then none else some (take n (drop start sql), start + n)

abbrev pub comparison_ops : List Bytes
comparison_ops =
    codes "<=" ∷ codes ">=" ∷ codes "<>" ∷ codes "!=" ∷ codes "=" ∷ codes "<" ∷ codes ">" ∷ []

-- The first candidate that the text starts with.
unfoldable pub first_prefix : List Bytes → Bytes → Option Bytes
unfolding after_prefix
first_prefix [] text = none
first_prefix (op ∷ ops) text = elim (after_prefix op text) [
  | none ↦ first_prefix ops text
  | some rest ↦ some op
]

-- `ReadComparisonOp`
unfoldable pub read_comparison_op : Bytes → ℕ → Option (Bytes × ℕ)
unfolding first_prefix spaces
read_comparison_op sql pos =
    let start = pos + spaces (drop pos sql) in
    elim (first_prefix comparison_ops (drop start sql)) [
      | none ↦ none
      | some op ↦ some (op, start + length op)
    ]

-- The text without its last character, and that character.
unfoldable pub last_char : Bytes → ℕ
last_char [] = 0
last_char (c ∷ []) = c
last_char (c ∷ d ∷ s) = last_char (d ∷ s)

abbrev pub first_char : Bytes → ℕ
first_char [] = 0
first_char (c ∷ s) = c

-- Whether the text starts with one character and ends, later, with another.
unfoldable pub is_enclosed : ℕ → ℕ → Bytes → Bool
unfolding last_char
is_enclosed opening closing text =
    leb 2 (length text) && (first_char text == opening) && (last_char text == closing)

-- The loop of `LastIdentifierPart`: the text behind the last dot outside of quotes.
unfoldable pub behind_last_dot : Bool → Bytes → Bytes → Bytes
behind_last_dot in_quote part [] = part
behind_last_dot in_quote part (c ∷ s) =
    behind_last_dot (if c == double_quote then not in_quote else in_quote)
      (if not (c == double_quote) && not in_quote && (c == 46) then s else part) s

-- The loop of `IsZeroSqlLiteral`.
unfoldable pub zero_digits : Bool → Bytes → Bool
unfolding is_digit
zero_digits found_digit [] = found_digit
zero_digits found_digit (c ∷ s) =
    let rest = zero_digits (found_digit || not (c == 46)) s in
    if c == 46
    then rest
    else if not (is_digit c)
    then false
    else if not (c == 48)
    then false
    else rest

module _ (trim : Bytes → Bytes) where
  unfoldable pub last_identifier_part : Bytes → Bytes
  unfolding behind_last_dot is_enclosed
  last_identifier_part name =
      let trimmed = trim name in
      let part = behind_last_dot false trimmed trimmed in
      if is_enclosed double_quote double_quote part
      then take (length part - 2) (drop 1 part)
      else part

  -- What `IsZeroSqlLiteral` takes off before it looks at the digits.
  unfoldable pub bare_literal : Bytes → Bytes
  unfolding is_enclosed
  bare_literal expr =
      let trimmed = trim expr in
      let inner =
        if is_enclosed open_paren close_paren trimmed
        then trim (take (length trimmed - 2) (drop 1 trimmed))
        else trimmed in
      if (first_char inner == 43) || (first_char inner == 45) then drop 1 inner else inner

  -- `IsZeroSqlLiteral`
  unfoldable pub is_zero_sql_literal : Bytes → Bool
  unfolding zero_digits bare_literal
  is_zero_sql_literal expr = zero_digits false (bare_literal expr)

  module _ (lower : Bytes → Bytes) where
    -- The position of a character.
    unfoldable pub find_char : ℕ → Bytes → Option ℕ
    find_char c [] = none
    find_char c (d ∷ s) =
        let rest = find_char c s in
        if c == d then some 0 else elim rest [ none ↦ none | some i ↦ some (suc i) ]

    sum_argument : Bytes → ℕ → Option ℕ → Option Bytes
    sum_argument trimmed opening none = none
    sum_argument trimmed opening (some closing) =
        let arg = trim (take (closing - opening - 1) (drop (suc opening) trimmed)) in
        if is_empty (trim (drop (suc closing) trimmed))
          && not (is_empty arg)
          && not (contains_char 44 arg)
        then some arg
        else none

    -- `ParseSumCall`: the argument.
    unfoldable pub parse_sum_call : Bytes → Option Bytes
    unfolding sum_argument find_char after_prefix contains_char
    parse_sum_call expr =
        let trimmed = trim expr in
        elim (after_prefix (codes "sum") (lower trimmed)) [
          | none ↦ none
          | some rest ↦ elim (find_char open_paren (lower trimmed)) [
            | none ↦ none
            | some opening ↦ sum_argument trimmed opening (find_matching_paren trimmed opening)
          ]
        ]

    unfoldable pub starts_with_and : Bytes → Bool
    unfolding after_prefix
    starts_with_and text = elim (after_prefix (codes "and ") text) [
      | none ↦ false
      | some rest ↦ true
    ]

    unfoldable pub ends_with_and : Bytes → Bool
    unfolding after_prefix
    ends_with_and text =
        leb 4 (length text) && elim (after_prefix (codes " and") (drop (length text - 4) text)) [
          | none ↦ false
          | some rest ↦ true
        ]

    -- `TrimAndConjunctions`
    unfoldable pub trim_and_conjunctions : Bytes → Bytes
    unfolding starts_with_and ends_with_and
    trim_and_conjunctions expr =
        let trimmed = trim expr in
        let tail = if starts_with_and (lower trimmed) then trim (drop 4 trimmed) else trimmed in
        if ends_with_and (lower tail) then trim (take (length tail - 4) tail) else tail
