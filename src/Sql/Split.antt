-- ===== src/Sql/Split.antt =====
-- `SplitSQLStatements` of src/core/sql_utils.cpp. A position in the text is the rest of the text
-- from there on; which characters are spaces is the C library's, and a parameter.
use openivm.Base.{
  ℕ, Bool, true, false, ◌&&◌, not, List, [], ◌∷◌, Bytes, ◌==◌, is_empty, if◌then◌else◌,
}
use openivm.Sql.Chars.{quote, double_quote, newline}

-- Which of the flags `in_...` is set.
pub data Mode : Type 0 where
  plain in_single_quote in_double_quote in_line_comment in_block_comment : Mode

pub record Scan : Type 0 where
  pub mode : Mode
  pub skip : Bool  -- the loop has stepped past the next character

abbrev pub at : Mode → Bool → Scan
at mode skip = record { mode = mode; skip = skip }

-- One turn of the loop, without the split: the flags and whether `i++` is done twice.
unfoldable pub step : Mode → ℕ → ℕ → Scan
step in_line_comment c next = at (if c == newline then plain else in_line_comment) false
step in_block_comment c next =
    let ends = (c == 42) && (next == 47) in at (if ends then plain else in_block_comment) ends
step in_single_quote c next =
    let doubled = (c == quote) && (next == quote) in
    at (if (c == quote) && not doubled then plain else in_single_quote) doubled
step in_double_quote c next =
    let doubled = (c == double_quote) && (next == double_quote) in
    at (if (c == double_quote) && not doubled then plain else in_double_quote) doubled
step plain c next =
    if (c == 45) && (next == 45)
    then at in_line_comment true
    else if (c == 47) && (next == 42)
    then at in_block_comment true
    else if c == quote
    then at in_single_quote false
    else if c == double_quote
    then at in_double_quote false
    else at plain false

-- `next` of the loop: the character after the current one, or 0 at the end.
abbrev pub peek : Bytes → ℕ
peek [] = 0
peek (c ∷ s) = c

abbrev pub advance : Scan → ℕ → ℕ → Scan
advance scan c next = if scan.skip then at scan.mode false else step scan.mode c next

abbrev pub is_plain : Mode → Bool
is_plain plain = true
is_plain _ = false

-- Whether the loop splits at a character.
unfoldable pub splits_at : Scan → ℕ → Bool
splits_at scan c = is_plain scan.mode && not scan.skip && (c == 59)

abbrev pub add_first : ℕ → List Bytes → List Bytes
add_first c [] = (c ∷ []) ∷ []
add_first c (p ∷ ps) = (c ∷ p) ∷ ps

-- The pieces between the semicolons that split, before they are trimmed.
unfoldable pub pieces : Scan → Bytes → List Bytes
unfolding step splits_at
pieces scan [] = [] ∷ []
pieces scan (c ∷ s) =
    let rest = pieces (advance scan c (peek s)) s in
    if splits_at scan c then [] ∷ rest else add_first c rest

module _ (is_space : ℕ → Bool) where
  unfoldable pub trim_start : Bytes → Bytes
  trim_start [] = []
  trim_start (c ∷ s) = let rest = trim_start s in if is_space c then rest else c ∷ s

  unfoldable pub trim_end : Bytes → Bytes
  trim_end [] = []
  trim_end (c ∷ s) = let rest = trim_end s in if is_space c && is_empty rest then [] else c ∷ rest

  -- `TrimSQLFragment`
  unfoldable pub trim_sql_fragment : Bytes → Bytes
  unfolding trim_start trim_end
  trim_sql_fragment s = trim_end (trim_start s)

  -- The pieces that are not empty once trimmed.
  unfoldable pub statements_of : List Bytes → List Bytes
  statements_of [] = []
  statements_of (p ∷ ps) =
      let rest = statements_of ps in
      let statement = trim_sql_fragment p in if is_empty statement then rest else statement ∷ rest

  -- `SqlUtils::SplitSQLStatements`
  unfoldable pub split_sql_statements : Bytes → List Bytes
  unfolding statements_of
  split_sql_statements sql = statements_of (pieces (at plain false) sql)
