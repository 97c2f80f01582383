-- ===== src/Extract/Select.antt =====
-- src/core/parser_sql_extractors.cpp: `ParseSelectOutputItems` and `ParseSelectOutputColumns`. The depth of
-- the loop is an int that may fall below 0; it is kept as the numbers of parentheses that were opened and
-- closed.
use openivm.Base.{
  ℕ, suc, ◌+◌, ◌&&◌, not, List, [], ◌∷◌, Option, none, some, Bytes, bytes_eq, codes, ◌==◌, take,
  drop, is_empty, if◌then◌else◌,
}
use openivm.Extract.Chars.{open_paren, close_paren}
use openivm.Extract.Parens.{find_top_level_keyword_token}
use openivm.Extract.Tokens.{between, read_identifier_token, last_identifier_part}

pub record SelectOutputItem : Type 0 where
  pub expr : Bytes
  pub name : Bytes

-- A character in front of the first piece.
unfoldable pub add_char : ℕ → List Bytes → List Bytes
add_char c [] = (c ∷ []) ∷ []
add_char c (piece ∷ pieces) = (c ∷ piece) ∷ pieces

-- The list up to its first comma outside of parentheses, and so on.
unfoldable pub comma_pieces : ℕ → ℕ → Bytes → List Bytes
unfolding add_char
comma_pieces opened closed [] = [] ∷ []
comma_pieces opened closed (c ∷ s) =
    let rest =
      comma_pieces (if c == open_paren then suc opened else opened)
        (if c == close_paren then suc closed else closed) s in
    if (opened == closed) && (c == 44) then [] ∷ rest else add_char c rest

-- `return !out.expr.empty() && !out.name.empty()`
unfoldable pub checked_item : Bytes → Bytes → Option SelectOutputItem
checked_item expr name =
    if not (is_empty expr) && not (is_empty name)
    then some (record { expr = expr; name = name })
    else none

-- An item is kept unless it is `*`; one that is not kept ends the loop.
unfoldable pub add_item :
    Option SelectOutputItem → Option (List SelectOutputItem) → Option (List SelectOutputItem)
add_item none items = none
add_item (some item) none = none
add_item (some item) (some items) =
    if bytes_eq item.name (codes "*") then none else some (item ∷ items)

module _ (trim lower : Bytes → Bytes) where
  without_alias : Bytes → Option SelectOutputItem
  unfolding last_identifier_part checked_item
  without_alias item = checked_item item (last_identifier_part trim item)

  with_alias : Bytes → ℕ → Option SelectOutputItem
  unfolding last_identifier_part checked_item read_identifier_token without_alias
  with_alias item as_pos = elim (read_identifier_token (trim (drop (as_pos + 2) item)) 0) [
    | none ↦ without_alias item
    | some (alias_token, end) ↦
        checked_item (trim (take as_pos item)) (last_identifier_part trim alias_token)
  ]

  -- `parse_item`
  unfoldable pub parse_item : Bytes → Option SelectOutputItem
  unfolding with_alias without_alias find_top_level_keyword_token
  parse_item text =
      let item = trim text in
      elim (find_top_level_keyword_token (lower item) (codes "as") 0) [
        | none ↦ without_alias item
        | some as_pos ↦ with_alias item as_pos
      ]

  unfoldable pub parse_pieces : List Bytes → Option (List SelectOutputItem)
  unfolding parse_item add_item
  parse_pieces [] = some []
  parse_pieces (piece ∷ pieces) = add_item (parse_item piece) (parse_pieces pieces)

  -- `ParseSelectOutputItems`; "select" has six letters.
  unfoldable pub parse_select_output_items : Bytes → ℕ → ℕ → Option (List SelectOutputItem)
  unfolding parse_pieces comma_pieces between
  parse_select_output_items original_sql select_pos from_pos =
      parse_pieces (comma_pieces 0 0 (between original_sql (select_pos + 6) from_pos))

  names_and_exprs : List SelectOutputItem → List Bytes × List Bytes
  names_and_exprs [] = ([], [])
  names_and_exprs (item ∷ items) =
      let (names, exprs) = names_and_exprs items in (item.name ∷ names, item.expr ∷ exprs)

  -- `ParseSelectOutputColumns`: the names and the expressions.
  unfoldable pub parse_select_output_columns : Bytes → ℕ → ℕ → Option (List Bytes × List Bytes)
  unfolding names_and_exprs parse_select_output_items
  parse_select_output_columns original_sql select_pos from_pos =
      elim (parse_select_output_items original_sql select_pos from_pos) [
        | none ↦ none
        | some items ↦ some (names_and_exprs items)
      ]
