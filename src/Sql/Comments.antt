-- ===== src/Sql/Comments.antt =====
-- `StripLineComments` and `SQLToLowercase` of src/core/sql_utils.cpp. The C library's `tolower` is a
-- parameter.
use openivm.Base.{ℕ, Bool, true, false, ◌&&◌, not, [], ◌∷◌, Bytes, ◌==◌, if◌then◌else◌}
use openivm.Sql.Chars.{quote, newline}
use openivm.Sql.Split.{peek}

-- Where the loop of `StripLineComments` stands.
pub data StripState : Type 0 where
  outside in_string in_comment : StripState

unfoldable pub strip_next : StripState → ℕ → ℕ → StripState
strip_next outside c next =
    if c == quote then in_string else if (c == 45) && (next == 45) then in_comment else outside
strip_next in_string c next = if c == quote then outside else in_string
strip_next in_comment c next = if c == newline then outside else in_comment

-- Whether a character is kept.
unfoldable pub strip_keeps : StripState → ℕ → ℕ → Bool
strip_keeps outside c next = not ((c == 45) && (next == 45))
strip_keeps in_string c next = true
strip_keeps in_comment c next = c == newline

unfoldable pub strip_from : StripState → Bytes → Bytes
unfolding strip_next strip_keeps
strip_from state [] = []
strip_from state (c ∷ s) =
    let rest = strip_from (strip_next state c (peek s)) s in
    if strip_keeps state c (peek s) then c ∷ rest else rest

-- `SqlUtils::StripLineComments`
unfoldable pub strip_line_comments : Bytes → Bytes
unfolding strip_from
strip_line_comments query = strip_from outside query

module _ (tolower : ℕ → ℕ) where
  -- The flag is `in_string`.
  unfoldable pub lowercase_from : Bool → Bytes → Bytes
  lowercase_from inside [] = []
  lowercase_from inside (c ∷ s) =
      let inside = if c == quote then not inside else inside in
      let rest = lowercase_from inside s in (if inside then c else tolower c) ∷ rest

  -- `SqlUtils::SQLToLowercase`
  unfoldable pub sql_to_lowercase : Bytes → Bytes
  unfolding lowercase_from
  sql_to_lowercase sql = lowercase_from false sql
