-- ===== src/Sql/Chars.antt =====
-- The characters that src/core/sql_utils.cpp looks for, by their codes.
use openivm.Base.{ℕ, [], ◌∷◌, Bytes, ◌==◌, if◌then◌else◌}

abbrev pub quote : ℕ
quote = 39

abbrev pub double_quote : ℕ
double_quote = 34

abbrev pub backslash : ℕ
backslash = 92

abbrev pub newline : ℕ
newline = 10

abbrev pub letter_n : ℕ
letter_n = 110

-- `SqlUtils::EscapeSingleQuotes`
unfoldable pub escape_single_quotes : Bytes → Bytes
escape_single_quotes [] = []
escape_single_quotes (c ∷ s) =
    let rest = escape_single_quotes s in if c == quote then quote ∷ quote ∷ rest else c ∷ rest
