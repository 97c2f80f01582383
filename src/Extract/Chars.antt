-- ===== src/Extract/Chars.antt =====
-- Classes of characters in the C locale, and positions in texts, as src/core/parser_sql_extractors.cpp
-- uses them.
use openivm.Base.{
  ◌≡◌, refl, ap, ◌∙◌, arith, ℕ, ◌+◌, Bool, false, ◌&&◌, ◌||◌, [], ◌∷◌, Option, none, some, Bytes,
  ◌==◌, leb,
}

abbrev pub open_paren : ℕ
open_paren = 40

abbrev pub close_paren : ℕ
close_paren = 41

-- `std::isspace`
unfoldable pub is_space : ℕ → Bool
is_space c = (c == 32) || (leb 9 c && leb c 13)

-- `std::isdigit`
unfoldable pub is_digit : ℕ → Bool
is_digit c = leb 48 c && leb c 57

-- `std::isalnum`
unfoldable pub is_alnum : ℕ → Bool
unfolding is_digit
is_alnum c = is_digit c || (leb 65 c && leb c 90) || (leb 97 c && leb c 122)

-- `IsIdentifierTokenChar`
unfoldable pub is_identifier_token_char : ℕ → Bool
unfolding is_alnum
is_identifier_token_char c = is_alnum c || (c == 95)

-- A position that was found, counted from so many characters earlier.
abbrev pub shift_by : ℕ → Option ℕ → Option ℕ
shift_by n none = none
shift_by n (some i) = some (n + i)

-- `find` of a character.
unfoldable pub contains_char : ℕ → Bytes → Bool
contains_char c [] = false
contains_char c (d ∷ s) = (c == d) || contains_char c s

shift_by-shift_by : (m n : ℕ) (r : Option ℕ) → shift_by m (shift_by n r) ≡ shift_by (m + n) r
shift_by-shift_by m n none = refl
shift_by-shift_by m n (some i) = ap some (omega arith)

pub then_shift :
    (m n : ℕ) (r : Option ℕ) {x : Option ℕ} → x ≡ shift_by n r → shift_by m x ≡ shift_by (m + n) r
then_shift m n r h = ap (shift_by m) h ∙ shift_by-shift_by m n r

pub shift_by_zero : (r : Option ℕ) → shift_by 0 r ≡ r
shift_by_zero none = refl
shift_by_zero (some i) = ap some (omega arith)
