-- ===== src/Extract/TokenLaws.antt =====
-- What the readers of src/core/parser_sql_extractors.cpp read.
use openivm.Base.{
  drop-length, ◌≡◌, refl, ap, ◌∙◌, ℕ, suc, ◌+◌, Bool, true, false, ◌&&◌, ◌||◌, not, [], ◌∷◌, ◌++◌,
  some, Bytes, arith, ◌==◌, length, length-append, take, is_empty, Bool-cases, append_assoc,
}
use openivm.Sql.Chars.{double_quote}
use openivm.Extract.Chars.{is_space, is_digit, is_alnum, contains_char}
use openivm.Extract.Tokens.{
  spaces, token_length, read_identifier_token, zero_digits, bare_literal, is_zero_sql_literal,
}

-- A character of an identifier, or the dot between two of them.
abbrev is_token_char : ℕ → Bool
is_token_char c = is_alnum c || (c == 95) || (c == 46)

-- What an identifier is made of: such characters, and quoted parts.
pub data Token : Bytes → Type 0 where
  nothing : Token []
  plain :
      {c : ℕ} {s : Bytes} → (is_alnum c || (c == 95) || (c == 46)) ≡ true → Token s → Token (c ∷ s)
  quoted :
      (body : Bytes) {s : Bytes}
      → contains_char double_quote body ≡ false
      → Token s
      → Token (double_quote ∷ (body ++ (double_quote ∷ s)))

-- The text does not go on with a character of an identifier.
abbrev pub stops : Bytes → Bool
stops [] = true
stops (c ∷ s) = not (c == double_quote) && not (is_token_char c)

token_length-quoted :
    (body rest : Bytes)
    → contains_char double_quote body ≡ false
    → token_length true (body ++ (double_quote ∷ rest))
      ≡ suc (length body) + token_length false rest
unfolding token_length contains_char
token_length-quoted [] rest h = omega arith
token_length-quoted (c ∷ body) rest h =
    let other : (c == double_quote) ≡ false = ground arith in
    rw other (omega (arith, token_length-quoted body rest (ground arith)))

token_length-stops : (rest : Bytes) → stops rest ≡ true → token_length false rest ≡ 0
unfolding token_length is_alnum
token_length-stops [] h = refl
token_length-stops (c ∷ s) h = ground arith

not_quote : (c : ℕ) → is_token_char c ≡ true → (c == double_quote) ≡ false
unfolding is_alnum is_digit
not_quote c h = ground arith

not_space : (c : ℕ) → is_token_char c ≡ true → is_space c ≡ false
unfolding is_alnum is_digit is_space
not_space c h = ground arith

token_plain :
    (c : ℕ) (s : Bytes)
    → is_token_char c ≡ true
    → token_length false (c ∷ s) ≡ suc (token_length false s)
unfolding token_length
token_plain c s h = rw (not_quote c h) (rw h refl)

token_quote : (s : Bytes) → token_length false (double_quote ∷ s) ≡ suc (token_length true s)
unfolding token_length
token_quote s = refl

token_length-Token :
    {name : Bytes} (rest : Bytes)
    → Token name
    → stops rest ≡ true
    → token_length false (name ++ rest) ≡ length name
token_length-Token rest nothing h = token_length-stops rest h
token_length-Token rest (plain {c = c} {s = s} p t) h =
    token_plain c (s ++ rest) p ∙ ap suc (token_length-Token rest t h)
token_length-Token rest (quoted body {s = s} free t) h =
    rw (append_assoc body (double_quote ∷ s) rest) (
      token_quote (body ++ (double_quote ∷ (s ++ rest)))
      ∙ ap suc (
          token_length-quoted body (s ++ rest) free
          ∙ omega (arith, token_length-Token rest t h, length-append body (double_quote ∷ s))))

spaces_none : (c : ℕ) (s : Bytes) → is_space c ≡ false → spaces (c ∷ s) ≡ 0
unfolding spaces
spaces_none c s h = rw h refl

spaces-Token :
    {name : Bytes} (rest : Bytes) → Token name → is_empty name ≡ false → spaces (name ++ rest) ≡ 0
spaces-Token rest nothing h = cc
spaces-Token rest (plain {c = c} {s = s} p t) h = spaces_none c (s ++ rest) (not_space c p)
spaces-Token rest (quoted body free t) h = spaces_none double_quote _ (unfold is_space in refl)

take-length : (xs ys : Bytes) → take (length xs) (xs ++ ys) ≡ xs
take-length [] ys = refl
take-length (x ∷ xs) ys = ap (λ t. x ∷ t) (take-length xs ys)

length_pos : (xs : Bytes) → is_empty xs ≡ false → (length xs == 0) ≡ false
length_pos [] h = cc
length_pos (x ∷ xs) h = ground arith

plus_zero : (n : ℕ) → n + 0 ≡ n
plus_zero n = omega arith

-- An identifier that stands anywhere in a text, its quoted parts and dots included, is read as a
-- whole, and the position behind it is given back.
pub read_identifier_token-Token :
    (before name rest : Bytes)
    → Token name
    → is_empty name ≡ false
    → stops rest ≡ true
    → read_identifier_token (before ++ (name ++ rest)) (length before)
      ≡ some (name, length before + length name)
unfolding read_identifier_token
read_identifier_token-Token before name rest token some_name ends =
    rw (drop-length before (name ++ rest)) (
      rw (spaces-Token rest token some_name) (
        rw (plus_zero (length before)) (
          rw (drop-length before (name ++ rest)) (
            rw (token_length-Token rest token ends)
              (rw (length_pos name some_name) (rw (take-length name rest) refl))))))

-- The characters of the loop of `IsZeroSqlLiteral`: zeros and dots.
abbrev pub only_zeros : Bytes → Bool
only_zeros [] = true
only_zeros (c ∷ s) = ((c == 46) || (c == 48)) && only_zeros s

zero_digits-only_zeros :
    (found : Bool) (s : Bytes)
    → zero_digits found s ≡ (only_zeros s && (found || contains_char 48 s))
unfolding zero_digits contains_char is_digit
zero_digits-only_zeros found [] = ground (arith, Bool-cases found)
zero_digits-only_zeros found (c ∷ s) =
    ground (arith, Bool-cases found, zero_digits-only_zeros true s, zero_digits-only_zeros found s)

-- A literal is taken for zero exactly if behind its parentheses and its sign there are only zeros and
-- dots, and a zero at least.
pub is_zero_sql_literal-only_zeros :
    (trim : Bytes → Bytes) (expr : Bytes)
    → is_zero_sql_literal trim expr
      ≡ (only_zeros (bare_literal trim expr) && contains_char 48 (bare_literal trim expr))
unfolding is_zero_sql_literal
is_zero_sql_literal-only_zeros trim expr = zero_digits-only_zeros false (bare_literal trim expr)
