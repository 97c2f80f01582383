-- ===== src/Sql/JsonRoundTrip.antt =====
-- What src/core/refresh_metadata.cpp reads back of the texts that src/core/sql_utils.cpp quotes.
use openivm.Base.{
  ℕ, ◌≡◌, refl, ap, ◌∙◌, false, List, [], ◌∷◌, ◌++◌, map, append_assoc, none, some, Bytes, codes,
  ◌==◌, arith, if◌then◌else◌, Bool-cases, inl, inr,
}
use openivm.Sql.Chars.{double_quote, backslash, newline, letter_n}
use openivm.Sql.Json.{
  escape_json, json_quote, json_rest, json_array, after_prefix, after_first, or_else, read_value,
  unescape, put, read_string, key_needle, extract_json_string, between, inside, next_state,
  read_element, read_array,
}

read_string-escape_json :
    (v rest : Bytes) → read_string false (escape_json v ++ double_quote ∷ rest) ≡ some v
unfolding escape_json read_string put unescape
read_string-escape_json [] rest = refl
read_string-escape_json (c ∷ v) rest = elim (Bool-cases (c == double_quote)) [
  | inl e ↦ rw e (ground (arith, read_string-escape_json v rest))
  | inr e ↦ elim (Bool-cases (c == backslash)) [
    | inl b ↦ rw (e, b) (ground (arith, read_string-escape_json v rest))
    | inr b ↦ elim (Bool-cases (c == newline)) [
      | inl n ↦ rw (e, b, n) (ground (arith, read_string-escape_json v rest))
      | inr n ↦ rw (e, b, n) (rw (e, b) (rw (read_string-escape_json v rest) refl))
    ]
  ]
]

after_prefix-append : (p s : Bytes) → after_prefix p (p ++ s) ≡ some s
unfolding after_prefix
after_prefix-append [] s = refl
after_prefix-append (c ∷ p) s = ground (arith, after_prefix-append p s)

append_quote : (v t : Bytes) → (v ++ double_quote ∷ []) ++ t ≡ v ++ double_quote ∷ t
append_quote [] t = refl
append_quote (c ∷ v) t = ap (λ (u : Bytes). c ∷ u) (append_quote v t)

after_first-here :
    (needle s rest : Bytes) (c : ℕ)
    → after_prefix needle (c ∷ s) ≡ some rest
    → after_first needle (c ∷ s) ≡ some rest
unfolding after_first
after_first-here needle s rest c h = ap (λ t. or_else t (after_first needle s)) h

after_first-later :
    (needle s : Bytes) (c : ℕ)
    → after_prefix needle (c ∷ s) ≡ none
    → after_first needle (c ∷ s) ≡ after_first needle s
unfolding after_first
after_first-later needle s c h = ap (λ t. or_else t (after_first needle s)) h

-- A key's needle in an object's text is found at its first field.
after_first-needle :
    (key t : Bytes) → after_first (key_needle key) (codes "{" ++ (key_needle key ++ t)) ≡ some t
unfolding key_needle
after_first-needle key t =
    after_first-later (key_needle key) (key_needle key ++ t) 123 (unfold after_prefix in refl)
    ∙ after_first-here (key_needle key) ((key ++ codes "\":\"") ++ t) t double_quote
        (after_prefix-append (key_needle key) t)

-- A text that is quoted as the value of the first field of an object is what the field's key gives
-- back, whatever follows, and whatever characters it holds.
pub extract_json_string-json_quote :
    (key value rest : Bytes)
    → extract_json_string
        (codes "{" ++ (key_needle key ++ (escape_json value ++ double_quote ∷ rest)))
        key
      ≡ some value
unfolding extract_json_string
extract_json_string-json_quote key value rest =
    ap read_value (after_first-needle key (escape_json value ++ double_quote ∷ rest))
    ∙ read_string-escape_json value rest

-- A value as the array's reader gives it back: without its line breaks.
abbrev pub without_newlines : Bytes → Bytes
without_newlines [] = []
without_newlines (c ∷ v) =
    let rest = without_newlines v in if c == newline then letter_n ∷ rest else c ∷ rest

read_array-escape_json :
    (v t : Bytes)
    → read_array inside (escape_json v ++ double_quote ∷ t)
      ≡ record { value = without_newlines v; values = (read_array between t).values }
unfolding escape_json read_array read_element next_state
read_array-escape_json [] t = refl
read_array-escape_json (c ∷ v) t = elim (Bool-cases (c == double_quote)) [
  | inl e ↦ rw e (ground (arith, read_array-escape_json v t))
  | inr e ↦ elim (Bool-cases (c == backslash)) [
    | inl b ↦ rw (e, b) (ground (arith, read_array-escape_json v t))
    | inr b ↦ elim (Bool-cases (c == newline)) [
      | inl n ↦ rw (e, b, n) (ground (arith, read_array-escape_json v t))
      | inr n ↦ rw (e, b, n) (rw (e, b) (rw (read_array-escape_json v t) refl))
    ]
  ]
]

read_array-json_quote :
    (v t : Bytes)
    → (read_array between (json_quote v ++ t)).values
      ≡ without_newlines v ∷ (read_array between t).values
unfolding json_quote read_array read_element next_state
read_array-json_quote v t = rw (append_quote (escape_json v) t, read_array-escape_json v t) refl

read_array-json_rest :
    (vs : List Bytes) (t : Bytes)
    → (read_array between (json_rest vs ++ t)).values ≡ map without_newlines vs
unfolding json_rest read_array read_element next_state
read_array-json_rest [] t = refl
read_array-json_rest (v ∷ vs) t =
    ap (λ (u : Bytes). (read_array between u).values) (append_assoc (json_quote v) (json_rest vs) t)
    ∙ read_array-json_quote v (json_rest vs ++ t)
    ∙ ap (λ (l : List Bytes). without_newlines v ∷ l) (read_array-json_rest vs t)

-- The reader of arrays gives back the values that were quoted, but a line break comes back as the
-- letter n: an array of values without line breaks is read back as it was.
pub read_array-json_array :
    (vs : List Bytes) (rest : Bytes)
    → (read_array between (json_array vs ++ rest)).values ≡ map without_newlines vs
unfolding json_array read_array read_element next_state
read_array-json_array [] rest = refl
read_array-json_array (v ∷ vs) rest =
    ap (λ (u : Bytes). (read_array between u).values)
      (append_assoc (json_quote v) (json_rest vs) rest)
    ∙ read_array-json_quote v (json_rest vs ++ rest)
    ∙ ap (λ (l : List Bytes). without_newlines v ∷ l) (read_array-json_rest vs rest)
