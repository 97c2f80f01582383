-- ===== src/Sql/Json.antt =====
-- `JsonQuote` and `JsonArray` of src/core/sql_utils.cpp, and the reader of the same texts in
-- src/core/refresh_metadata.cpp. A position in a text is the rest of the text from there on.
use openivm.Base.{
  ℕ, Bool, true, false, List, [], ◌∷◌, ◌++◌, Option, none, some, Bytes, codes, ◌==◌, ◌||◌,
  if◌then◌else◌,
}
use openivm.Sql.Chars.{double_quote, backslash, newline, letter_n}

unfoldable pub escape_json : Bytes → Bytes
escape_json [] = []
escape_json (c ∷ s) =
    let rest = escape_json s in
    if (c == double_quote) || (c == backslash)
    then backslash ∷ c ∷ rest
    else if c == newline
    then backslash ∷ letter_n ∷ rest
    else c ∷ rest

unfoldable pub json_quote : Bytes → Bytes
unfolding escape_json
json_quote value = double_quote ∷ escape_json value ++ double_quote ∷ []

-- the values of an array after the first
unfoldable pub json_rest : List Bytes → Bytes
unfolding json_quote
json_rest [] = codes "]"
json_rest (v ∷ vs) = codes "," ++ json_quote v ++ json_rest vs

unfoldable pub json_array : List Bytes → Bytes
unfolding json_quote json_rest
json_array [] = codes "[" ++ codes "]"
json_array (v ∷ vs) = codes "[" ++ json_quote v ++ json_rest vs

-- The text after a prefix, if it has the prefix.
unfoldable pub after_prefix : Bytes → Bytes → Option Bytes
after_prefix [] s = some s
after_prefix (c ∷ p) [] = none
after_prefix (c ∷ p) (d ∷ s) = let rest = after_prefix p s in if c == d then rest else none

abbrev pub or_else : Option Bytes → Option Bytes → Option Bytes
or_else none later = later
or_else (some rest) later = some rest

-- `json.find(needle)`, and past it.
unfoldable pub after_first : Bytes → Bytes → Option Bytes
unfolding after_prefix
after_first needle [] = after_prefix needle []
after_first needle (c ∷ s) =
    let later = after_first needle s in or_else (after_prefix needle (c ∷ s)) later

-- What the loop of `ExtractJsonString` does with the escaped character.
unfoldable pub unescape : ℕ → ℕ
unescape c = if c == letter_n then newline else c

-- a character in front of a value that was read
unfoldable pub put : ℕ → Option Bytes → Option Bytes
put c none = none
put c (some v) = some (c ∷ v)

-- The loop of `ExtractJsonString`; the flag is that the character before is a backslash.
unfoldable pub read_string : Bool → Bytes → Option Bytes
unfolding put unescape
read_string escaped [] = none
read_string true (c ∷ s) = put (unescape c) (read_string false s)
read_string false (c ∷ s) =
    let rest = read_string (c == backslash) s in
    if c == backslash then rest else if c == double_quote then some [] else put c rest

unfoldable pub key_needle : Bytes → Bytes
key_needle key = double_quote ∷ key ++ codes "\":\""

abbrev pub read_value : Option Bytes → Option Bytes
read_value none = none
read_value (some rest) = read_string false rest

-- `ExtractJsonString`
unfoldable pub extract_json_string : Bytes → Bytes → Option Bytes
unfolding key_needle
extract_json_string json key = read_value (after_first (key_needle key) json)

-- Where the loop of `ExtractJsonStringArray` stands: between the values, in one, or after a
-- backslash in one.
pub data ArrayState : Type 0 where
  between inside escaped : ArrayState

unfoldable pub next_state : ArrayState → ℕ → ArrayState
next_state between c = if c == double_quote then inside else between
next_state inside c =
    if c == backslash then escaped else if c == double_quote then between else inside
next_state escaped c = inside

-- The rest of the value that is being read, and the values after it.
pub record Elements : Type 0 where
  pub value : Bytes
  pub values : List Bytes

abbrev no_elements : Elements
no_elements = record { value = []; values = [] }

-- What a character does to what the text after it holds.
unfoldable pub read_element : ArrayState → ℕ → Elements → Elements
read_element between c e =
    if c == 93
    then no_elements
    else if c == double_quote
    then record { value = []; values = e.value ∷ e.values }
    else e
read_element inside c e =
    if c == backslash
    then e
    else if c == double_quote
    then record { value = []; values = e.values }
    else record { value = c ∷ e.value; values = e.values }
read_element escaped c e = record { value = c ∷ e.value; values = e.values }

-- The loop of `ExtractJsonStringArray`.
unfoldable pub read_array : ArrayState → Bytes → Elements
unfolding read_element next_state
read_array escaped [] = record { value = backslash ∷ []; values = [] }
read_array state [] = no_elements
read_array state (c ∷ s) = read_element state c (read_array (next_state state c) s)

-- `ExtractJsonStringArray`
unfoldable pub extract_json_string_array : Bytes → Bytes → Option (List Bytes)
extract_json_string_array json key = elim (after_first (double_quote ∷ key ++ codes "\":[") json) [
  | none ↦ none
  | some rest ↦ some (read_array between rest).values
]
