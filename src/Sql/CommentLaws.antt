-- ===== src/Sql/CommentLaws.antt =====
-- What src/core/sql_utils.cpp leaves alone when it strips comments or lowers a text: the strings of a
-- text that is made of code, strings and line comments.
use openivm.Base.{
  ℕ, Bool, true, false, ◌||◌, List, [], ◌∷◌, ◌++◌, Bytes, ◌==◌, ◌≡◌, refl, sym, ap, ◌∙◌, map, arith,
  Bool-cases, inl, inr, All,
}
use openivm.Sql.Chars.{quote, newline, escape_single_quotes}
use openivm.Sql.Comments.{
  outside, in_string, in_comment, strip_next, strip_keeps, strip_from, strip_line_comments,
  lowercase_from, sql_to_lowercase,
}

-- A piece of SQL: code, a value that is written as a literal, or a line comment with its line's end.
pub data Piece : Type 0 where
  code literal comment : Bytes → Piece

unfoldable pub piece_text : Piece → Bytes
piece_text (code s) = s
piece_text (literal v) = quote ∷ escape_single_quotes v ++ quote ∷ []
piece_text (comment s) = 45 ∷ 45 ∷ s ++ newline ∷ []

unfoldable pub text_of : List Piece → Bytes
unfolding piece_text
text_of [] = []
text_of (p ∷ ps) = piece_text p ++ text_of ps

-- The text without its comments, of which the ends of the lines stay.
unfoldable pub without_comments : List Piece → Bytes
unfolding piece_text
without_comments [] = []
without_comments (code s ∷ ps) = s ++ without_comments ps
without_comments (literal v ∷ ps) = piece_text (literal v) ++ without_comments ps
without_comments (comment s ∷ ps) = newline ∷ without_comments ps

-- No character of a text is one of two.
abbrev pub Avoids : ℕ → ℕ → Bytes → Type 0
Avoids a b s = All (λ c. ((c == a) || (c == b)) ≡ false) s

-- Code has no quote and no dash, a comment ends with its first line.
abbrev pub IsPiece : Piece → Type 0
IsPiece (code s) = Avoids quote 45 s
IsPiece (literal v) = Unit
IsPiece (comment s) = Avoids newline newline s

append_assoc : (xs ys zs : Bytes) → (xs ++ ys) ++ zs ≡ xs ++ (ys ++ zs)
append_assoc [] ys zs = refl
append_assoc (x ∷ xs) ys zs = ap (λ (l : Bytes). x ∷ l) (append_assoc xs ys zs)

or_false : (a b : Bool) → (a || b) ≡ false → (a ≡ false) × (b ≡ false)
or_false a b h = (ground arith, ground arith)

strip-escaped :
    (v rest : Bytes)
    → strip_from in_string (escape_single_quotes v ++ quote ∷ rest)
      ≡ escape_single_quotes v ++ quote ∷ strip_from outside rest
unfolding escape_single_quotes strip_from strip_next strip_keeps
strip-escaped [] rest = refl
strip-escaped (c ∷ v) rest = elim (Bool-cases (c == quote)) [
  | inl e ↦ rw e (ap (λ (s : Bytes). quote ∷ quote ∷ s) (strip-escaped v rest))
  | inr e ↦ rw e (rw e (ap (λ (s : Bytes). c ∷ s) (strip-escaped v rest)))
]

strip-code :
    (s rest : Bytes)
    → Avoids quote 45 s
    → strip_from outside (s ++ rest) ≡ s ++ strip_from outside rest
unfolding strip_from strip_next strip_keeps
strip-code [] rest avoids = refl
strip-code (c ∷ s) rest (here, avoids) =
    let (no_quote, no_dash) = or_false (c == quote) (c == 45) here in
    rw (no_quote, no_dash) (ap (λ (l : Bytes). c ∷ l) (strip-code s rest avoids))

strip-comment :
    (s rest : Bytes)
    → Avoids newline newline s
    → strip_from in_comment (s ++ newline ∷ rest) ≡ newline ∷ strip_from outside rest
unfolding strip_from strip_next strip_keeps
strip-comment [] rest avoids = refl
strip-comment (c ∷ s) rest (here, avoids) =
    let (no_newline, same) = or_false (c == newline) (c == newline) here in
    rw no_newline (strip-comment s rest avoids)

strip-literal :
    (v rest : Bytes)
    → strip_from outside (piece_text (literal v) ++ rest)
      ≡ piece_text (literal v) ++ strip_from outside rest
unfolding strip_from strip_next strip_keeps piece_text
strip-literal v rest =
    ap (λ (l : Bytes). quote ∷ strip_from in_string l)
      (append_assoc (escape_single_quotes v) (quote ∷ []) rest)
    ∙ ap (λ (l : Bytes). quote ∷ l) (strip-escaped v rest)
    ∙ ap (λ (l : Bytes). quote ∷ l)
        (sym (append_assoc (escape_single_quotes v) (quote ∷ []) (strip_from outside rest)))

strip-line :
    (s rest : Bytes)
    → Avoids newline newline s
    → strip_from outside (piece_text (comment s) ++ rest) ≡ newline ∷ strip_from outside rest
unfolding strip_from strip_next strip_keeps piece_text
strip-line s rest avoids =
    ap (strip_from in_comment) (append_assoc s (newline ∷ []) rest) ∙ strip-comment s rest avoids

-- Stripping line comments takes the comments of a text out, up to the ends of their lines, and nothing
-- else: code without quotes and dashes and the literals stay, whatever the literals hold.
pub strip_line_comments-text_of :
    (ps : List Piece) → All IsPiece ps → strip_line_comments (text_of ps) ≡ without_comments ps
unfolding strip_line_comments strip_from text_of without_comments piece_text
strip_line_comments-text_of [] good = refl
strip_line_comments-text_of (code s ∷ ps) (here, good) =
    strip-code s (text_of ps) here
    ∙ ap (λ (l : Bytes). s ++ l) (strip_line_comments-text_of ps good)
strip_line_comments-text_of (literal v ∷ ps) (here, good) =
    strip-literal v (text_of ps)
    ∙ ap (λ (l : Bytes). piece_text (literal v) ++ l) (strip_line_comments-text_of ps good)
strip_line_comments-text_of (comment s ∷ ps) (here, good) =
    strip-line s (text_of ps) here
    ∙ ap (λ (l : Bytes). newline ∷ l) (strip_line_comments-text_of ps good)

-- A piece that lowering takes as it is meant: code without quotes, or a literal.
abbrev pub Lowers : Piece → Type 0
Lowers (code s) = Avoids quote quote s
Lowers (literal v) = Unit
Lowers (comment s) = ⊥

module _ (tolower : ℕ → ℕ) where
  -- The text with its code in lower case.
  unfoldable pub lowered : List Piece → Bytes
  unfolding piece_text
  lowered [] = []
  lowered (code s ∷ ps) = map tolower s ++ lowered ps
  lowered (p ∷ ps) = piece_text p ++ lowered ps

module _ (tolower : ℕ → ℕ) (quote_stays : tolower quote ≡ quote) where
  lowercase-escaped :
      (v rest : Bytes)
      → lowercase_from tolower true (escape_single_quotes v ++ quote ∷ rest)
        ≡ escape_single_quotes v ++ quote ∷ lowercase_from tolower false rest
  unfolding escape_single_quotes lowercase_from
  lowercase-escaped [] rest = ap (λ (c : ℕ). c ∷ lowercase_from tolower false rest) quote_stays
  lowercase-escaped (c ∷ v) rest = elim (Bool-cases (c == quote)) [
    | inl e ↦ rw e (rw (quote_stays, lowercase-escaped v rest) refl)
    | inr e ↦ rw e (rw e (ap (λ (s : Bytes). c ∷ s) (lowercase-escaped v rest)))
  ]

  lowercase-code :
      (s rest : Bytes)
      → Avoids quote quote s
      → lowercase_from tolower false (s ++ rest)
        ≡ map tolower s ++ lowercase_from tolower false rest
  unfolding lowercase_from
  lowercase-code [] rest avoids = refl
  lowercase-code (c ∷ s) rest (here, avoids) =
      let (no_quote, same) = or_false (c == quote) (c == quote) here in
      rw no_quote (ap (λ (l : Bytes). tolower c ∷ l) (lowercase-code s rest avoids))

  lowercase-literal :
      (v rest : Bytes)
      → lowercase_from tolower false (piece_text (literal v) ++ rest)
        ≡ piece_text (literal v) ++ lowercase_from tolower false rest
  unfolding lowercase_from piece_text
  lowercase-literal v rest =
      ap (λ (l : Bytes). quote ∷ lowercase_from tolower true l)
        (append_assoc (escape_single_quotes v) (quote ∷ []) rest)
      ∙ ap (λ (l : Bytes). quote ∷ l) (lowercase-escaped v rest)
      ∙ ap (λ (l : Bytes). quote ∷ l)
          (sym (
            append_assoc (escape_single_quotes v) (quote ∷ []) (lowercase_from tolower false rest)))

  -- Lowering a text of code without quotes and of literals lowers the code and keeps every literal as it
  -- is, whatever it holds, if a quote is its own lower case.
  pub sql_to_lowercase-text_of :
      (ps : List Piece) → All Lowers ps → sql_to_lowercase tolower (text_of ps) ≡ lowered tolower ps
  unfolding sql_to_lowercase lowercase_from text_of lowered piece_text
  sql_to_lowercase-text_of [] good = refl
  sql_to_lowercase-text_of (code s ∷ ps) (here, good) =
      lowercase-code s (text_of ps) here
      ∙ ap (λ (l : Bytes). map tolower s ++ l) (sql_to_lowercase-text_of ps good)
  sql_to_lowercase-text_of (literal v ∷ ps) (here, good) =
      lowercase-literal v (text_of ps)
      ∙ ap (λ (l : Bytes). piece_text (literal v) ++ l) (sql_to_lowercase-text_of ps good)
  sql_to_lowercase-text_of (comment s ∷ ps) (here, good) = absurd here
