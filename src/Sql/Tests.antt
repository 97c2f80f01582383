-- ===== src/Sql/Tests.antt =====
-- Texts with the characters that src/core/sql_utils.cpp takes care of.
use openivm.Base.{
  if◌then◌else◌, List, ◌+◌, ◌&&◌, leb, ℕ, ◌≡◌, refl, Bool, false, [], ◌∷◌, ◌++◌, map, some, Bytes,
  codes, ◌==◌,
}
use openivm.Sql.Chars.{double_quote}
use openivm.Sql.Json.{
  escape_json, json_quote, json_rest, json_array, key_needle, after_prefix, after_first,
  extract_json_string, between, read_array, read_element, next_state, extract_json_string_array,
}
use openivm.Sql.JsonRoundTrip
use openivm.Sql.JsonRoundTrip.{without_newlines}
use openivm.Sql.Split.{
  plain, at, pieces, step, splits_at, split_sql_statements, statements_of, trim_sql_fragment,
  trim_start, trim_end,
}
use openivm.Sql.SplitLaws
use openivm.Sql.SplitLaws.{join_pieces}
use openivm.Sql.Comments.{
  strip_line_comments, strip_from, strip_next, strip_keeps, sql_to_lowercase,
}
use openivm.Sql.CommentLaws
use openivm.Sql.CommentLaws.{
  Piece, code, literal, comment, text_of, without_comments, lowered, IsPiece, Lowers, Avoids,
}

abbrev awkward : Bytes
awkward = codes "it's; \"-- x\\y\nz"

abbrev two_statements : Bytes
two_statements = codes "a ';' b ; -- c;\n d"

abbrev is_blank : ℕ → Bool
is_blank c = c == 32

splits_in_two :
    split_sql_statements is_blank two_statements ≡ codes "a ';' b" ∷ codes "-- c;\n d" ∷ []
unfolding split_sql_statements statements_of trim_sql_fragment trim_start trim_end pieces step
    splits_at
splits_in_two = refl

-- A line break in an array comes back as the letter n.
loses_newline :
    extract_json_string_array (codes "{\"k\":" ++ json_array (codes "a\nb" ∷ [])) (codes "k")
    ≡ some (codes "anb" ∷ [])
unfolding extract_json_string_array json_array json_quote json_rest escape_json after_first
    after_prefix read_array read_element next_state
loses_newline = refl

extract_json_string-json_quote_example :
    extract_json_string
      (codes "{"
        ++ (key_needle (codes "sql") ++ (escape_json awkward ++ double_quote ∷ codes ",\"n\":1}")))
      (codes "sql")
    ≡ some awkward
extract_json_string-json_quote_example =
    JsonRoundTrip.extract_json_string-json_quote (codes "sql") awkward (codes ",\"n\":1}")

read_array-json_array_example :
    (read_array between (json_array (awkward ∷ codes "b" ∷ []) ++ codes "}")).values
    ≡ map without_newlines (awkward ∷ codes "b" ∷ [])
read_array-json_array_example =
    JsonRoundTrip.read_array-json_array (awkward ∷ codes "b" ∷ []) (codes "}")

join-pieces_example : join_pieces (pieces (at plain false) two_statements) ≡ two_statements
join-pieces_example = SplitLaws.join-pieces (at plain false) two_statements

abbrev lower_letter : ℕ → ℕ
lower_letter c = if leb 65 c && leb c 90 then c + 32 else c

strips_comment : strip_line_comments (codes "a -- b\nc '--' d") ≡ codes "a \nc '--' d"
unfolding strip_line_comments strip_from strip_next strip_keeps
strips_comment = refl

abbrev commented : List Piece
commented =
    code (codes "Select ")
    ∷ literal awkward
    ∷ code (codes " ")
    ∷ comment (codes "it's")
    ∷ code (codes "AND")
    ∷ []

strip_line_comments-text_of_example :
    strip_line_comments (text_of commented) ≡ without_comments commented
strip_line_comments-text_of_example = CommentLaws.strip_line_comments-text_of commented (
  (refl, (refl, (refl, (refl, (refl, (refl, (refl, tt))))))),
  (tt, ((refl, tt), ((refl, (refl, (refl, (refl, tt)))), ((refl, (refl, (refl, tt))), tt)))),
)

abbrev mixed : List Piece
mixed = code (codes "Select ") ∷ literal awkward ∷ code (codes "AND") ∷ literal awkward ∷ []

sql_to_lowercase-text_of_example :
    sql_to_lowercase lower_letter (text_of mixed) ≡ lowered lower_letter mixed
sql_to_lowercase-text_of_example = CommentLaws.sql_to_lowercase-text_of lower_letter refl mixed (
  (refl, (refl, (refl, (refl, (refl, (refl, (refl, tt))))))),
  (tt, ((refl, (refl, (refl, tt))), (tt, tt))),
)
