-- ===== src/Sql/Names.antt =====
-- src/core/sql_utils.cpp: names of delta tables, and the texts that join columns. Quoting of an
-- identifier is DuckDB's `KeywordHelper`, and a parameter.
use openivm.Base.{
  Bool, true, false, ◌&&◌, List, [], ◌∷◌, ◌++◌, Option, none, some, Bytes, codes, ltb, leb, length,
  drop, if◌then◌else◌,
}
use openivm.Sql.Json.{after_prefix}

abbrev pub data_prefix : Bytes
data_prefix = codes "openivm_data_"

abbrev pub delta_prefix : Bytes
delta_prefix = codes "openivm_delta_"

abbrev pub has_prefix : Option Bytes → Bool
has_prefix none = false
has_prefix (some rest) = true

-- `SqlUtils::DeltaName`
unfoldable pub delta_name : Bytes → Bytes
unfolding after_prefix
delta_name name =
    if ltb (length data_prefix) (length name) && has_prefix (after_prefix data_prefix name)
    then delta_prefix ++ drop (length data_prefix) name
    else delta_prefix ++ name

-- `SqlUtils::IsDelta`
unfoldable pub is_delta : Bytes → Bool
unfolding after_prefix
is_delta name =
    leb (length delta_prefix) (length name) && has_prefix (after_prefix delta_prefix name)

-- What joins the texts of columns.
unfoldable pub join_with : Bytes → List Bytes → Bytes
join_with separator [] = []
join_with separator (c ∷ []) = c
join_with separator (c ∷ d ∷ cs) = c ++ separator ++ join_with separator (d ∷ cs)

abbrev each : (Bytes → Bytes) → List Bytes → List Bytes
each f [] = []
each f (c ∷ cs) = f c ∷ each f cs

module _ (quote_identifier : Bytes → Bytes) where
  unfoldable pub full_name : Bytes → Bytes → Bytes → Bytes
  full_name catalog schema table =
      quote_identifier catalog
      ++ codes "."
      ++ quote_identifier schema
      ++ codes "."
      ++ quote_identifier table

  -- `FullDeltaName`: the prefix of the data table is taken off before the name is made.
  unfoldable pub full_delta_name : Bytes → Bytes → Bytes → Bytes
  unfolding full_name delta_name
  full_delta_name catalog schema table =
      let stripped =
        if ltb (length data_prefix) (length table) && has_prefix (after_prefix data_prefix table)
        then drop (length data_prefix) table
        else table in
      full_name catalog schema (delta_name stripped)

  unfoldable pub join_quoted_columns : List Bytes → Bytes
  unfolding join_with
  join_quoted_columns columns = join_with (codes ", ") (each quote_identifier columns)

  unfoldable pub join_qualified_quoted_columns : List Bytes → Bytes → Bytes
  unfolding join_with
  join_qualified_quoted_columns columns alias =
      join_with (codes ", ") (each (λ c. alias ++ codes "." ++ quote_identifier c) columns)

  unfoldable pub build_all_null_predicate : List Bytes → Bytes
  unfolding join_with
  build_all_null_predicate columns =
      join_with (codes " AND ") (each (λ c. quote_identifier c ++ codes " IS NULL") columns)

  unfoldable pub build_null_safe_match : List Bytes → Bytes → Bytes → Bytes
  unfolding join_with
  build_null_safe_match columns lhs_alias rhs_alias = join_with (codes " AND ") (
      each
        (λ c.
          lhs_alias
          ++ codes "."
          ++ quote_identifier c
          ++ codes " IS NOT DISTINCT FROM "
          ++ rhs_alias
          ++ codes "."
          ++ quote_identifier c)
        columns)

  unfoldable pub build_null_safe_key_predicate : List Bytes → Bytes → Bytes → Bytes
  unfolding join_with
  build_null_safe_key_predicate columns left_prefix right_prefix = join_with (codes " AND ") (
      each
        (λ c.
          left_prefix
          ++ quote_identifier c
          ++ codes " IS NOT DISTINCT FROM "
          ++ right_prefix
          ++ quote_identifier c)
        columns)
