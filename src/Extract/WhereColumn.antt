-- ===== src/Extract/WhereColumn.antt =====
-- What the second loop of `ExtractFilteredGroupCount` (src/core/parser_sql_extractors.cpp) has seen.
use openivm.Base.{
  codes, zero, suc, All, length, ◌≡◌, refl, sym, ap, ◌∙◌, ℕ, ◌+◌, Bool, true, false, List, [], ◌∷◌,
  Option, none, some, Bytes, if◌then◌else◌,
}
use mathlib.Core.Path.{subst}
use mathlib.Core.Option.{some-injective}
use openivm.Extract.Parens.{find_clause_end}
use openivm.Extract.Keywords.{find_keyword_token}
use openivm.Extract.Tokens.{
  between, read_identifier_token, read_comparison_op, last_identifier_part,
}
use openivm.Extract.Filtered.{keyword_positions, add_position, Threshold, where_loop, try_where}

-- As some_of, with what the first part returned.
pub found_of :
    {A B : Type 0} (r : Option A) (f : A → Option B) (y : B)
    → elim r [ none ↦ none | some x ↦ f x ] ≡ some y
    → (x : A) × (r ≡ some x) × (f x ≡ some y)
found_of none f y h = cc
found_of (some x) f y h = (x, refl, h)

then_found :
    {A : Type 0} (b : Bool) (r : Option A) (y : A)
    → (if b then r else none) ≡ some y
    → (b ≡ true) × (r ≡ some y)
then_found true r y h = (refl, h)
then_found false r y h = cc

first_or :
    {A : Type 0} (r later : Option A) (t : A) (P : Type 0)
    → elim r [ none ↦ later | some x ↦ some x ] ≡ some t
    → (r ≡ some t → P)
    → (later ≡ some t → P)
    → P
first_or none later t P h now after = after h
first_or (some x) later t P h now after = now h

add_position-some :
    (p : ℕ) (r : Option (List ℕ)) (ps : List ℕ)
    → add_position p r ≡ some ps
    → (qs : List ℕ) × (r ≡ some qs) × (p ∷ qs ≡ ps)
unfolding add_position
add_position-some p none ps h = cc
add_position-some p (some qs) ps h = (qs, refl, some-injective _ _ h)

module _ (text keyword : Bytes) where
  -- A search for the keyword finds it there.
  abbrev pub Stands : ℕ → Type 0
  Stands p = (from : ℕ) × (find_keyword_token text keyword from ≡ some p)

  positions-Stands :
      (fuel from : ℕ) (found : Option ℕ) (ps : List ℕ)
      → ((next : ℕ) (qs : List ℕ)
          → keyword_positions fuel text keyword next ≡ some qs
          → All Stands qs)
      → find_keyword_token text keyword from ≡ found
      → elim found [
        | none ↦ some []
        | some p ↦ add_position p (keyword_positions fuel text keyword (p + length keyword))
      ]
        ≡ some ps
      → All Stands ps
  positions-Stands fuel from none ps later at h = subst (All Stands) (some-injective _ _ h) tt
  positions-Stands fuel from (some p) ps later at h =
      let (qs, rest, same) =
        add_position-some p (keyword_positions fuel text keyword (p + length keyword)) ps h in
      subst (All Stands) same ((from, at), later (p + length keyword) qs rest)

  -- The loops over the positions of a keyword see positions where it stands.
  pub keyword_positions-Stands :
      (fuel from : ℕ) (ps : List ℕ)
      → keyword_positions fuel text keyword from ≡ some ps
      → All Stands ps
  unfolding keyword_positions
  keyword_positions-Stands zero from ps h = cc
  keyword_positions-Stands (suc fuel) from ps h =
      positions-Stands fuel from (find_keyword_token text keyword from) ps
        (λ next qs. keyword_positions-Stands fuel next qs) refl h

module _ (trim lower : Bytes → Bytes) (ci_equals : Bytes → Bytes → Bool) (sql : Bytes) where
  -- A column that is the sum stands behind a WHERE, then the operator and the threshold.
  abbrev pub Compares : Bytes → Threshold → Type 0
  Compares alias t =
      (where_pos behind pos : ℕ) × (lhs : Bytes) × Stands (lower sql) (codes "where") where_pos
      × (read_identifier_token sql (where_pos + 5) ≡ some (lhs, behind))
      × (ci_equals (last_identifier_part trim lhs) alias ≡ true)
      × (read_comparison_op sql behind ≡ some (t.comparison_op, pos))
      × (t.threshold_sql ≡ trim (between sql pos (find_clause_end (lower sql) pos)))

  try_where-Compares :
      (alias : Bytes) (where_pos : ℕ) (t : Threshold)
      → Stands (lower sql) (codes "where") where_pos
      → try_where trim lower ci_equals sql alias where_pos ≡ some t
      → Compares alias t
  unfolding try_where
  try_where-Compares alias where_pos t stands h =
      let ((lhs, behind), read, rest) =
        found_of (read_identifier_token sql (where_pos + 5))
          (λ (x : Bytes × ℕ).
            if ci_equals (last_identifier_part trim x.0) alias
            then elim (read_comparison_op sql x.1) [
              | none ↦ none
              | some (op, pos) ↦ some (record {
                comparison_op = op;
                threshold_sql = trim (between sql pos (find_clause_end (lower sql) pos));
              })
            ]
            else none)
          t h in
      let (same, rest) = then_found (ci_equals (last_identifier_part trim lhs) alias) _ t rest in
      let ((op, pos), read_op, rest) =
        found_of (read_comparison_op sql behind)
          (λ (x : Bytes × ℕ). some (record {
            comparison_op = x.0;
            threshold_sql = trim (between sql x.1 (find_clause_end (lower sql) x.1));
          }))
          t rest in
      let is = some-injective _ _ rest in
      (
        where_pos,
        behind,
        pos,
        lhs,
        stands,
        read,
        same,
        read_op ∙ ap (λ (u : Threshold). some (u.comparison_op, pos)) is,
        ap (λ (u : Threshold). u.threshold_sql) (sym is),
      )

  pub where_loop-Compares :
      (alias : Bytes) (wheres : List ℕ) (t : Threshold)
      → All (Stands (lower sql) (codes "where")) wheres
      → where_loop trim lower ci_equals sql alias wheres ≡ some t
      → Compares alias t
  unfolding where_loop
  where_loop-Compares alias [] t stand h = cc
  where_loop-Compares alias (p ∷ ps) t (here, stand) h =
      first_or (try_where trim lower ci_equals sql alias p)
        (where_loop trim lower ci_equals sql alias ps) t (Compares alias t) h
        (try_where-Compares alias p t here) (where_loop-Compares alias ps t stand)
