-- ===== src/Sql/SplitLaws.antt =====
-- What splitting a text of several statements (src/core/sql_utils.cpp) keeps together.
use openivm.Base.{
  ℕ, ◌≡◌, refl, sym, ap, ◌∙◌, Bool, true, false, not, List, [], ◌∷◌, ◌++◌, Bytes, is_empty, arith,
  Bool-cases, inl, inr,
}
use openivm.Sql.Split.{Scan, peek, advance, splits_at, add_first, pieces}

-- The pieces with the semicolons between them.
abbrev pub join_pieces : List Bytes → Bytes
join_pieces [] = []
join_pieces (p ∷ []) = p
join_pieces (p ∷ q ∷ ps) = p ++ 59 ∷ join_pieces (q ∷ ps)

not_none : List Bytes → Bool
not_none ps = not (is_empty ps)

join-add_first : (c : ℕ) (ps : List Bytes) → join_pieces (add_first c ps) ≡ c ∷ join_pieces ps
join-add_first c [] = refl
join-add_first c (p ∷ []) = refl
join-add_first c (p ∷ q ∷ ps) = refl

add_first-some : (c : ℕ) (ps : List Bytes) → is_empty (add_first c ps) ≡ false
add_first-some c [] = refl
add_first-some c (p ∷ ps) = refl

pieces-some : (scan : Scan) (s : Bytes) → is_empty (pieces scan s) ≡ false
unfolding pieces
pieces-some scan [] = refl
pieces-some scan (c ∷ s) = elim (Bool-cases (splits_at scan c)) [
  | inl e ↦ rw e refl
  | inr e ↦ rw e (add_first-some c _)
]

join-empty_first :
    (ps : List Bytes) → is_empty ps ≡ false → join_pieces ([] ∷ ps) ≡ 59 ∷ join_pieces ps
join-empty_first [] h = cc
join-empty_first (p ∷ ps) h = refl

splits_at-semicolon : (scan : Scan) (c : ℕ) → splits_at scan c ≡ true → c ≡ 59
unfolding splits_at
splits_at-semicolon scan c h = ground arith

-- Nothing of the text is lost or changed by the split: the pieces with semicolons between them are
-- the text.
pub join-pieces : (scan : Scan) (s : Bytes) → join_pieces (pieces scan s) ≡ s
unfolding pieces
join-pieces scan [] = refl
join-pieces scan (c ∷ s) =
    let next = advance scan c (peek s) in
    elim (Bool-cases (splits_at scan c)) [
      | inl e ↦ rw e (
          join-empty_first (pieces next s) (pieces-some next s)
          ∙ ap (λ (u : Bytes). 59 ∷ u) (join-pieces next s)
          ∙ ap (λ (d : ℕ). d ∷ s) (sym (splits_at-semicolon scan c e)))
      | inr e ↦
          rw e (join-add_first c (pieces next s) ∙ ap (λ (u : Bytes). c ∷ u) (join-pieces next s))
    ]

-- A text in front of the first piece.
abbrev pub add_text : Bytes → List Bytes → List Bytes
add_text [] ps = ps
add_text (c ∷ s) ps = add_first c (add_text s ps)
