-- ===== src/Extract/SemiAntiLaws.antt =====
-- What `ExtractSemiAntiJoin` of src/core/parser_sql_extractors.cpp promises of a result.
use openivm.Base.{
  ◌≡◌, refl, sym, ap, ◌∙◌, ℕ, ◌+◌, ◌||◌, Bool, true, false, not, List, [], ◌∷◌, Option, none, some,
  Bytes, bytes_eq, codes, is_empty, if◌then◌else◌,
}
use mathlib.Core.Path.{subst}
use mathlib.Core.Option.{some-injective}
use openivm.Classifier.Reasons.{is_set}
use openivm.Extract.Chars.{contains_char}
use openivm.Extract.Keywords.{find_keyword_token}
use openivm.Extract.Tokens.{between}
use openivm.Extract.FilteredLaws.{some_of, else_some, if_some}
use openivm.Extract.SemiAnti.{
  SemiAntiExtract, TableRef, JoinKeyword, one_keyword, read_table, with_predicate, with_left,
  with_outputs, with_join, extract_semi_anti_join,
}

then_some :
    {A : Type 0} (b : Bool) (r : Option A) (y : A) → (if b then r else none) ≡ some y → r ≡ some y
then_some true r y h = h
then_some false r y h = cc

-- The type is the keyword's, and there is a predicate.
record Typed (key : JoinKeyword) (e : SemiAntiExtract) : Type 0 where
  pub type : e.join_type ≡ (if key.is_semi then codes "semi" else codes "anti")
  pub predicate : is_empty e.predicate ≡ false

module _ (trim lower : Bytes → Bytes) (sql : Bytes) (key : JoinKeyword) where
  with_predicate-Typed :
      (outputs : List Bytes × List Bytes) (left right : TableRef) (on_pos : ℕ) (e : SemiAntiExtract)
      → with_predicate trim lower sql key outputs left right on_pos ≡ some e
      → Typed key e
  unfolding with_predicate
  with_predicate-Typed (names, exprs) left right on_pos e h =
      let (some_predicate, same) = if_some _ _ _ h in
      subst (λ x. Typed key x) same (record { type = refl; predicate = some_predicate })

  with_left-Typed :
      (outputs : List Bytes × List Bytes) (left : TableRef) (e : SemiAntiExtract)
      → with_left trim lower sql key outputs left ≡ some e
      → Typed key e
  unfolding with_left
  with_left-Typed outputs left e h =
      let gap = lower (between sql left.behind key.position) in
      let (right, then_on) =
        some_of (read_table trim lower sql (key.position + 9) (codes "on" ∷ []))
          (λ right. elim (find_keyword_token (lower sql) (codes "on") right.behind) [
            | none ↦ none
            | some on_pos ↦ with_predicate trim lower sql key outputs left right on_pos
          ])
          e
          (else_some (is_set (find_keyword_token gap (codes "join") 0) || contains_char 44 gap) _ e
            h) in
      let (on_pos, then_predicate) =
        some_of (find_keyword_token (lower sql) (codes "on") right.behind)
          (λ on_pos. with_predicate trim lower sql key outputs left right on_pos) e then_on in
      with_predicate-Typed outputs left right on_pos e then_predicate

  with_outputs-Typed :
      (from_pos : ℕ) (outputs : Option (List Bytes × List Bytes)) (e : SemiAntiExtract)
      → with_outputs trim lower sql key from_pos outputs ≡ some e
      → Typed key e
  unfolding with_outputs
  with_outputs-Typed from_pos none e h = cc
  with_outputs-Typed from_pos (some outputs) e h =
      let (left, then_left) =
        some_of (read_table trim lower sql (from_pos + 4) (codes "semi" ∷ codes "anti" ∷ []))
          (λ left. with_left trim lower sql key outputs left) e h in
      with_left-Typed outputs left e then_left

  with_join-Typed :
      (from_pos select_pos : Option ℕ) (e : SemiAntiExtract)
      → with_join trim lower sql key from_pos select_pos ≡ some e
      → Typed key e
  unfolding with_join
  with_join-Typed none select_pos e h = cc
  with_join-Typed (some from_pos) none e h = cc
  with_join-Typed (some from_pos) (some select_pos) e h =
      with_outputs-Typed from_pos _ e (then_some _ _ e h)

is_semi_name :
    (is_semi : Bool)
    → (bytes_eq (if is_semi then codes "semi" else codes "anti") (codes "semi") ≡ is_semi)
      × (bytes_eq (if is_semi then codes "semi" else codes "anti") (codes "anti") ≡ not is_semi)
is_semi_name true = (refl, refl)
is_semi_name false = (refl, refl)

one_keyword-is_semi :
    (semi anti : Option ℕ) (key : JoinKeyword)
    → one_keyword semi anti ≡ some key
    → (is_set semi ≡ key.is_semi) × (is_set anti ≡ not key.is_semi)
unfolding one_keyword
one_keyword-is_semi (some s) (some a) key h = cc
one_keyword-is_semi (some s) none key h =
    let same = some-injective _ _ h in (ap (λ k. k.is_semi) same, ap (λ k. not k.is_semi) same)
one_keyword-is_semi none (some a) key h =
    let same = some-injective _ _ h in (ap (λ k. k.is_semi) same, ap (λ k. not k.is_semi) same)
one_keyword-is_semi none none key h = cc

module _ (trim lower : Bytes → Bytes) (sql : Bytes) where
  keyword-type :
      (key : Option JoinKeyword) (semi anti from_pos select_pos : Option ℕ) (e : SemiAntiExtract)
      → one_keyword semi anti ≡ key
      → elim key [ none ↦ none | some k ↦ with_join trim lower sql k from_pos select_pos ] ≡ some e
      → (is_set semi ≡ bytes_eq e.join_type (codes "semi"))
        × (is_set anti ≡ bytes_eq e.join_type (codes "anti"))
        × (is_empty e.predicate ≡ false)
  keyword-type none semi anti from_pos select_pos e found h = cc
  keyword-type (some key) semi anti from_pos select_pos e found h =
      let typed = with_join-Typed trim lower sql key from_pos select_pos e h in
      let (is_semi, is_anti) = one_keyword-is_semi semi anti key found in
      let (semi_name, anti_name) = is_semi_name key.is_semi in
      (
        is_semi ∙ sym semi_name ∙ ap (λ t. bytes_eq t (codes "semi")) (sym typed.type),
        is_anti ∙ sym anti_name ∙ ap (λ t. bytes_eq t (codes "anti")) (sym typed.type),
        typed.predicate,
      )

-- If a semi or anti join is extracted, its type is that of the one of the two keywords that the query
-- has, outside of strings and quoted identifiers, and its predicate is not empty.
pub extract_semi_anti_join-type :
    (trim lower : Bytes → Bytes) (sql : Bytes) (e : SemiAntiExtract)
    → extract_semi_anti_join trim lower sql ≡ some e
    → (is_set (find_keyword_token (lower sql) (codes "semi join") 0)
        ≡ bytes_eq e.join_type (codes "semi"))
      × (is_set (find_keyword_token (lower sql) (codes "anti join") 0)
          ≡ bytes_eq e.join_type (codes "anti"))
      × (is_empty e.predicate ≡ false)
unfolding extract_semi_anti_join
extract_semi_anti_join-type trim lower sql e h =
    let text = lower sql in
    keyword-type trim lower sql
      (one_keyword (find_keyword_token text (codes "semi join") 0)
        (find_keyword_token text (codes "anti join") 0))
      (find_keyword_token text (codes "semi join") 0)
      (find_keyword_token text (codes "anti join") 0) (find_keyword_token text (codes "from") 0)
      (find_keyword_token text (codes "select") 0) e refl h
