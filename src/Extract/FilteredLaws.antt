-- ===== src/Extract/FilteredLaws.antt =====
-- `ExtractFilteredGroupCount` of src/core/parser_sql_extractors.cpp: its loops end, and what it promises of a
-- result.
use openivm.Base.{
  ◌≡◌, ◌⊎◌, refl, ap, ◌∙◌, ℕ, zero, suc, ◌+◌, ◌-◌, ◌≤◌, ◌<◌, Bool, true, false, ◌&&◌, ◌||◌, not,
  List, [], ◌∷◌, Option, none, some, Bytes, codes, arith, ◌==◌, length, drop, Bool-cases, inl, inr,
  if◌then◌else◌,
}
use mathlib.Core.Option.{some-injective}
use openivm.Classifier.Reasons.{is_set}
use openivm.Sql.Json.{after_prefix}
use openivm.Extract.Keywords.{ok_left, ok_right, token_at, before_position, find_keyword_token}
use openivm.Extract.KeywordLaws.{find_keyword_token-token_at}
use openivm.Extract.Filtered.{
  add_position, keyword_positions, with_positions, counts_rows, extract_with,
  extract_filtered_group_count,
}

none-some : {r : Bytes} → none ≡ some r → ⊥
none-some e = cc

none_is_some : {A : Type 0} {y : A} → none ≡ some y → ⊥
none_is_some e = cc

length-after_prefix :
    (keyword text rest : Bytes)
    → after_prefix keyword text ≡ some rest
    → length keyword ≤ length text
unfolding after_prefix
length-after_prefix [] text rest h = omega arith
length-after_prefix (c ∷ k) [] rest h = cc
length-after_prefix (c ∷ k) (d ∷ s) rest h = elim (Bool-cases (c == d)) [
  | inl e ↦ omega (arith, length-after_prefix k s rest (rw e at h))
  | inr e ↦ elim (none-some (rw e at h)) [ ]
]

token_at-prefix :
    (found : Option Bytes) (b : Bool)
    → (ok_right found && b) ≡ true
    → (rest : Bytes) × (found ≡ some rest)
unfolding ok_right
token_at-prefix none b h = cc
token_at-prefix (some rest) b h = (rest, refl)

length-token_at :
    (keyword text : Bytes) (before : Option ℕ)
    → token_at keyword before text ≡ true
    → length keyword ≤ length text
unfolding token_at
length-token_at keyword text before h =
    let (rest, e) = token_at-prefix (after_prefix keyword text) (ok_left before) h in
    length-after_prefix keyword text rest e

length-drop : (n : ℕ) (s : Bytes) → length (drop n s) ≡ length s - n
length-drop zero s = omega arith
length-drop (suc n) [] = omega arith
length-drop (suc n) (c ∷ s) = omega (arith, length-drop n s)

Option-cases {ℓ} : {A : Type ℓ} (r : Option A) → (r ≡ none) ⊎ ((x : A) × (r ≡ some x))
Option-cases none = inl refl
Option-cases (some x) = inr (x, refl)

find_keyword_token_bound :
    (text keyword : Bytes) (from p : ℕ)
    → 0 < length keyword
    → find_keyword_token text keyword from ≡ some p
    → (from ≤ p) × (p + length keyword ≤ length text)
find_keyword_token_bound text keyword from p long h =
    let found = find_keyword_token-token_at text keyword from p h in
    (
      found.1,
      omega (
        arith,
        long,
        length-token_at keyword (drop p text) (before_position text p) found.0,
        length-drop p text,
      ),
    )

add_position_set :
    (p : ℕ) (ps : Option (List ℕ)) → is_set ps ≡ true → is_set (add_position p ps) ≡ true
unfolding add_position
add_position_set p none h = h
add_position_set p (some ps) h = refl

positions_end :
    (fuel : ℕ) (text keyword : Bytes) (from : ℕ)
    → find_keyword_token text keyword from ≡ none
    → keyword_positions (suc fuel) text keyword from ≡ some []
unfolding keyword_positions
positions_end fuel text keyword from h =
    ap
      (λ r. elim r [
        | none ↦ some []
        | some q ↦ add_position q (keyword_positions fuel text keyword (q + length keyword))
      ])
      h

positions_next :
    (fuel : ℕ) (text keyword : Bytes) (from p : ℕ)
    → find_keyword_token text keyword from ≡ some p
    → keyword_positions (suc fuel) text keyword from
      ≡ add_position p (keyword_positions fuel text keyword (p + length keyword))
unfolding keyword_positions
positions_next fuel text keyword from p h =
    ap
      (λ r. elim r [
        | none ↦ some []
        | some q ↦ add_position q (keyword_positions fuel text keyword (q + length keyword))
      ])
      h

-- The loop over the positions of a keyword that is not empty ends within one turn for each character.
keyword_positions-total :
    (fuel : ℕ) (text keyword : Bytes) (from : ℕ)
    → 0 < length keyword
    → 0 < fuel
    → length text < fuel + from
    → is_set (keyword_positions fuel text keyword from) ≡ true
keyword_positions-total zero text keyword from long some_fuel enough = elim some_fuel [ ]
keyword_positions-total (suc fuel) text keyword from long some_fuel enough =
    elim (Option-cases (find_keyword_token text keyword from)) [
      | inl none_left ↦ ap is_set (positions_end fuel text keyword from none_left)
      | inr (p, found) ↦
          let bound = find_keyword_token_bound text keyword from p long found in
          ap is_set (positions_next fuel text keyword from p found)
          ∙ add_position_set p _ (
              keyword_positions-total fuel text keyword (p + length keyword) long
                (omega (arith, bound.0, bound.1, enough))
                (omega (arith, bound.0, bound.1, enough, long)))
    ]

with_positions_set :
    {R : Type 0} (selects wheres : Option (List ℕ)) (f : List ℕ → List ℕ → R)
    → is_set selects ≡ true
    → is_set wheres ≡ true
    → is_set (with_positions selects wheres f) ≡ true
unfolding with_positions
with_positions_set none wheres f h k = h
with_positions_set (some s) none f h k = k
with_positions_set (some s) (some w) f h k = refl

if_set :
    {A : Type 0} (b : Bool) (x y : Option A)
    → is_set x ≡ true
    → is_set y ≡ true
    → is_set (if b then x else y) ≡ true
if_set true x y h k = h
if_set false x y h k = k

pub if_some :
    {A : Type 0} (b : Bool) (x y : A)
    → (if b then none else some x) ≡ some y
    → (b ≡ false) × (x ≡ y)
if_some true x y h = cc
if_some false x y h = (refl, some-injective _ _ h)

pub passed :
    (a b less greater zero_literal empty : Bool)
    → (a || b || (not less && not greater) || not zero_literal || empty) ≡ false
    → ((less || greater) ≡ true) × (zero_literal ≡ true)
passed a b less greater zero_literal empty h = (
  ground (arith, Bool-cases less, Bool-cases greater, Bool-cases a, Bool-cases b),
  ground (
    arith,
    Bool-cases less,
    Bool-cases greater,
    Bool-cases zero_literal,
    Bool-cases a,
    Bool-cases b,
  ),
)

pub some_of :
    {A B : Type 0} (r : Option A) (f : A → Option B) (y : B)
    → elim r [ none ↦ none | some x ↦ f x ] ≡ some y
    → (x : A) × (f x ≡ some y)
some_of none f y h = cc
some_of (some x) f y h = (x, h)

pub else_some :
    {A : Type 0} (b : Bool) (r : Option A) (y : A) → (if b then none else r) ≡ some y → r ≡ some y
else_some true r y h = cc
else_some false r y h = h

pub if_some-some :
    {A : Type 0} (b : Bool) (r : Option (Option A)) (y : A)
    → (if b then r else some none) ≡ some (some y)
    → r ≡ some (some y)
if_some-some true r y h = h
if_some-some false r y h = elim (none_is_some (some-injective _ _ h)) [ ]

pub with_positions-some :
    {A : Type 0} (selects wheres : Option (List ℕ)) (f : List ℕ → List ℕ → Option A) (y : A)
    → with_positions selects wheres f ≡ some (some y)
    → (s : List ℕ) × (w : List ℕ) × (selects ≡ some s) × (wheres ≡ some w) × (f s w ≡ some y)
unfolding with_positions
with_positions-some none wheres f y h = cc
with_positions-some (some s) none f y h = cc
with_positions-some (some s) (some w) f y h = (s, w, refl, refl, some-injective _ _ h)

module _ (trim lower : Bytes → Bytes) (ci_equals : Bytes → Bytes → Bool) where
  -- Extraction always ends: the loops over the positions of "select" and of "where" have fuel enough.
  pub extract_filtered_group_count-total :
      (sql : Bytes) (output_names : List Bytes)
      → is_set (extract_filtered_group_count trim lower ci_equals sql output_names) ≡ true
  unfolding extract_filtered_group_count
  extract_filtered_group_count-total sql [] = refl
  extract_filtered_group_count-total sql (name ∷ []) =
      let text = lower sql in
      if_set (counts_rows trim lower ci_equals text) _ (some none)
        (with_positions_set (keyword_positions (suc (length text)) text (codes "select") 0)
          (keyword_positions (suc (length text)) text (codes "where") 0)
          (extract_with trim lower ci_equals sql name)
          (keyword_positions-total (suc (length text)) text (codes "select") 0 (omega arith)
            (omega arith) (omega arith))
          (keyword_positions-total (suc (length text)) text (codes "where") 0 (omega arith)
            (omega arith) (omega arith)))
        refl
  extract_filtered_group_count-total sql (name ∷ other ∷ names) = refl
