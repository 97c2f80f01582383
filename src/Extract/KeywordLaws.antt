-- ===== src/Extract/KeywordLaws.antt =====
-- Where `FindKeywordToken` of src/core/parser_sql_extractors.cpp looks, and what it finds.
use openivm.Base.{
  ◌≡◌, ◌⊎◌, refl, sym, ap, ◌∙◌, ℕ, zero, suc, ◌+◌, ◌≤◌, Bool, true, false, ◌&&◌, [], ◌∷◌, Option,
  none, some, Bytes, arith, ltb, length, drop, get_elem?, inl, inr, if◌then◌else◌,
}
use mathlib.Core.Path.{subst}
use mathlib.Core.Option.{some-injective}
use openivm.Sql.Split.{peek}
use openivm.Extract.Chars.{shift_by}
use openivm.Extract.Keywords.{
  QuoteMode, outside, next_mode, compares, token_at, find_from, before_position, find_keyword_token,
}

-- The character in front of position i of a text that `before` stands in front of.
abbrev front : Option ℕ → Bytes → ℕ → Option ℕ
front before s zero = before
front before s (suc i) = get_elem? s i

found-cases :
    (short here : Bool) (later : Option ℕ) (i : ℕ)
    → (if short then none else if here then some 0 else shift_by 1 later) ≡ some i
    → ((here ≡ true) × (i ≡ 0)) ⊎ ((j : ℕ) × (later ≡ some j) × (i ≡ suc j))
found-cases true here later i h = cc
found-cases false true later i h = inl (refl, sym (some-injective _ _ h))
found-cases false false none i h = cc
found-cases false false (some j) i h = inr (j, refl, sym (some-injective _ _ h) ∙ omega arith)

and_right : (b c : Bool) → (b && c) ≡ true → c ≡ true
and_right true c h = h
and_right false c h = cc

front_step : (c : ℕ) (s : Bytes) (j : ℕ) → front (some c) s j ≡ get_elem? (c ∷ s) j
front_step c s zero = refl
front_step c s (suc j) = refl

find_from-cases :
    (keyword : Bytes) (mode : QuoteMode) (before : Option ℕ) (c : ℕ) (s : Bytes) (i : ℕ)
    → find_from keyword mode before (c ∷ s) ≡ some i
    → ((token_at keyword before (c ∷ s) ≡ true) × (i ≡ 0))
      ⊎ ((j : ℕ) × (find_from keyword (next_mode mode c (peek s)) (some c) s ≡ some j)
          × (i ≡ suc j))
unfolding find_from
find_from-cases keyword mode before c s i h =
    elim (found-cases (ltb (length (c ∷ s)) (length keyword))
      (compares mode c && token_at keyword before (c ∷ s)) _ i h) [
        | inl (here, first) ↦ inl (and_right _ _ here, first)
        | inr later ↦ inr later
      ]

some-none : {i : ℕ} → some i ≡ none → ⊥
some-none e = cc

find_from_nil :
    (keyword : Bytes) (mode : QuoteMode) (before : Option ℕ)
    → find_from keyword mode before [] ≡ none
unfolding find_from
find_from_nil keyword mode before = refl

find_from-token :
    (keyword : Bytes) (mode : QuoteMode) (before : Option ℕ) (s : Bytes) (i : ℕ)
    → find_from keyword mode before s ≡ some i
    → token_at keyword (front before s i) (drop i s) ≡ true
find_from-token keyword mode before [] i h =
    elim (some-none (sym h ∙ find_from_nil keyword mode before)) [ ]
find_from-token keyword mode before (c ∷ s) i h =
    elim (find_from-cases keyword mode before c s i h) [
      | inl (here, first) ↦
          subst (λ k. token_at keyword (front before (c ∷ s) k) (drop k (c ∷ s)) ≡ true) (sym first)
            here
      | inr (j, later, next) ↦
          subst (λ k. token_at keyword (front before (c ∷ s) k) (drop k (c ∷ s)) ≡ true) (sym next)
            (ap (λ b. token_at keyword b (drop j s)) (sym (front_step c s j))
              ∙ find_from-token keyword (next_mode mode c (peek s)) (some c) s j later)
    ]

drop_nil : (n : ℕ) → drop {A = ℕ} n [] ≡ []
drop_nil zero = refl
drop_nil (suc n) = refl

zero_plus : (n : ℕ) → zero + n ≡ n
zero_plus n = omega arith

plus_zero : (n : ℕ) → n + zero ≡ n
plus_zero n = omega arith

suc_plus : (m n : ℕ) → suc m + n ≡ suc (m + n)
suc_plus m n = omega arith

plus_suc : (m n : ℕ) → m + suc n ≡ suc (m + n)
plus_suc m n = omega arith

drop-drop : (m n : ℕ) (s : Bytes) → drop n (drop m s) ≡ drop (m + n) s
drop-drop zero n s = rw (zero_plus n) refl
drop-drop (suc m) n [] = rw (suc_plus m n) (drop_nil n)
drop-drop (suc m) n (c ∷ s) = rw (suc_plus m n) (drop-drop m n s)

get_elem?-drop : (m n : ℕ) (s : Bytes) → get_elem? (drop m s) n ≡ get_elem? s (m + n)
get_elem?-drop zero n s = rw (zero_plus n) refl
get_elem?-drop (suc m) n [] = refl
get_elem?-drop (suc m) n (c ∷ s) = rw (suc_plus m n) (get_elem?-drop m n s)

front-before_position :
    (text : Bytes) (from i : ℕ)
    → front (before_position text from) (drop from text) i ≡ before_position text (from + i)
unfolding before_position
front-before_position text from zero = rw (plus_zero from) refl
front-before_position text from (suc i) = rw (plus_suc from i) (get_elem?-drop from i text)

shift_by-cases :
    (n : ℕ) (r : Option ℕ) (pos : ℕ)
    → shift_by n r ≡ some pos
    → (i : ℕ) × (r ≡ some i) × (pos ≡ n + i)
shift_by-cases n none pos h = cc
shift_by-cases n (some i) pos h = (i, refl, sym (some-injective _ _ h))

-- What is found is the keyword between delimiters, at the position where the search starts or behind
-- it.
pub find_keyword_token-token_at :
    (text keyword : Bytes) (from pos : ℕ)
    → find_keyword_token text keyword from ≡ some pos
    → (token_at keyword (before_position text pos) (drop pos text) ≡ true) × (from ≤ pos)
unfolding find_keyword_token
find_keyword_token-token_at text keyword from pos h =
    let (i, found, at) = shift_by-cases from _ pos h in
    (
      subst (λ k. (token_at keyword (before_position text k) (drop k text) ≡ true)) (sym at)
          (sym (
              ap (λ b. token_at keyword b (drop (from + i) text))
                (front-before_position text from i))
            ∙ sym (
                ap (λ t. token_at keyword (front (before_position text from) (drop from text) i) t)
                  (drop-drop from i text))
            ∙ find_from-token keyword outside (before_position text from) (drop from text) i found),
      omega (arith, at),
    )
