-- ===== src/Classifier/Candidates.antt =====
-- `DeduplicateGroupColumns` of src/core/ivm_view_classifier.cpp: the names that its inner loop tries differ.
use openivm.Base.{
  ◌≡◌, ◌⊎◌, refl, sym, ap, ◌∙◌, ℕ, zero, suc, ◌+◌, ◌-◌, ◌*◌, ◌/◌, ◌%◌, ◌≤◌, ◌<◌, true, false, ◌||◌,
  List, [], ◌∷◌, ◌++◌, none, some, Bytes, codes, arith, ◌==◌, length, bytes_eq, bytes_eq_sound,
  Bool-cases, inl, inr, drop, drop-length, length-append, if◌then◌else◌,
}
use openivm.Checker.Facts.{member}
use openivm.Checker.Local.{decimal, to_string}
use openivm.Classifier.Dedup.{candidate_name}

-- The number that decimal digits stand for, after those that were read.
value_from : ℕ → Bytes → ℕ
value_from n [] = n
value_from n (c ∷ s) = value_from (n * 10 + (c - 48)) s

value_from-decimal :
    (fuel n : ℕ) (found : Bytes)
    → n < fuel
    → value_from 0 (decimal fuel n found) ≡ value_from n found
unfolding decimal value_from
value_from-decimal zero n found h = elim h [ ]
value_from-decimal (suc fuel) n found h = elim (Bool-cases (n / 10 == 0)) [
  | inl small ↦ rw small (ap (λ k. value_from k found) (ground (arith, small)))
  | inr large ↦ rw large (
      value_from-decimal fuel (n / 10) ((48 + n % 10) ∷ found) (ground (arith, large, h))
      ∙ ap (λ k. value_from k found) (omega arith))
]

to_string-injective : (m n : ℕ) → to_string m ≡ to_string n → m ≡ n
unfolding to_string value_from
to_string-injective m n h =
    sym (value_from-decimal (suc m) m [] (omega arith))
    ∙ ap (value_from 0) h
    ∙ value_from-decimal (suc n) n [] (omega arith)

too_long : (name rest : Bytes) → 0 < length rest → name ≡ name ++ rest → ⊥
too_long name rest h e = omega (arith, h, ap length e, length-append name rest)

candidate_name-injective :
    (name : Bytes) (i j : ℕ) → candidate_name name i ≡ candidate_name name j → i ≡ j
unfolding candidate_name
candidate_name-injective name zero zero h = refl
candidate_name-injective name zero (suc j) h =
    elim (too_long name (codes "_" ++ to_string (suc j)) (omega arith) h) [ ]
candidate_name-injective name (suc i) zero h =
    elim (too_long name (codes "_" ++ to_string (suc i)) (omega arith) (sym h)) [ ]
candidate_name-injective name (suc i) (suc j) h = to_string-injective (suc i) (suc j) (
    ap (drop 1) (
      sym (drop-length name (codes "_" ++ to_string (suc i)))
      ∙ ap (drop (length name)) h
      ∙ drop-length name (codes "_" ++ to_string (suc j))))

not_less : {i j : ℕ} → i ≡ j → i < j → ⊥
not_less e lt = omega (arith, e, lt)

different :
    (name : Bytes) (i j : ℕ)
    → i < j
    → bytes_eq (candidate_name name i) (candidate_name name j) ≡ false
different name i j lt =
    elim (Bool-cases (bytes_eq (candidate_name name i) (candidate_name name j))) [
      | inr e ↦ e
      | inl e ↦ elim (not_less (candidate_name-injective name i j (bytes_eq_sound _ _ e)) lt) [ ]
    ]

absent :
    (y x z : Bytes) (ys : List Bytes)
    → y ≡ x
    → bytes_eq x z ≡ false
    → (bytes_eq y z || member z ys) ≡ true
    → member z ys ≡ true
absent y x z ys same e h = (rw (same, e) at h)

remove : Bytes → List Bytes → List Bytes
remove x [] = []
remove x (y ∷ ys) = let rest = remove x ys in if bytes_eq y x then ys else y ∷ rest

length-remove :
    (x : Bytes) (ys : List Bytes) → member x ys ≡ true → suc (length (remove x ys)) ≡ length ys
unfolding remove member
length-remove x [] h = cc
length-remove x (y ∷ ys) h = elim (Bool-cases (bytes_eq y x)) [
  | inl e ↦ rw e refl
  | inr e ↦ rw e (ap suc (length-remove x ys (rw e at h)))
]

member-remove :
    (x z : Bytes) (ys : List Bytes)
    → bytes_eq x z ≡ false
    → member z ys ≡ true
    → member z (remove x ys) ≡ true
unfolding remove member
member-remove x z [] e h = h
member-remove x z (y ∷ ys) e h = elim (Bool-cases (bytes_eq y x)) [
  | inl same ↦ rw same (absent y x z ys (bytes_eq_sound y x same) e h)
  | inr other ↦ rw other (elim (Bool-cases (bytes_eq y z)) [
    | inl here ↦ rw here refl
    | inr there ↦ rw there (member-remove x z ys e (rw there at h))
  ])
]

-- More different names than a list has entries are not all in it.
pub candidates_bound :
    (fuel : ℕ) (name : Bytes) (i : ℕ) (seen : List Bytes)
    → ((j : ℕ) → i ≤ j → j < i + fuel → member (candidate_name name j) seen ≡ true)
    → fuel ≤ length seen
candidates_bound zero name i seen all = omega arith
candidates_bound (suc fuel) name i seen all =
    let here = all i (omega arith) (omega arith) in
    omega (
      arith,
      length-remove (candidate_name name i) seen here,
      candidates_bound fuel name (suc i) (remove (candidate_name name i) seen) (λ j le lt.
          member-remove (candidate_name name i) (candidate_name name j) seen
            (different name i j (omega (arith, le)))
            (all j (omega (arith, le)) (omega (arith, lt)))),
    )

pub too_far : {i j : ℕ} → i ≤ j → j < i + 0 → ⊥
too_far le lt = omega (arith, le, lt)

pub too_many : {n : ℕ} → suc n ≤ n → ⊥
too_many h = omega (arith, h)

pub none-some : {c : Bytes} → some c ≡ none → ⊥
none-some e = cc

pub true-false : true ≡ false → ⊥
true-false e = cc

pub false-true : false ≡ true → ⊥
false-true e = cc

pub first_or_later : {i j : ℕ} → i ≤ j → (i ≡ j) ⊎ (suc i ≤ j)
first_or_later {i = i} {j = j} le = elim (Bool-cases (i == j)) [
  | inl e ↦ inl (ground arith)
  | inr e ↦ inr (ground arith)
]
