-- ===== src/Classifier/DedupLaws.antt =====
-- `DeduplicateGroupColumns` of src/core/ivm_view_classifier.cpp ends, and tells the visible columns apart.
use openivm.Base.{
  ◌≡◌, refl, sym, ap, ◌∙◌, ℕ, zero, suc, ◌+◌, ◌≤◌, ◌<◌, Bool, true, false, ◌||◌, List, [], ◌∷◌,
  none, some, Bytes, arith, length, bytes_eq, bytes_eq_refl, bytes_eq_sound, Bool-cases, inl, inr,
  Option, if◌then◌else◌,
}
use mathlib.Core.Path.{subst}
use mathlib.Core.Option.{some-injective}
use openivm.DeltaModel.Build.{is_internal_column}
use openivm.Checker.Facts.{member}
use openivm.Checker.Lists.{no_duplicates}
use openivm.Classifier.Dedup.{
  candidate_name, free_candidate, add_name, deduplicate_from, deduplicate_group_columns,
}
use openivm.Classifier.Candidates.{
  candidates_bound, too_far, too_many, none-some, true-false, false-true, first_or_later,
}

free_candidate-some :
    (fuel : ℕ) (name : Bytes) (i : ℕ) (seen : List Bytes) (c : Bytes)
    → free_candidate fuel name i seen ≡ some c
    → member c seen ≡ false
unfolding free_candidate
free_candidate-some zero name i seen c h = cc
free_candidate-some (suc fuel) name i seen c h =
    elim (Bool-cases (member (candidate_name name i) seen)) [
      | inl taken ↦ free_candidate-some fuel name (suc i) seen c (rw taken at h)
      | inr free ↦ subst (λ n. member n seen ≡ false) (some-injective _ _ (rw free at h)) free
    ]

free_candidate-none :
    (fuel : ℕ) (name : Bytes) (i : ℕ) (seen : List Bytes)
    → free_candidate fuel name i seen ≡ none
    → (j : ℕ) → i ≤ j
    → j < i + fuel
    → member (candidate_name name j) seen ≡ true
unfolding free_candidate
free_candidate-none zero name i seen h j le lt = elim (too_far le lt) [ ]
free_candidate-none (suc fuel) name i seen h j le lt =
    elim (Bool-cases (member (candidate_name name i) seen)) [
      | inr free ↦ elim (none-some (rw free at h)) [ ]
      | inl taken ↦ elim (first_or_later le) [
        | inl first ↦ subst (λ k. member (candidate_name name k) seen ≡ true) first taken
        | inr later ↦
            free_candidate-none fuel name (suc i) seen (rw taken at h) j later (omega (arith, lt))
      ]
    ]

-- There is a free candidate among as many as there are names seen, and one.
free_candidate-total :
    (name : Bytes) (seen : List Bytes)
    → (c : Bytes) × (free_candidate (suc (length seen)) name 0 seen ≡ some c)
      × (member c seen ≡ false)
free_candidate-total name seen = total _ refl
  where
    total :
        (r : Option Bytes)
        → free_candidate (suc (length seen)) name 0 seen ≡ r
        → (c : Bytes) × (free_candidate (suc (length seen)) name 0 seen ≡ some c)
          × (member c seen ≡ false)
    total none e =
        elim (too_many (
          candidates_bound (suc (length seen)) name 0 seen
            (free_candidate-none (suc (length seen)) name 0 seen e))) [ ]
    total (some c) e = (c, e, free_candidate-some _ name 0 seen c e)

-- What the visible names became; internal ones are left out.
abbrev pub visible_results : List Bytes → List Bytes → List Bytes
visible_results [] results = []
visible_results (name ∷ names) [] = []
visible_results (name ∷ names) (r ∷ results) =
    let rest = visible_results names results in if is_internal_column name then rest else r ∷ rest

-- The names that the loop gives, if those in `seen` are taken.
record Deduplicated (seen names : List Bytes) : Type 0 where
  pub results : List Bytes
  pub done : deduplicate_from seen names ≡ some results
  pub as_many : length results ≡ length names
  pub once : no_duplicates (visible_results names results) ≡ true
  pub fresh : (x : Bytes) → member x (visible_results names results) ≡ true → member x seen ≡ false

deduplicate_from-internal :
    (seen names results : List Bytes) (name : Bytes)
    → is_internal_column name ≡ true
    → deduplicate_from seen names ≡ some results
    → deduplicate_from seen (name ∷ names) ≡ some (name ∷ results)
unfolding deduplicate_from
deduplicate_from-internal seen names results name internal h = rw internal (ap (add_name name) h)

deduplicate_from-visible :
    (seen names results : List Bytes) (name c : Bytes)
    → is_internal_column name ≡ false
    → free_candidate (suc (length seen)) name 0 seen ≡ some c
    → deduplicate_from (c ∷ seen) names ≡ some results
    → deduplicate_from seen (name ∷ names) ≡ some (c ∷ results)
unfolding deduplicate_from
deduplicate_from-visible seen names results name c visible found h = rw visible (
    ap (λ r. elim r [ none ↦ none | some d ↦ add_name d (deduplicate_from (d ∷ seen) names) ]) found
    ∙ ap (add_name c) h)

or_left : (b d : Bool) → (b || d) ≡ false → b ≡ false
or_left false d h = refl
or_left true d h = h

or_right : (b d : Bool) → (b || d) ≡ false → d ≡ false
or_right false d h = h
or_right true d h = cc

false_from : (b : Bool) → (b ≡ true → ⊥) → b ≡ false
false_from true h = elim (h refl) [ ]
false_from false h = refl

deduplicate_from-total : (seen names : List Bytes) → Deduplicated seen names
unfolding member
deduplicate_from-total seen [] = record {
  results = [];
  done = unfold deduplicate_from in refl;
  as_many = refl;
  once = refl;
  fresh = λ x h. elim (false-true h) [ ];
}
deduplicate_from-total seen (name ∷ names) = elim (Bool-cases (is_internal_column name)) [
  | inl internal ↦
      let sub = deduplicate_from-total seen names in
      record {
        results = name ∷ sub.results;
        done = deduplicate_from-internal seen names sub.results name internal sub.done;
        as_many = ap suc sub.as_many;
        once = rw internal sub.once;
        fresh = λ x h. sub.fresh x (rw internal at h);
      }
  | inr visible ↦
      let (c, found, free) = free_candidate-total name seen in
      let sub = deduplicate_from-total (c ∷ seen) names in
      let new =
        false_from (member c (visible_results names sub.results))
          (λ h. true-false (sym (bytes_eq_refl c) ∙ or_left _ _ (sub.fresh c h))) in
      record {
        results = c ∷ sub.results;
        done = deduplicate_from-visible seen names sub.results name c visible found sub.done;
        as_many = ap suc sub.as_many;
        once = rw (visible, new) sub.once;
        fresh = λ x h. elim (Bool-cases (bytes_eq c x)) [
          | inl same ↦ subst (λ n. member n seen ≡ false) (bytes_eq_sound c x same) free
          | inr other ↦ or_right _ _ (sub.fresh x (rw (visible, other) at h))
        ];
      }
]

-- Deduplication always ends. It gives as many names as there were, and among those of the visible
-- columns none stands twice.
pub deduplicate_group_columns-total :
    (names : List Bytes)
    → (results : List Bytes) × (deduplicate_group_columns names ≡ some results)
      × (length results ≡ length names)
      × (no_duplicates (visible_results names results) ≡ true)
unfolding deduplicate_group_columns
deduplicate_group_columns-total names =
    let all = deduplicate_from-total [] names in (all.results, all.done, all.as_many, all.once)
