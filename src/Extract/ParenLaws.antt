-- ===== src/Extract/ParenLaws.antt =====
-- Matching parentheses and top-level keywords of src/core/parser_sql_extractors.cpp against a grammar of
-- well-nested texts.
use openivm.Base.{
  drop-length, ◌≡◌, refl, sym, ap, ◌∙◌, ℕ, suc, ◌+◌, Bool, true, false, ◌&&◌, not, [], ◌∷◌, ◌++◌,
  Option, some, Bytes, arith, ◌==◌, length, length-append, append_assoc,
}
use openivm.Sql.Chars.{quote}
use openivm.Extract.Chars.{
  open_paren, close_paren, shift_by, contains_char, then_shift, shift_by_zero,
}
use openivm.Extract.Parens.{
  next_quote, next_depth, scan_from, is_top_keyword, find_top_level_keyword_token, closes,
  starts_with_open, find_matching_paren,
}

-- A character without meaning for the scanners.
abbrev pub is_ordinary : ℕ → Bool
is_ordinary c = not (c == quote) && not (c == open_paren) && not (c == close_paren)

-- Texts whose parentheses and strings are closed: a parenthesis in a string does not count.
pub data Nested : Bytes → Type 0 where
  nothing : Nested []
  ordinary : {c : ℕ} {s : Bytes} → is_ordinary c ≡ true → Nested s → Nested (c ∷ s)
  literal :
      (body : Bytes) {s : Bytes}
      → contains_char quote body ≡ false
      → Nested s
      → Nested (quote ∷ body ++ quote ∷ s)
  group :
      (inner : Bytes) {s : Bytes}
      → Nested inner
      → Nested s
      → Nested (open_paren ∷ inner ++ close_paren ∷ s)

close_here : (rest : Bytes) → scan_from closes false 1 (close_paren ∷ rest) ≡ some 0
unfolding scan_from closes
close_here rest = refl

-- What a scanner tests for, if it can only hold at the end of the outermost parentheses.
pub record Inner (test : Bool → ℕ → Bytes → Bool) : Type 0 where
  pub quoted : (d : ℕ) (s : Bytes) → test true d s ≡ false
  pub deep : (d : ℕ) (s : Bytes) → test false (suc (suc d)) s ≡ false
  pub no_close :
      (d c : ℕ) (s : Bytes) → (c == close_paren) ≡ false → test false (suc d) (c ∷ s) ≡ false

module _ (test : Bool → ℕ → Bytes → Bool) (inner : Inner test) where
  scan_over :
      (m n : ℕ) {in_quote q : Bool} {d e : ℕ} (r : Option ℕ) (c : ℕ) (s : Bytes)
      → test in_quote d (c ∷ s) ≡ false
      → next_quote in_quote c ≡ q
      → next_depth in_quote d c ≡ e
      → m ≡ suc n
      → scan_from test q e s ≡ shift_by n r
      → scan_from test in_quote d (c ∷ s) ≡ shift_by m r
  unfolding scan_from
  scan_over m n r c s h k l count ih =
      rw (h, k, l) (then_shift 1 n r ih ∙ ap (λ i. shift_by i r) (omega (arith, count)))

  scan_from-quoted :
      (d : ℕ) (body s : Bytes)
      → contains_char quote body ≡ false
      → scan_from test true d (body ++ quote ∷ s)
        ≡ shift_by (suc (length body)) (scan_from test false d s)
  unfolding contains_char next_depth
  scan_from-quoted d [] s h =
      scan_over 1 0 _ quote s (inner.quoted d _) refl refl refl (sym (shift_by_zero _))
  scan_from-quoted d (c ∷ body) s h =
      scan_over (suc (suc (length body))) (suc (length body)) _ c (body ++ quote ∷ s)
        (inner.quoted d _) (ground arith) refl refl (scan_from-quoted d body s (ground arith))

  -- In parentheses a nested text is passed over.
  scan_from-Nested :
      {body : Bytes} (d : ℕ) (s : Bytes)
      → Nested body
      → scan_from test false (suc d) (body ++ s)
        ≡ shift_by (length body) (scan_from test false (suc d) s)
  unfolding next_depth
  scan_from-Nested d s nothing = sym (shift_by_zero _)
  scan_from-Nested d s (ordinary {c = c} {s = t} plain rest) =
      scan_over (suc (length t)) (length t) _ c (t ++ s) (inner.no_close d c _ (ground arith))
        (ground arith) (ground arith) refl (scan_from-Nested d s rest)
  scan_from-Nested d s (literal body {s = t} free rest) = rw (append_assoc body (quote ∷ t) s) (
      scan_over (suc (length (body ++ quote ∷ t))) (suc (length body) + length t) {q = true}
        {e = suc d} (scan_from test false (suc d) s) quote (body ++ (quote ∷ (t ++ s)))
        (inner.no_close d quote _ refl) refl refl (omega (arith, length-append body (quote ∷ t)))
        (scan_from-quoted (suc d) body (t ++ s) free
          ∙ then_shift (suc (length body)) (length t) _ (scan_from-Nested d s rest)))
  scan_from-Nested d s (group inside {s = t} nested rest) =
      rw (append_assoc inside (close_paren ∷ t) s) (
        scan_over (suc (length (inside ++ close_paren ∷ t))) (length inside + suc (length t))
          {q = false} {e = suc (suc d)} (scan_from test false (suc d) s) open_paren
          (inside ++ (close_paren ∷ (t ++ s))) (inner.no_close d open_paren _ refl) refl refl
          (omega (arith, length-append inside (close_paren ∷ t)))
          (scan_from-Nested (suc d) (close_paren ∷ t ++ s) nested
            ∙ then_shift (length inside) (suc (length t)) _ (
                scan_over (suc (length t)) (length t) _ close_paren (t ++ s) (inner.deep d _) refl
                  (omega arith) refl (scan_from-Nested d s rest))))

closes-quoted : (d : ℕ) (s : Bytes) → closes true d s ≡ false
unfolding closes
closes-quoted d [] = refl
closes-quoted d (c ∷ s) = refl

closes-deep : (d : ℕ) (s : Bytes) → closes false (suc (suc d)) s ≡ false
unfolding closes
closes-deep d [] = refl
closes-deep d (c ∷ s) = ground arith

closes-Inner : Inner closes
unfolding closes
closes-Inner = record {
  quoted = closes-quoted;
  deep = closes-deep;
  no_close = λ d c s h. ground arith;
}

is_top_keyword-quoted :
    (keyword : Bytes) (d : ℕ) (s : Bytes) → is_top_keyword keyword true d s ≡ false
unfolding is_top_keyword
is_top_keyword-quoted keyword d [] = refl
is_top_keyword-quoted keyword d (c ∷ s) = refl

is_top_keyword-deep :
    (keyword : Bytes) (d : ℕ) (s : Bytes) → is_top_keyword keyword false (suc d) s ≡ false
unfolding is_top_keyword
is_top_keyword-deep keyword d [] = refl
is_top_keyword-deep keyword d (c ∷ s) = ground arith

is_top_keyword-Inner : (keyword : Bytes) → Inner (is_top_keyword keyword)
is_top_keyword-Inner keyword = record {
  quoted = is_top_keyword-quoted keyword;
  deep = λ d s. is_top_keyword-deep keyword (suc d) s;
  no_close = λ d c s h. is_top_keyword-deep keyword d (c ∷ s);
}

group_closes :
    (body rest : Bytes)
    → Nested body
    → scan_from closes false 0 (open_paren ∷ body ++ close_paren ∷ rest) ≡ some (suc (length body))
unfolding closes next_depth
group_closes body rest nested =
    scan_over closes closes-Inner (suc (length body)) (length body) (some 0) open_paren
      (body ++ close_paren ∷ rest) refl refl refl refl
      (scan_from-Nested closes closes-Inner 0 (close_paren ∷ rest) nested
        ∙ ap (shift_by (length body)) (close_here rest))
    ∙ ap some (omega arith)

matching_at :
    (before rest : Bytes) (r : Option ℕ)
    → starts_with_open rest ≡ true
    → scan_from closes false 0 rest ≡ r
    → find_matching_paren (before ++ rest) (length before) ≡ shift_by (length before) r
unfolding find_matching_paren
matching_at before rest r h k = rw (drop-length before rest) (rw (h, k) refl)

-- The parenthesis that closes a nested text is found, whatever stands before and after.
pub find_matching_paren-Nested :
    (before body rest : Bytes)
    → Nested body
    → find_matching_paren (before ++ (open_paren ∷ (body ++ close_paren ∷ rest))) (length before)
      ≡ some (length before + suc (length body))
unfolding starts_with_open
find_matching_paren-Nested before body rest nested =
    matching_at before (open_paren ∷ (body ++ close_paren ∷ rest)) _ refl
      (group_closes body rest nested)

-- No keyword in a nested text that stands in parentheses is taken for one of the query itself: the
-- search goes on behind it.
pub find_top_level_keyword_token-Nested :
    (keyword body rest : Bytes)
    → Nested body
    → find_top_level_keyword_token (open_paren ∷ body ++ close_paren ∷ rest) keyword 0
      ≡ shift_by (length body + 2) (find_top_level_keyword_token rest keyword 0)
unfolding find_top_level_keyword_token is_top_keyword next_depth
find_top_level_keyword_token-Nested keyword body rest nested =
    let test = is_top_keyword keyword in
    shift_by_zero _
    ∙ scan_over test (is_top_keyword-Inner keyword) (length body + 2) (length body + 1)
        {in_quote = false} {d = 0} (scan_from test false 0 rest) open_paren
        (body ++ close_paren ∷ rest) refl refl refl (omega arith)
        (scan_from-Nested test (is_top_keyword-Inner keyword) 0 (close_paren ∷ rest) nested
          ∙ then_shift (length body) 1 _ (
              scan_over test (is_top_keyword-Inner keyword) 1 0 {in_quote = false} {d = 1} _
                close_paren rest (is_top_keyword-deep keyword 0 (close_paren ∷ rest)) refl refl refl
                (sym (shift_by_zero _))))
    ∙ ap (shift_by (length body + 2)) (sym (shift_by_zero _))
