-- ===== src/StatusCode/Reads.antt =====
-- ParseHTTPStatusCodeRanges against the description of its segments in StatusCode/Named.
use east_api.Prelude.{
  ℕ, ◌≤◌, ◌≡◌, ◌≢◌, ◌↔◌, refl, ap, subst, if_cases, sym, ◌∙◌, ◌⊎◌, Bool, true, false, false≢true,
  ◌||◌, Option, none, some, List, [], ◌∷◌, arith, All, Bool-cases, inl, inr,
}
use east_api.Prelude.Text.{trim_space}
use east_api.StatusCode.{
  StatusCodeRange, read_segments, parse_token, parse_ranges, segments, should_match, is_nil,
}
use east_api.StatusCode.Match.{in_range, covers, IsCanonical}
use east_api.StatusCode.Merge.{ReadsSegments, parse_ranges-ReadsSegments}
use east_api.StatusCode.Named.{Spells, word, parse_token-Spells, Spells-parse_token}

-- The segment spells a code, or a range of codes.
abbrev pub SpellsRange : List ℕ → ℕ → ℕ → Type 0
SpellsRange seg low high =
    (is_nil (trim_space seg) ≡ false) × Spells (word (trim_space seg)) low high

-- The segment is blank, or spells a code or a range.
abbrev pub IsFine : List ℕ → Type 0
IsFine seg = (is_nil (trim_space seg) ≡ true) ⊎ ((low : ℕ) × (high : ℕ) × SpellsRange seg low high)

-- Some segment spells a range that the code is in.
abbrev pub Named : List (List ℕ) → ℕ → Type 0
Named [] code = ⊥
Named (seg ∷ segs) code =
    ((low : ℕ) × (high : ℕ) × SpellsRange seg low high × (low ≤ code) × (code ≤ high))
    ⊎ Named segs code

-- What parsing makes of its input: an error where not all segments are fine; else canonical ranges,
-- which match just the codes that the segments name.
abbrev pub Reads : List ℕ → Option (List StatusCodeRange) → Type 0
Reads input none = ¬ All IsFine (segments input)
Reads input (some rs) =
    All IsFine (segments input)
    × IsCanonical rs
    × ((code : ℕ) → (should_match rs code ≡ true) ↔ Named (segments input) code)

-- One more segment
abbrev Grown : List ℕ → List StatusCodeRange × Bool → List StatusCodeRange × Bool → Type 0
Grown seg rest all =
    ((is_nil (trim_space seg) ≡ true) × (all ≡ rest))
    ⊎ ((is_nil (trim_space seg) ≡ false)
        × (parse_token (trim_space seg) ≡ none)
        × (all ≡ (rest.0, true)))
    ⊎ ((r : StatusCodeRange) × (is_nil (trim_space seg) ≡ false)
        × (parse_token (trim_space seg) ≡ some r)
        × (all ≡ (r ∷ rest.0, rest.1)))

read_segments-Grown :
    (seg : List ℕ) (segs : List (List ℕ))
    → Grown seg (read_segments segs) (read_segments (seg ∷ segs))
unfolding read_segments
read_segments-Grown seg segs =
    if_cases (Grown seg (read_segments segs)) (is_nil (trim_space seg)) (λ blank. inl (blank, refl))
      λ text. go text (parse_token (trim_space seg)) refl
  where
    go :
        is_nil (trim_space seg) ≡ false
        → (o : Option StatusCodeRange) → parse_token (trim_space seg) ≡ o
        → Grown seg (read_segments segs) (elim o as (λ _. List StatusCodeRange × Bool) [
          | none ↦ ((read_segments segs).0, true)
          | some r ↦ (r ∷ (read_segments segs).0, (read_segments segs).1)
        ])
    go text none e = inr (inl (text, e, refl))
    go text (some r) e = inr (inr (r, text, e, refl))

unread :
    (seg : List ℕ) (low high : ℕ) → parse_token (trim_space seg) ≡ none → ¬ SpellsRange seg low high
unread seg low high e = λ s. nothing (sym e ∙ Spells-parse_token (trim_space seg) low high s.1)
  where
    nothing : {r : StatusCodeRange} → ◌≢◌ {A = Option StatusCodeRange} none (some r)
    nothing e' = ground arith

read_segments-IsFine : (segs : List (List ℕ)) → (read_segments segs).1 ≡ false → All IsFine segs
read_segments-IsFine [] e = tt
read_segments-IsFine (seg ∷ segs) e = go (read_segments-IsFine segs) (read_segments-Grown seg segs)
  where
    go :
        ((read_segments segs).1 ≡ false → All IsFine segs)
        → Grown seg (read_segments segs) (read_segments (seg ∷ segs))
        → All IsFine (seg ∷ segs)
    go rest (inl (blank, q)) = (inl blank, rest (sym (ap (λ x. x.1) q) ∙ e))
    go rest (inr (inl (text, p, q))) = absurd (false≢true (sym e ∙ ap (λ x. x.1) q))
    go rest (inr (inr (r, text, p, q))) = (
      inr (r.start, r.stop, (text, parse_token-Spells (trim_space seg) r p)),
      rest (sym (ap (λ x. x.1) q) ∙ e),
    )

read_segments_bad : (segs : List (List ℕ)) → (read_segments segs).1 ≡ true → ¬ All IsFine segs
unfolding read_segments
read_segments_bad [] e = λ all. false≢true e
read_segments_bad (seg ∷ segs) e = go (read_segments_bad segs) (read_segments-Grown seg segs)
  where
    go :
        ((read_segments segs).1 ≡ true → ¬ All IsFine segs)
        → Grown seg (read_segments segs) (read_segments (seg ∷ segs))
        → ¬ All IsFine (seg ∷ segs)
    go rest (inl (blank, q)) = λ all. rest (sym (ap (λ x. x.1) q) ∙ e) all.1
    go rest (inr (inr (r, text, p, q))) = λ all. rest (sym (ap (λ x. x.1) q) ∙ e) all.1
    go rest (inr (inl (text, p, q))) = λ all. elim all.0 [
      | inl blank ↦ false≢true (sym text ∙ blank)
      | inr (low, high, spelled) ↦ unread seg low high p spelled
    ]

-- The range that is read is the one that is spelled.
spelled-in_range :
    (seg : List ℕ) (r : StatusCodeRange) (low high code : ℕ)
    → parse_token (trim_space seg) ≡ some r
    → SpellsRange seg low high
    → low ≤ code
    → code ≤ high
    → in_range r code ≡ true
spelled-in_range seg r low high code p s lo hi =
    subst (λ x. in_range x code ≡ true)
      (ap (λ o. elim o as (λ _. StatusCodeRange) [ none ↦ r | some x ↦ x ])
        (sym (Spells-parse_token (trim_space seg) low high s.1) ∙ p))
      (ground arith)

read_segments-Named :
    (segs : List (List ℕ)) (code : ℕ)
    → (covers (read_segments segs).0 code ≡ true) ↔ Named segs code
unfolding read_segments
read_segments-Named [] code = (λ e. false≢true e, λ n. absurd n)
read_segments-Named (seg ∷ segs) code =
    go (read_segments-Named segs code) (read_segments-Grown seg segs)
  where
    go :
        ((covers (read_segments segs).0 code ≡ true) ↔ Named segs code)
        → Grown seg (read_segments segs) (read_segments (seg ∷ segs))
        → (covers (read_segments (seg ∷ segs)).0 code ≡ true) ↔ Named (seg ∷ segs) code
    go rest (inl (blank, q)) = (
      λ e. inr (rest.0 (sym (ap (λ x. covers x.0 code) q) ∙ e)),
      λ n. elim n [
        | inl (low, high, s, lo, hi) ↦ absurd (false≢true (sym s.0 ∙ blank))
        | inr n ↦ ap (λ x. covers x.0 code) q ∙ rest.1 n
      ],
    )
    go rest (inr (inl (text, p, q))) = (
      λ e. inr (rest.0 (sym (ap (λ x. covers x.0 code) q) ∙ e)),
      λ n. elim n [
        | inl (low, high, s, lo, hi) ↦ absurd (unread seg low high p s)
        | inr n ↦ ap (λ x. covers x.0 code) q ∙ rest.1 n
      ],
    )
    go rest (inr (inr (r, text, p, q))) = (
      λ e.
          let e' : in_range r code || covers (read_segments segs).0 code ≡ true =
            sym (ap (λ x. covers x.0 code) q) ∙ e in
          elim (Bool-cases (in_range r code)) [
            | inl is ↦ inl (
              r.start,
              r.stop,
              (text, parse_token-Spells (trim_space seg) r p),
              ground arith,
              ground arith,
            )
            | inr other ↦ inr (rest.0 (ground (arith, e', other)))
          ],
      λ n. ap (λ x. covers x.0 code) q ∙ elim n [
        | inl (low, high, s, lo, hi) ↦
            ground (arith, spelled-in_range seg r low high code p s lo hi)
        | inr n ↦ ground (arith, rest.1 n)
      ],
    )

-- An input is refused exactly if one of its segments is neither blank nor, without its spaces, the
-- decimal number of a code from 100 to 599, with a plus sign or not, or two such numbers in order
-- with a dash between them. If it is not refused, the ranges that come out ascend without overlap or contact, and a code matches
-- them exactly if it is in what one of the segments spells, in whatever order and with whatever
-- overlaps these were written.
pub parse_ranges-Reads : (input : List ℕ) → Reads input (parse_ranges input)
parse_ranges-Reads input = go (parse_ranges input) (parse_ranges-ReadsSegments input)
  where
    go : (o : Option (List StatusCodeRange)) → ReadsSegments input o → Reads input o
    go none bad = read_segments_bad (segments input) bad
    go (some rs) (fine, canonical, same) = (
      read_segments-IsFine (segments input) fine,
      canonical,
      λ code.
          subst (λ b. (b ≡ true) ↔ Named (segments input) code) (sym (same code))
            (read_segments-Named (segments input) code),
    )
