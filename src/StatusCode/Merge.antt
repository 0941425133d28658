-- ===== src/StatusCode/Merge.antt =====
-- Sorting and merging: the ranges that come out are canonical and have the same codes.
use east_api.Prelude.{
  ℕ, ◌+◌, ◌≤◌, ◌≡◌, refl, sym, ap, ◌∙◌, Bool, true, false, ◌||◌, Option, none, some, List, [], ◌∷◌,
  arith, ltb, leb, All, if_both, if_cases, map, false≢true, Bool-cases, inl, inr,
}
use east_api.Prelude.Text.{trim_space, trim_left}
use east_api.StatusCode.{
  StatusCodeRange, sorts_before, insert_range, sort_ranges, joined, merge_from, merge,
  read_segments, parse_token, atoi, drop_spaces, has_code, dash, split, comma, narrow, check_range,
  check_parts, parse_ranges, segments, should_match, match_from, is_nil,
}
use east_api.StatusCode.Match.{in_range, covers, IsChain, IsCanonical, should_match-covers}

-- A range of codes that the parser lets pass.
abbrev pub IsValid : StatusCodeRange → Type 0
IsValid r = (100 ≤ r.start) × (r.start ≤ r.stop) × (r.stop ≤ 599)

abbrev From : ℕ → StatusCodeRange → Type 0
From n r = n ≤ r.start

abbrev IsAscending : List StatusCodeRange → Type 0
IsAscending [] = Unit
IsAscending (r ∷ rs) = All (From r.start) rs × IsAscending rs

covers-insert_range :
    (code : ℕ) (r : StatusCodeRange) (ts : List StatusCodeRange)
    → covers (insert_range r ts) code ≡ covers (r ∷ ts) code
unfolding insert_range
covers-insert_range code r [] = refl
covers-insert_range code r (t ∷ ts) = ground (arith, covers-insert_range code r ts)

covers-sort_ranges :
    (code : ℕ) (rs : List StatusCodeRange) → covers (sort_ranges rs) code ≡ covers rs code
unfolding sort_ranges
covers-sort_ranges code [] = refl
covers-sort_ranges code (r ∷ rs) =
    covers-insert_range code r (sort_ranges rs)
    ∙ ap (λ b. in_range r code || b) (covers-sort_ranges code rs)

All-insert_range :
    (P : StatusCodeRange → Type 0) (r : StatusCodeRange) (ts : List StatusCodeRange)
    → P r
    → All P ts
    → All P (insert_range r ts)
unfolding insert_range
All-insert_range P r [] h hs = (h, tt)
All-insert_range P r (t ∷ ts) h hs =
    if_both (All P) (sorts_before r t) (h, hs) (hs.0, All-insert_range P r ts h hs.1)

All-sort_ranges :
    (P : StatusCodeRange → Type 0) (rs : List StatusCodeRange) → All P rs → All P (sort_ranges rs)
unfolding sort_ranges
All-sort_ranges P [] h = tt
All-sort_ranges P (r ∷ rs) h = All-insert_range P r (sort_ranges rs) h.0 (All-sort_ranges P rs h.1)

From-lower : (n m : ℕ) (rs : List StatusCodeRange) → n ≤ m → All (From m) rs → All (From n) rs
From-lower n m [] le h = tt
From-lower n m (r ∷ rs) le h = (omega (arith, h.0), From-lower n m rs le h.1)

insert_range-IsAscending :
    (r : StatusCodeRange) (ts : List StatusCodeRange)
    → IsAscending ts
    → IsAscending (insert_range r ts)
unfolding insert_range
insert_range-IsAscending r [] h = (tt, tt)
insert_range-IsAscending r (t ∷ ts) h = elim (Bool-cases (sorts_before r t)) [
  | inl first ↦ rw first ((ground arith, From-lower r.start t.start ts (ground arith) h.0), h)
  | inr later ↦
      rw later
        (All-insert_range (From t.start) r ts (ground arith) h.0, insert_range-IsAscending r ts h.1)
]

sort_ranges-IsAscending : (rs : List StatusCodeRange) → IsAscending (sort_ranges rs)
unfolding sort_ranges
sort_ranges-IsAscending [] = tt
sort_ranges-IsAscending (r ∷ rs) =
    insert_range-IsAscending r (sort_ranges rs) (sort_ranges-IsAscending rs)

joined-start : (last r : StatusCodeRange) → (joined last r).start ≡ last.start
joined-start last r =
    if_both (λ (x : StatusCodeRange). x.start ≡ last.start) (ltb last.stop r.stop) refl refl

joined-IsValid : (last r : StatusCodeRange) → IsValid last → IsValid r → IsValid (joined last r)
joined-IsValid last r h k = ground arith

covers-merge_from :
    (code : ℕ) (last : StatusCodeRange) (rs : List StatusCodeRange)
    → last.start ≤ last.stop
    → All (From last.start) rs
    → IsAscending rs
    → All IsValid rs
    → covers (merge_from last rs) code ≡ covers (last ∷ rs) code
unfolding merge_from
covers-merge_from code last [] v a h k = refl
covers-merge_from code last (r ∷ rs) v (a0, a1) (h0, h1) (k0, k1) =
    elim (Bool-cases (leb r.start (last.stop + 1))) [
      | inl near ↦ rw near (
          covers-merge_from code (joined last r) rs (ground arith) (rw (joined-start last r) a1) h1
            k1
          ∙ ground arith)
      | inr apart ↦
          rw apart (ap (λ b. in_range last code || b) (covers-merge_from code r rs k0.1 h0 h1 k1))
    ]

merge_from-IsChain :
    (n : ℕ) (last : StatusCodeRange) (rs : List StatusCodeRange)
    → n ≤ last.start
    → IsValid last
    → All IsValid rs
    → IsChain n (merge_from last rs)
unfolding merge_from
merge_from-IsChain n last [] le v k = (le, v.1, v.2, tt)
merge_from-IsChain n last (r ∷ rs) le v (k0, k1) = elim (Bool-cases (leb r.start (last.stop + 1))) [
  | inl near ↦ rw near (
      merge_from-IsChain n (joined last r) rs (rw (joined-start last r) le)
        (joined-IsValid last r v k0) k1)
  | inr apart ↦
      rw apart (le, v.1, v.2, merge_from-IsChain (last.stop + 2) r rs (ground arith) k0 k1)
]

-- What the parser has read is in bounds.
IfValid : Option StatusCodeRange → Type 0
IfValid none = Unit {0}
IfValid (some r) = IsValid r

check_range-IfValid : (a b : Option ℕ) → IfValid (check_range a b)
unfolding check_range IfValid
check_range-IfValid none b = tt
check_range-IfValid (some low) none = tt
check_range-IfValid (some low) (some high) = ground arith

check_parts-IfValid : (parts : List (List ℕ)) → IfValid (check_parts parts)
unfolding check_parts IfValid
check_parts-IfValid [] = tt
check_parts-IfValid (a ∷ []) = tt
check_parts-IfValid (a ∷ b ∷ []) = check_range-IfValid (atoi a) (atoi b)
check_parts-IfValid (a ∷ b ∷ c ∷ rest) = tt

parse_token-IfValid : (token : List ℕ) → IfValid (parse_token token)
unfolding parse_token
parse_token-IfValid token =
    let t = drop_spaces (trim_space token) in
    if_both IfValid (has_code dash t) (check_parts-IfValid (split dash t))
      (check_range-IfValid (atoi t) (atoi t))

read_segments-IsValid : (segs : List (List ℕ)) → All IsValid (read_segments segs).0
unfolding read_segments IfValid
read_segments-IsValid [] = tt
read_segments-IsValid (seg ∷ segs) =
    let rest = read_segments-IsValid segs in
    if_both (λ (x : List StatusCodeRange × Bool). All IsValid x.0) (is_nil (trim_space seg)) rest
      (with_token rest (parse_token (trim_space seg)) (parse_token-IfValid (trim_space seg)))
  where
    with_token :
        All IsValid (read_segments segs).0
        → (o : Option StatusCodeRange) → IfValid o
        → All IsValid
            (elim o as (λ _. List StatusCodeRange × Bool) [
              | none ↦ ((read_segments segs).0, true)
              | some r ↦ (r ∷ (read_segments segs).0, (read_segments segs).1)
            ]).0
    with_token rest none h = rest
    with_token rest (some r) h = (h, rest)

merge-covers :
    (code : ℕ) (rs : List StatusCodeRange)
    → IsAscending rs
    → All IsValid rs
    → covers (merge rs) code ≡ covers rs code
unfolding merge
merge-covers code [] h k = refl
merge-covers code (r ∷ rs) h k = covers-merge_from code r rs k.0.1 h.0 h.1 k.1

merge-IsCanonical : (rs : List StatusCodeRange) → All IsValid rs → IsCanonical (merge rs)
unfolding merge
merge-IsCanonical [] k = tt
merge-IsCanonical (r ∷ rs) k = merge_from-IsChain 100 r rs k.0.0 k.0 k.1

-- What the loop over the segments makes of the input
abbrev pub ReadsSegments : List ℕ → Option (List StatusCodeRange) → Type 0
ReadsSegments input none = (read_segments (segments input)).1 ≡ true
ReadsSegments input (some rs) =
    ((read_segments (segments input)).1 ≡ false)
    × IsCanonical rs
    × ((code : ℕ) → should_match rs code ≡ covers (read_segments (segments input)).0 code)

nil_of : (cs : List ℕ) → is_nil cs ≡ true → cs ≡ []
nil_of [] e = refl
nil_of (c ∷ cs) e = absurd (false≢true e)

read_blank : read_segments ([] ∷ []) ≡ ([], false)
unfolding read_segments trim_space trim_left
read_blank = refl

blank-ReadsSegments :
    (input : List ℕ) → is_nil (trim_space input) ≡ true → ReadsSegments input (some [])
unfolding segments split should_match match_from
blank-ReadsSegments input e =
    let same : read_segments (segments input) ≡ ([], false) =
      ap (λ t. read_segments (split comma (map narrow t))) (nil_of (trim_space input) e)
      ∙ read_blank in
    (
      ap (λ (x : List StatusCodeRange × Bool). x.1) same,
      tt,
      λ code.
          if_both (λ b. b ≡ false) (ltb code 100 || ltb 599 code) refl refl
          ∙ sym (ap (λ (x : List StatusCodeRange × Bool). covers x.0 code) same),
    )

merged-ReadsSegments :
    (input : List ℕ)
    → (read_segments (segments input)).1 ≡ false
    → ReadsSegments input (some (merge (sort_ranges (read_segments (segments input)).0)))
merged-ReadsSegments input fine =
    let rs = (read_segments (segments input)).0 in
    let valid = All-sort_ranges IsValid rs (read_segments-IsValid (segments input)) in
    (
      fine,
      merge-IsCanonical (sort_ranges rs) valid,
      λ code.
          should_match-covers code (merge (sort_ranges rs))
            (merge-IsCanonical (sort_ranges rs) valid)
          ∙ merge-covers code (sort_ranges rs) (sort_ranges-IsAscending rs) valid
          ∙ covers-sort_ranges code rs,
    )

pub parse_ranges-ReadsSegments : (input : List ℕ) → ReadsSegments input (parse_ranges input)
unfolding parse_ranges
parse_ranges-ReadsSegments input =
    if_cases (ReadsSegments input) (is_nil (trim_space input)) (blank-ReadsSegments input) λ _.
      if_cases (ReadsSegments input) (read_segments (segments input)).1 (λ bad. bad)
        (merged-ReadsSegments input)
