-- ===== src/StatusCode/Print.antt =====
-- Printing ranges and reading the text back.
use east_api.Prelude.{
  ℕ, ◌+◌, ◌≤◌, ◌≡◌, refl, sym, ap, ◌∙◌, Bool, true, false, none, some, List, [], ◌∷◌, ◌++◌, map,
  arith, leb, ◌==◌, if◌then◌else◌, All, if_both, ==_iff, if_true, if_false, Bool-cases, inl, inr,
  false≢true,
}
use east_api.Prelude.Text.{trim_space}
use east_api.StatusCode.{
  StatusCodeRange, sorts_before, insert_range, sort_ranges, merge_from, merge, read_segments,
  parse_token, atoi, drop_spaces, has_code, dash, split, comma, narrow, check_range, check_parts,
  parse_ranges, segments, is_nil, print_range, print_ranges, join_commas, fits,
}
use east_api.StatusCode.Match.{IsChain, IsCanonical}
use east_api.StatusCode.Merge.{IsValid}
use east_api.StatusCode.Words.{
  three, IsWord, IsLine, itoa-three, atoi-three, All-append, trim_space-line, word-IsLine,
  drop_spaces-word, narrow-line, split-append, split-one, split-join_commas, three-IsWord,
  three-dash,
}

-- A range that may be printed: in bounds.
range-IsWord : (r : StatusCodeRange) → IsValid r → All IsWord (print_range r)
unfolding print_range
range-IsWord r (h0, h1, h2) =
    rw (itoa-three r.start h0 (omega arith), itoa-three r.stop (omega arith) h2)
      (if_both (All IsWord) (r.start == r.stop) (three-IsWord r.start h0 (omega arith)) (
        All-append IsWord (three r.start) (dash ∷ three r.stop)
          (three-IsWord r.start h0 (omega arith))
          ((omega arith, omega arith), three-IsWord r.stop (omega arith) h2)))

-- What the parser does with a word once the blanks are off.
parse_word :
    (t : List ℕ)
    → All IsWord t
    → parse_token t
      ≡ (if has_code dash t then check_parts (split dash t) else check_range (atoi t) (atoi t))
unfolding parse_token
parse_word t h =
    ap (λ u. if has_code dash u then check_parts (split dash u) else check_range (atoi u) (atoi u))
      (ap drop_spaces (trim_space-line t (word-IsLine t h)) ∙ drop_spaces-word t h)

parse_three :
    (n : ℕ) → 100 ≤ n → n ≤ 599 → parse_token (three n) ≡ some (record { start = n; stop = n })
unfolding check_range
parse_three n lo hi =
    parse_word (three n) (three-IsWord n lo hi)
    ∙ if_false (has_code dash (three n)) _ _ (three-dash n lo hi)
    ∙ ap (λ o. check_range o o) (atoi-three n lo hi)
    ∙ if_true (fits n n) _ _ (ground arith)

has_dash : (a b : List ℕ) → has_code dash (a ++ dash ∷ b) ≡ true
has_dash [] b = ground arith
has_dash (c ∷ cs) b = ground (arith, has_dash cs b)

parse_two :
    (low high : ℕ)
    → 100 ≤ low
    → low ≤ high
    → high ≤ 599
    → parse_token (three low ++ dash ∷ three high) ≡ some (record { start = low; stop = high })
unfolding check_range check_parts
parse_two low high h0 h1 h2 =
    parse_word (three low ++ dash ∷ three high) (
      All-append IsWord (three low) (dash ∷ three high) (three-IsWord low h0 (omega arith))
        ((omega arith, omega arith), three-IsWord high (omega arith) h2))
    ∙ if_true (has_code dash (three low ++ dash ∷ three high)) _ _
        (has_dash (three low) (three high))
    ∙ ap check_parts (
        split-append dash (three low) (three high) (three-dash low h0 (omega arith))
        ∙ ap (λ ws. three low ∷ ws)
            (split-one dash (three high) (three-dash high (omega arith) h2)))
    ∙ rw (atoi-three low h0 (omega arith), atoi-three high (omega arith) h2)
        (if_true (fits low high) _ _ (ground arith))

parse_token-print_range : (r : StatusCodeRange) → IsValid r → parse_token (print_range r) ≡ some r
unfolding print_range
parse_token-print_range r (h0, h1, h2) =
    rw (itoa-three r.start h0 (omega arith), itoa-three r.stop (omega arith) h2)
      (elim (Bool-cases (r.start == r.stop)) [
        | inl same ↦ rw same (
            parse_three r.start h0 (omega arith)
            ∙ ap (λ x. some (record { start = r.start; stop = x }))
                ((==_iff r.start r.stop).0 same))
        | inr apart ↦ rw apart (parse_two r.start r.stop h0 h1 h2)
      ])

print_range-word : (r : StatusCodeRange) → IsValid r → is_nil (print_range r) ≡ false
unfolding print_range
print_range-word r (h0, h1, h2) =
    rw (itoa-three r.start h0 (omega arith))
      (if_both (λ (cs : List ℕ). is_nil cs ≡ false) (r.start == r.stop) refl refl)

read_segments-print :
    (rs : List StatusCodeRange) → All IsValid rs → read_segments (map print_range rs) ≡ (rs, false)
unfolding read_segments
read_segments-print [] h = refl
read_segments-print (r ∷ rs) (v, h) =
    rw
      (
        trim_space-line (print_range r) (word-IsLine (print_range r) (range-IsWord r v)),
        print_range-word r v,
        parse_token-print_range r v,
        read_segments-print rs h,
      )
      refl

sort_ranges-chain : (n : ℕ) (rs : List StatusCodeRange) → IsChain n rs → sort_ranges rs ≡ rs
unfolding sort_ranges
sort_ranges-chain n [] h = refl
sort_ranges-chain n (r ∷ rs) (h0, h1, h2, h3) =
    ap (insert_range r) (sort_ranges-chain (r.stop + 2) rs h3) ∙ first rs h3
  where
    first : (ts : List StatusCodeRange) → IsChain (r.stop + 2) ts → insert_range r ts ≡ r ∷ ts
    first [] k = refl
    first (t ∷ ts) k = if_true (sorts_before r t) _ _ (ground arith)

merge_from-chain :
    (last : StatusCodeRange) (rs : List StatusCodeRange)
    → IsChain (last.stop + 2) rs
    → merge_from last rs ≡ last ∷ rs
unfolding merge_from
merge_from-chain last [] h = refl
merge_from-chain last (r ∷ rs) (h0, h1, h2, h3) =
    if_false (leb r.start (last.stop + 1)) _ _ (ground arith)
    ∙ ap (λ ts. last ∷ ts) (merge_from-chain r rs h3)

chain-IsValid : (n : ℕ) (rs : List StatusCodeRange) → 100 ≤ n → IsChain n rs → All IsValid rs
chain-IsValid n [] le h = tt
chain-IsValid n (r ∷ rs) le (h0, h1, h2, h3) =
    ((omega arith, h1, h2), chain-IsValid (r.stop + 2) rs (omega arith) h3)

words-of : (rs : List StatusCodeRange) → All IsValid rs → All (All IsWord) (map print_range rs)
words-of [] h = tt
words-of (r ∷ rs) h = (range-IsWord r h.0, words-of rs h.1)

join-IsLine : (words : List (List ℕ)) → All (All IsWord) words → All IsLine (join_commas words)
unfolding join_commas
join-IsLine [] h = tt
join-IsLine (word ∷ []) h = word-IsLine word h.0
join-IsLine (word ∷ next ∷ words) h =
    All-append IsLine word (comma ∷ join_commas (next ∷ words)) (word-IsLine word h.0)
      ((omega arith, omega arith), join-IsLine (next ∷ words) h.1)

join_word :
    (word : List ℕ) (words : List (List ℕ))
    → is_nil word ≡ false
    → is_nil (join_commas (word ∷ words)) ≡ false
unfolding join_commas
join_word [] words h = absurd (false≢true (sym h))
join_word (c ∷ cs) [] h = refl
join_word (c ∷ cs) (next ∷ words) h = refl

-- Ranges in the form that parsing gives are read back from their text.
pub parse_ranges-print_ranges :
    (rs : List StatusCodeRange) → IsCanonical rs → parse_ranges (print_ranges rs) ≡ some rs
unfolding parse_ranges print_ranges segments merge
parse_ranges-print_ranges [] h = refl
parse_ranges-print_ranges (r ∷ rs) h =
    if_false (is_nil (trim_space line)) _ _
      (ap is_nil kept ∙ join_word (print_range r) (map print_range rs) (print_range-word r valid.0))
    ∙ ap (λ (x : List StatusCodeRange × Bool). if x.1 then none else some (merge (sort_ranges x.0)))
        read
    ∙ ap some (ap merge (sort_ranges-chain 100 (r ∷ rs) h) ∙ merge_from-chain r rs h.3)
  where
    line : List ℕ
    line = join_commas (map print_range (r ∷ rs))

    valid : All IsValid (r ∷ rs)
    valid = chain-IsValid 100 (r ∷ rs) (omega arith) h

    words : All (All IsWord) (map print_range (r ∷ rs))
    words = words-of (r ∷ rs) valid

    kept : trim_space line ≡ line
    kept = trim_space-line line (join-IsLine (map print_range (r ∷ rs)) words)

    read : read_segments (segments line) ≡ (r ∷ rs, false)
    read =
        ap (λ t. read_segments (split comma (map narrow t))) kept
        ∙ ap (λ t. read_segments (split comma t))
            (narrow-line line (join-IsLine (map print_range (r ∷ rs)) words))
        ∙ ap read_segments (split-join_commas (print_range r) (map print_range rs) words)
        ∙ read_segments-print (r ∷ rs) valid
