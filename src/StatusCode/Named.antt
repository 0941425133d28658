-- ===== src/StatusCode/Named.antt =====
-- What a segment of the input spells: a number, or two with a dash between them, described apart from
-- the parser.
use east_api.Prelude.{
  ℕ, ◌≤◌, ◌≡◌, refl, sym, ap, subst, ◌∙◌, ◌⊎◌, true, Option, none, some, List, [], ◌∷◌, ◌++◌, arith,
  ◌==◌, ==_iff, if_true, if_false, if_both, if_cases, if◌then◌else◌, Bool-cases, inl, inr,
}
use east_api.StatusCode.{
  StatusCodeRange, atoi, has_code, dash, split, fits, check_range, check_parts, drop_spaces,
  parse_token,
}
use east_api.Prelude.Text.{trim_space}
use east_api.StatusCode.Digits.{IsNumber, IsNumber-atoi, IsNumber-dash, atoi-IsNumber}
use east_api.StatusCode.Words.{split-append, split-one}

-- The word is a code from 100 to 599, or a range of such codes.
abbrev pub Spells : List ℕ → ℕ → ℕ → Type 0
Spells t low high =
    (100 ≤ low)
    × (low ≤ high)
    × (high ≤ 599)
    × ((IsNumber t low × (low ≡ high))
        ⊎ ((a : List ℕ) × (b : List ℕ) × (t ≡ a ++ dash ∷ b) × IsNumber a low × IsNumber b high))

-- The words with a dash between them
abbrev joined_words : List (List ℕ) → List ℕ
joined_words [] = []
joined_words (w ∷ []) = w
joined_words (w ∷ v ∷ ws) = w ++ dash ∷ joined_words (v ∷ ws)

joined_words-cons :
    (c : ℕ) (w : List ℕ) (ws : List (List ℕ))
    → joined_words ((c ∷ w) ∷ ws) ≡ c ∷ joined_words (w ∷ ws)
joined_words-cons c w [] = refl
joined_words-cons c w (v ∷ ws) = refl

split-words :
    (t : List ℕ)
    → (w : List ℕ) × (ws : List (List ℕ)) × (split dash t ≡ w ∷ ws) × (joined_words (w ∷ ws) ≡ t)
unfolding split
split-words [] = ([], [], refl, refl)
split-words (c ∷ cs) =
    let (w, ws, e, j) = split-words cs in
    elim (Bool-cases (c == dash)) [
      | inl is ↦ (
        [],
        w ∷ ws,
        if_true (c == dash) _ _ is ∙ ap (λ r. [] ∷ r) e,
        ap (λ x. dash ∷ x) j ∙ ap (λ x. x ∷ cs) (sym ((==_iff c dash).0 is)),
      )
      | inr other ↦ (
        c ∷ w,
        ws,
        if_false (c == dash) _ _ other
            ∙ ap
                (λ (r : List (List ℕ)). elim r as (λ _. List (List ℕ)) [
                  | [] ↦ (c ∷ []) ∷ []
                  | v ∷ vs ↦ (c ∷ v) ∷ vs
                ])
                e,
        joined_words-cons c w ws ∙ ap (λ x. c ∷ x) j,
      )
    ]

joined_words-split : (t : List ℕ) → joined_words (split dash t) ≡ t
joined_words-split t = let (w, ws, e, j) = split-words t in ap joined_words e ∙ j

-- `parseHTTPStatusCodeToken` of a token without spaces
parse_word : List ℕ → Option StatusCodeRange
parse_word t = if has_code dash t then check_parts (split dash t) else check_range (atoi t) (atoi t)

IfSpells : List ℕ → Option StatusCodeRange → Type 0
IfSpells t none = Unit
IfSpells t (some r) = Spells t r.start r.stop

check_range-IfSpells :
    (t : List ℕ) (a b : Option ℕ)
    → ((low high : ℕ)
        → a ≡ some low
        → b ≡ some high
        → (IsNumber t low × (low ≡ high))
          ⊎ ((x : List ℕ) × (y : List ℕ) × (t ≡ x ++ dash ∷ y) × IsNumber x low × IsNumber y high))
    → IfSpells t (check_range a b)
unfolding check_range IfSpells
check_range-IfSpells t none b read = tt
check_range-IfSpells t (some low) none read = tt
check_range-IfSpells t (some low) (some high) read =
    if_cases (IfSpells t) (fits low high)
      (λ fit. (ground arith, ground arith, ground arith, read low high refl refl)) λ _. tt

same_number : {o : Option ℕ} {m n : ℕ} → o ≡ some m → o ≡ some n → m ≡ n
same_number {o} {m} {n} e f =
    ap (λ (x : Option ℕ). elim x as (λ _. ℕ) [ none ↦ m | some k ↦ k ]) (sym e ∙ f)

check_parts-IfSpells :
    (t : List ℕ) (parts : List (List ℕ)) → joined_words parts ≡ t → IfSpells t (check_parts parts)
unfolding check_parts IfSpells
check_parts-IfSpells t [] j = tt
check_parts-IfSpells t (a ∷ []) j = tt
check_parts-IfSpells t (a ∷ b ∷ []) j =
    check_range-IfSpells t (atoi a) (atoi b)
      λ low high ea eb. inr (a, b, sym j, atoi-IsNumber a low ea, atoi-IsNumber b high eb)
check_parts-IfSpells t (a ∷ b ∷ c ∷ rest) j = tt

parse_word-IfSpells : (t : List ℕ) → IfSpells t (parse_word t)
unfolding parse_word
parse_word-IfSpells t =
    if_both (IfSpells t) (has_code dash t)
      (check_parts-IfSpells t (split dash t) (joined_words-split t))
      (check_range-IfSpells t (atoi t) (atoi t)
        λ low high ea eb. inl (atoi-IsNumber t low ea, same_number ea eb))

-- What is left of a token without spaces
abbrev pub word : List ℕ → List ℕ
word token = drop_spaces (trim_space token)

-- A token that is read spells the range that it is read as.
pub parse_token-Spells :
    (token : List ℕ) (r : StatusCodeRange)
    → parse_token token ≡ some r
    → Spells (word token) r.start r.stop
unfolding IfSpells parse_token parse_word
parse_token-Spells token r e = subst (IfSpells (word token)) e (parse_word-IfSpells (word token))

has_dash : (a b : List ℕ) → has_code dash (a ++ dash ∷ b) ≡ true
has_dash [] b = ground arith
has_dash (c ∷ a) b = ground (arith, has_dash a b)

check_range-fits :
    (a b : Option ℕ) (low high : ℕ)
    → a ≡ some low
    → b ≡ some high
    → 100 ≤ low
    → low ≤ high
    → high ≤ 599
    → check_range a b ≡ some (record { start = low; stop = high })
unfolding check_range
check_range-fits a b low high ea eb h0 h1 h2 =
    rw (ea, eb) (if_true (fits low high) _ none (ground arith))

Spells-parse_word :
    (t : List ℕ) (low high : ℕ)
    → Spells t low high
    → parse_word t ≡ some (record { start = low; stop = high })
unfolding check_parts parse_word
Spells-parse_word t low high (h0, h1, h2, inl (n, same)) =
    if_false (has_code dash t) _ _ (IsNumber-dash t low n)
    ∙ check_range-fits (atoi t) (atoi t) low high (IsNumber-atoi t low n)
        (IsNumber-atoi t low n ∙ ap some same) h0 h1 h2
Spells-parse_word t low high (h0, h1, h2, inr (a, b, e, m, n)) =
    ap parse_word e
    ∙ if_true (has_code dash (a ++ dash ∷ b)) _ _ (has_dash a b)
    ∙ ap check_parts (
        split-append dash a b (IsNumber-dash a low m)
        ∙ ap (λ ws. a ∷ ws) (split-one dash b (IsNumber-dash b high n)))
    ∙ check_range-fits (atoi a) (atoi b) low high (IsNumber-atoi a low m) (IsNumber-atoi b high n)
        h0 h1 h2

-- A token that spells a range is read as it.
pub Spells-parse_token :
    (token : List ℕ) (low high : ℕ)
    → Spells (word token) low high
    → parse_token token ≡ some (record { start = low; stop = high })
unfolding parse_token parse_word
Spells-parse_token token low high h = Spells-parse_word (word token) low high h
