-- ===== src/StatusCode/Match.antt =====
-- Matching a code against ranges in order.
use east_api.Prelude.{
  ℕ, ◌+◌, ◌≤◌, ◌<◌, ◌≡◌, refl, Bool, true, false, not, ◌&&◌, ◌||◌, List, [], ◌∷◌, arith, leb, ◌==◌,
}
use east_api.StatusCode.{StatusCodeRange, match_from, should_match, should_retry, default_retry}

abbrev pub in_range : StatusCodeRange → ℕ → Bool
in_range r code = leb r.start code && leb code r.stop

-- Whether one of the ranges has the code, in whatever order they stand.
abbrev pub covers : List StatusCodeRange → ℕ → Bool
covers [] code = false
covers (r ∷ rs) code = in_range r code || covers rs code

-- Ranges of codes from `n` on, each after a gap.
abbrev pub IsChain : ℕ → List StatusCodeRange → Type 0
IsChain n [] = Unit
IsChain n (r ∷ rs) = (n ≤ r.start) × (r.start ≤ r.stop) × (r.stop ≤ 599) × IsChain (r.stop + 2) rs

-- The form that parsing gives: ascending, in bounds, no two ranges overlap or touch.
abbrev pub IsCanonical : List StatusCodeRange → Type 0
IsCanonical = IsChain 100

covers-below :
    (n code : ℕ) (rs : List StatusCodeRange) → IsChain n rs → code < n → covers rs code ≡ false
covers-below n code [] h lt = refl
covers-below n code (r ∷ rs) (h0, h1, h2, h3) lt =
    ground (arith, covers-below (r.stop + 2) code rs h3)

match_from-covers :
    (n code : ℕ) (rs : List StatusCodeRange) → IsChain n rs → match_from rs code ≡ covers rs code
unfolding match_from
match_from-covers n code [] h = refl
match_from-covers n code (r ∷ rs) (h0, h1, h2, h3) =
    ground (arith, covers-below (r.stop + 2) code rs h3, match_from-covers (r.stop + 2) code rs h3)

covers-above :
    (n code : ℕ) (rs : List StatusCodeRange) → IsChain n rs → 599 < code → covers rs code ≡ false
covers-above n code [] h lt = refl
covers-above n code (r ∷ rs) (h0, h1, h2, h3) lt =
    ground (arith, covers-above (r.stop + 2) code rs h3 lt)

-- On canonical ranges the early returns of the loop lose nothing: a code matches if one of the ranges
-- has it.
pub should_match-covers :
    (code : ℕ) (rs : List StatusCodeRange) → IsCanonical rs → should_match rs code ≡ covers rs code
unfolding should_match
should_match-covers code rs h =
    ground (
      arith,
      match_from-covers 100 code rs h,
      covers-below 100 code rs h,
      covers-above 100 code rs h,
    )

-- The rule that the default ranges are said to match.
abbrev pub legacy_retry : ℕ → Bool
legacy_retry code =
    (leb 100 code && leb code 199)
    || (leb 300 code
        && leb code 599
        && not (code == 400 || code == 408 || code == 504 || code == 524))

-- With the default ranges a code is retried just as by the rule hardcoded before: 1xx, 3xx, 4xx but
-- 400 and 408, 5xx but 504 and 524, and nothing else.
pub should_retry-legacy_retry : (code : ℕ) → should_retry default_retry code ≡ legacy_retry code
unfolding should_retry should_match match_from
should_retry-legacy_retry code = ground arith

-- Whatever the ranges, 504 and 524 are not retried, and no code outside 100 to 599.
pub should_retry-never :
    (rs : List StatusCodeRange) (code : ℕ)
    → should_retry rs code ≡ true
    → (100 ≤ code) × (code ≤ 599) × ((code == 504 || code == 524) ≡ false)
unfolding should_retry should_match
should_retry-never rs code h = ground arith
