-- ===== src/StatusCode.antt =====
-- The rules on status codes, setting/operation_setting/status_code_ranges.go: the ranges that an
-- administrator writes, and the tests that the relay makes with them. Texts are code points.
-- `strconv.Atoi` fails on a number past 64 bits; here that number is out of bounds, an error too.
pub mod Match
pub mod Digits
pub mod Named
pub mod Reads
pub mod Merge
pub mod Words
pub mod Print
use east_api.Prelude.{
  ℕ, ◌+◌, ◌-◌, ◌*◌, ◌/◌, ◌%◌, zero, suc, Bool, true, false, not, ◌&&◌, ◌||◌, Option, none, some,
  List, [], ◌∷◌, ◌++◌, map, ltb, leb, ◌==◌, if◌then◌else◌,
}
use east_api.Prelude.Text.{trim_space, codes}

-- `end` is a word of the language.
pub record StatusCodeRange : Type 0 where
  pub start : ℕ
  pub stop : ℕ

abbrev pub comma : ℕ
comma = 44

abbrev pub dash : ℕ
dash = 45

-- `strings.Split` by one code point
unfoldable pub split : ℕ → List ℕ → List (List ℕ)
split sep [] = [] ∷ []
split sep (c ∷ cs) =
    let rest = split sep cs in
    if c == sep
    then [] ∷ rest
    else elim rest [ [] ↦ (c ∷ []) ∷ [] | word ∷ words ↦ (c ∷ word) ∷ words ]

-- `strings.ReplaceAll(token, " ", "")`
unfoldable pub drop_spaces : List ℕ → List ℕ
drop_spaces [] = []
drop_spaces (c ∷ cs) = let rest = drop_spaces cs in if c == 32 then rest else c ∷ rest

abbrev pub has_code : ℕ → List ℕ → Bool
has_code x [] = false
has_code x (c ∷ cs) = c == x || has_code x cs

-- The digits of `strconv.Atoi`
unfoldable pub read_digits : ℕ → List ℕ → Option ℕ
read_digits n [] = some n
read_digits n (c ∷ cs) =
    let rest = read_digits (n * 10 + (c - 48)) cs in if leb 48 c && leb c 57 then rest else none

read_some : List ℕ → Option ℕ
unfolding read_digits
read_some [] = none
read_some (c ∷ cs) = read_digits 0 (c ∷ cs)

-- `strconv.Atoi` of a text without `-`
unfoldable pub atoi : List ℕ → Option ℕ
unfolding read_some
atoi [] = none
atoi (c ∷ cs) = if c == 43 then read_some cs else read_some (c ∷ cs)

abbrev pub fits : ℕ → ℕ → Bool
fits low high = leb low high && leb 100 low && leb high 599

-- The tests on the two numbers of a range, or on one code
check_range : Option ℕ → Option ℕ → Option StatusCodeRange
check_range (some low) (some high) =
    if fits low high then some (record { start = low; stop = high }) else none
check_range _ _ = none

check_parts : List (List ℕ) → Option StatusCodeRange
unfolding check_range atoi
check_parts (low ∷ high ∷ []) = check_range (atoi low) (atoi high)
check_parts _ = none

-- `parseHTTPStatusCodeToken`; `Atoi` fails on an empty part.
unfoldable pub parse_token : List ℕ → Option StatusCodeRange
unfolding check_parts drop_spaces split atoi trim_space
parse_token token =
    let t = drop_spaces (trim_space token) in
    if has_code dash t then check_parts (split dash t) else check_range (atoi t) (atoi t)

abbrev pub is_nil : {A : Type 0} → List A → Bool
is_nil [] = true
is_nil (x ∷ xs) = false

-- What the loop over the segments keeps: the ranges, and whether a segment was invalid.
unfoldable pub read_segments : List (List ℕ) → List StatusCodeRange × Bool
unfolding parse_token trim_space
read_segments [] = ([], false)
read_segments (seg ∷ segs) =
    let (ranges, invalid) = read_segments segs in
    if is_nil (trim_space seg) then (ranges, invalid) else elim (parse_token (trim_space seg)) [
      | none ↦ (ranges, true)
      | some r ↦ (r ∷ ranges, invalid)
    ]

-- The order of `sort.Slice`
abbrev pub sorts_before : StatusCodeRange → StatusCodeRange → Bool
sorts_before a b = ltb a.start b.start || (a.start == b.start && leb a.stop b.stop)

unfoldable pub insert_range : StatusCodeRange → List StatusCodeRange → List StatusCodeRange
insert_range r [] = r ∷ []
insert_range r (t ∷ ts) =
    let rest = insert_range r ts in if sorts_before r t then r ∷ t ∷ ts else t ∷ rest

unfoldable pub sort_ranges : List StatusCodeRange → List StatusCodeRange
unfolding insert_range
sort_ranges [] = []
sort_ranges (r ∷ rs) = insert_range r (sort_ranges rs)

-- `last` after it has taken in `r`
abbrev pub joined : StatusCodeRange → StatusCodeRange → StatusCodeRange
joined last r = if ltb last.stop r.stop then record last { stop = r.stop } else last

-- The loop that merges, with the last range that was put out.
unfoldable pub merge_from : StatusCodeRange → List StatusCodeRange → List StatusCodeRange
merge_from last [] = last ∷ []
merge_from last (r ∷ rs) =
    let taken = merge_from (joined last r) rs in
    let apart = merge_from r rs in if leb r.start (last.stop + 1) then taken else last ∷ apart

unfoldable pub merge : List StatusCodeRange → List StatusCodeRange
unfolding merge_from
merge [] = []
merge (r ∷ rs) = merge_from r rs

-- The replacer of the wide comma
abbrev pub narrow : ℕ → ℕ
narrow c = if c == 65292 then comma else c

-- The segments of an input
unfoldable pub segments : List ℕ → List (List ℕ)
unfolding split trim_space
segments input = split comma (map narrow (trim_space input))

-- `ParseHTTPStatusCodeRanges`; `none` is its error.
unfoldable pub parse_ranges : List ℕ → Option (List StatusCodeRange)
unfolding segments read_segments sort_ranges merge trim_space
parse_ranges input =
    if is_nil (trim_space input)
    then some []
    else let (ranges, invalid) = read_segments (segments input) in
      if invalid then none else some (merge (sort_ranges ranges))

-- The loop of `shouldMatchStatusCodeRanges`
unfoldable pub match_from : List StatusCodeRange → ℕ → Bool
match_from [] code = false
match_from (r ∷ rs) code =
    let rest = match_from rs code in
    if ltb code r.start then false else if leb code r.stop then true else rest

-- `shouldMatchStatusCodeRanges`
unfoldable pub should_match : List StatusCodeRange → ℕ → Bool
unfolding match_from
should_match ranges code = if ltb code 100 || ltb 599 code then false else match_from ranges code

-- `IsAlwaysSkipRetryStatusCode`
abbrev pub always_skips : ℕ → Bool
always_skips code = code == 504 || code == 524

-- `ShouldRetryByStatusCode`, for the ranges in force
unfoldable pub should_retry : List StatusCodeRange → ℕ → Bool
unfolding should_match
should_retry ranges code = if always_skips code then false else should_match ranges code

abbrev range : ℕ → ℕ → StatusCodeRange
range low high = record { start = low; stop = high }

-- `AutomaticRetryStatusCodeRanges`
abbrev pub default_retry : List StatusCodeRange
default_retry =
    range 100 199
    ∷ range 300 399
    ∷ range 401 407
    ∷ range 409 499
    ∷ range 500 503
    ∷ range 505 523
    ∷ range 525 599
    ∷ []

-- `AutomaticDisableStatusCodeRanges`, and `ShouldDisableByStatusCode` for the ranges in force
abbrev pub default_disable : List StatusCodeRange
default_disable = range 401 401 ∷ []

abbrev pub should_disable : List StatusCodeRange → ℕ → Bool
should_disable ranges code = should_match ranges code

-- `strconv.Itoa`, on fuel: a number has at most as many digits as it is large, and one more.
unfoldable pub digits : ℕ → ℕ → List ℕ → List ℕ
digits zero n out = out
digits (suc fuel) n out =
    let next = digits fuel (n / 10) ((48 + n % 10) ∷ out) in
    if ltb n 10 then (48 + n) ∷ out else next

unfoldable pub itoa : ℕ → List ℕ
unfolding digits
itoa n = digits (suc n) n []

unfoldable pub print_range : StatusCodeRange → List ℕ
unfolding itoa
print_range r = if r.start == r.stop then itoa r.start else itoa r.start ++ dash ∷ itoa r.stop

-- `strings.Join(parts, ",")`
unfoldable pub join_commas : List (List ℕ) → List ℕ
join_commas [] = []
join_commas (word ∷ []) = word
join_commas (word ∷ next ∷ words) = word ++ comma ∷ join_commas (next ∷ words)

-- `statusCodeRangesToString`
unfoldable pub print_ranges : List StatusCodeRange → List ℕ
unfolding print_range join_commas
print_ranges ranges = join_commas (map print_range ranges)
