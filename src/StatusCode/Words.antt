-- ===== src/StatusCode/Words.antt =====
-- The texts that ranges are printed as: numbers of three digits, dashes and commas.
use east_api.Prelude.{
  ℕ, zero, suc, ◌+◌, ◌/◌, ◌%◌, ◌≤◌, ◌≡◌, refl, ap, ◌∙◌, false, some, List, [], ◌∷◌, ◌++◌, map,
  arith, All, if_false, is_space, is_space_between,
}
use east_api.Prelude.Text.{trim_space, trim_left}
use mathlib.Core.List.{reverse, reverse-cons, reverse-reverse}
use east_api.StatusCode.{
  read_digits, atoi, drop_spaces, has_code, dash, split, comma, narrow, digits, itoa, join_commas,
}

abbrev pub three : ℕ → List ℕ
three n = (48 + n / 100) ∷ (48 + n / 10 % 10) ∷ (48 + n % 10) ∷ []

digits-three : (m n : ℕ) → 100 ≤ n → n ≤ 599 → digits (suc (suc (suc m))) n [] ≡ three n
unfolding digits
digits-three m n lo hi = ground arith

pub itoa-three : (n : ℕ) → 100 ≤ n → n ≤ 599 → itoa n ≡ three n
unfolding itoa
itoa-three zero lo hi = absurd (omega arith)
itoa-three (suc zero) lo hi = absurd (omega arith)
itoa-three (suc (suc m)) lo hi = digits-three m (suc (suc m)) lo hi

pub atoi-three : (n : ℕ) → 100 ≤ n → n ≤ 599 → atoi (three n) ≡ some n
unfolding atoi read_digits
atoi-three n lo hi = ground arith

-- The code points of a printed range, and of a list of them: digits and the dash, and the comma too.
abbrev pub IsWord : ℕ → Type 0
IsWord c = (45 ≤ c) × (c ≤ 57)

abbrev pub IsLine : ℕ → Type 0
IsLine c = (44 ≤ c) × (c ≤ 57)

pub All-append : (P : ℕ → Type 0) (xs ys : List ℕ) → All P xs → All P ys → All P (xs ++ ys)
All-append P [] ys hx hy = hy
All-append P (x ∷ xs) ys hx hy = (hx.0, All-append P xs ys hx.1 hy)

All-reverse : (P : ℕ → Type 0) (xs : List ℕ) → All P xs → All P (reverse xs)
All-reverse P [] h = h
All-reverse P (x ∷ xs) h =
    rw (reverse-cons x xs) (All-append P (reverse xs) (x ∷ []) (All-reverse P xs h.1) (h.0, tt))

not_space : (c : ℕ) → IsLine c → is_space c ≡ false
not_space c h = is_space_between c h.0 h.1

trim_left-line : (cs : List ℕ) → All IsLine cs → trim_left cs ≡ cs
unfolding trim_left
trim_left-line [] h = refl
trim_left-line (c ∷ cs) h = if_false (is_space c) (trim_left cs) (c ∷ cs) (not_space c h.0)

pub trim_space-line : (cs : List ℕ) → All IsLine cs → trim_space cs ≡ cs
unfolding trim_space
trim_space-line cs h =
    ap (λ t. reverse (trim_left (reverse t))) (trim_left-line cs h)
    ∙ ap reverse (trim_left-line (reverse cs) (All-reverse IsLine cs h))
    ∙ reverse-reverse cs

pub word-IsLine : (cs : List ℕ) → All IsWord cs → All IsLine cs
word-IsLine [] h = tt
word-IsLine (c ∷ cs) h = ((omega (arith, h.0), h.0.1), word-IsLine cs h.1)

pub drop_spaces-word : (cs : List ℕ) → All IsWord cs → drop_spaces cs ≡ cs
unfolding drop_spaces
drop_spaces-word [] h = refl
drop_spaces-word (c ∷ cs) h = ground (arith, drop_spaces-word cs h.1)

pub narrow-line : (cs : List ℕ) → All IsLine cs → map narrow cs ≡ cs
narrow-line [] h = refl
narrow-line (c ∷ cs) h = ground (arith, narrow-line cs h.1)

-- Splitting at the first separator, and where there is none.
pub split-append :
    (sep : ℕ) (word rest : List ℕ)
    → has_code sep word ≡ false
    → split sep (word ++ sep ∷ rest) ≡ word ∷ split sep rest
unfolding split
split-append sep [] rest h = ground arith
split-append sep (c ∷ cs) rest h = ground (arith, split-append sep cs rest)

pub split-one : (sep : ℕ) (word : List ℕ) → has_code sep word ≡ false → split sep word ≡ word ∷ []
unfolding split
split-one sep [] h = refl
split-one sep (c ∷ cs) h = ground (arith, split-one sep cs)

has_comma : (cs : List ℕ) → All IsWord cs → has_code comma cs ≡ false
has_comma [] h = refl
has_comma (c ∷ cs) h = ground (arith, has_comma cs h.1)

pub split-join_commas :
    (word : List ℕ) (words : List (List ℕ))
    → All (All IsWord) (word ∷ words)
    → split comma (join_commas (word ∷ words)) ≡ word ∷ words
unfolding join_commas
split-join_commas word [] h = split-one comma word (has_comma word h.0)
split-join_commas word (next ∷ words) h =
    split-append comma word (join_commas (next ∷ words)) (has_comma word h.0)
    ∙ ap (λ ws. word ∷ ws) (split-join_commas next words h.1)

pub three-IsWord : (n : ℕ) → 100 ≤ n → n ≤ 599 → All IsWord (three n)
three-IsWord n lo hi = ground arith

pub three-dash : (n : ℕ) → 100 ≤ n → n ≤ 599 → has_code dash (three n) ≡ false
three-dash n lo hi = ground arith
