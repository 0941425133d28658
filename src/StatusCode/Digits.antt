-- ===== src/StatusCode/Digits.antt =====
-- Decimal numbers, described apart from the code that reads them (strconv.Atoi)
use mathlib.Core.List.{append_assoc, append-nil}
use east_api.Prelude.{
  ℕ, ◌+◌, ◌-◌, ◌*◌, ◌≤◌, ◌≡◌, ◌≢◌, refl, sym, ap, subst, ◌∙◌, ◌⊎◌, false, ◌||◌, Option, none, some,
  List, [], ◌∷◌, ◌++◌, arith, ◌==◌, ==_iff, leb, ◌&&◌, if_true, if_false, Bool-cases, inl, inr,
}
use east_api.StatusCode.{read_digits, read_some, atoi, has_code, dash}

-- The decimal digits of a number, one or more
pub data Decimal : List ℕ → ℕ → Type 0 where
  digit : (c : ℕ) → 48 ≤ c → c ≤ 57 → Decimal (c ∷ []) (c - 48)
  more :
      (ds : List ℕ) (n c : ℕ)
      → Decimal ds n
      → 48 ≤ c
      → c ≤ 57
      → Decimal (ds ++ c ∷ []) (n * 10 + (c - 48))

-- A number may have a plus sign.
abbrev pub IsNumber : List ℕ → ℕ → Type 0
IsNumber t n = Decimal t n ⊎ ((ds : List ℕ) × (t ≡ 43 ∷ ds) × Decimal ds n)

read_digits-snoc :
    (m : ℕ) (ds : List ℕ) (n c : ℕ)
    → read_digits m ds ≡ some n
    → 48 ≤ c
    → c ≤ 57
    → read_digits m (ds ++ c ∷ []) ≡ some (n * 10 + (c - 48))
unfolding read_digits
read_digits-snoc m [] n c e lo hi = ground arith
read_digits-snoc m (d ∷ ds) n c e lo hi =
    ground (arith, read_digits-snoc (m * 10 + (d - 48)) ds n c)

Decimal-read : {ds : List ℕ} {n : ℕ} → Decimal ds n → read_digits 0 ds ≡ some n
unfolding read_digits
Decimal-read (digit c lo hi) = ground arith
Decimal-read (more ds n c d lo hi) = read_digits-snoc 0 ds n c (Decimal-read d) lo hi

-- The first code point of the digits
Decimal-cons :
    {ds : List ℕ} {n : ℕ} → Decimal ds n → (c : ℕ) × (cs : List ℕ) × (ds ≡ c ∷ cs) × (48 ≤ c)
Decimal-cons (digit c lo hi) = (c, [], refl, lo)
Decimal-cons (more ds n c d lo hi) =
    let first = Decimal-cons d in
    (first.0, first.1 ++ c ∷ [], ap (λ xs. xs ++ c ∷ []) first.2, first.3)

has_code-append : (x : ℕ) (a b : List ℕ) → has_code x (a ++ b) ≡ has_code x a || has_code x b
has_code-append x [] b = refl
has_code-append x (c ∷ a) b = ground (arith, has_code-append x a b)

Decimal-dash : {ds : List ℕ} {n : ℕ} → Decimal ds n → has_code dash ds ≡ false
Decimal-dash (digit c lo hi) = ground arith
Decimal-dash (more ds n c d lo hi) =
    has_code-append dash ds (c ∷ []) ∙ ground (arith, Decimal-dash d)

read_some-Decimal : {ds : List ℕ} {n : ℕ} → Decimal ds n → read_some ds ≡ some n
unfolding read_some
read_some-Decimal {ds} {n} d =
    let first = Decimal-cons d in
    ap read_some first.2 ∙ ap (read_digits 0) (sym first.2) ∙ Decimal-read d

atoi-Decimal : {ds : List ℕ} {n : ℕ} → Decimal ds n → atoi ds ≡ some n
unfolding atoi
atoi-Decimal {ds} d =
    let first = Decimal-cons d in
    ap atoi first.2
    ∙ if_false (first.0 == 43) (read_some first.1) (read_some (first.0 ∷ first.1))
        (plain first.0 first.3)
    ∙ ap read_some (sym first.2)
    ∙ read_some-Decimal d
  where
    plain : (c : ℕ) → 48 ≤ c → (c == 43) ≡ false
    plain c lo = ground arith

pub IsNumber-atoi : (t : List ℕ) (n : ℕ) → IsNumber t n → atoi t ≡ some n
unfolding atoi
IsNumber-atoi t n (inl d) = atoi-Decimal d
IsNumber-atoi t n (inr (ds, e, d)) = ap atoi e ∙ read_some-Decimal d

pub IsNumber-dash : (t : List ℕ) (n : ℕ) → IsNumber t n → has_code dash t ≡ false
IsNumber-dash t n (inl d) = Decimal-dash d
IsNumber-dash t n (inr (ds, e, d)) = ap (has_code dash) e ∙ Decimal-dash d

nothing : {k : ℕ} → ◌≢◌ {A = Option ℕ} none (some k)
nothing e = ground arith

read_digits-Decimal :
    (front cs : List ℕ) (m n : ℕ)
    → Decimal front m
    → read_digits m cs ≡ some n
    → Decimal (front ++ cs) n
unfolding read_digits
read_digits-Decimal front [] m n d e =
    subst (λ t. Decimal t n) (sym (append-nil front))
      (subst (Decimal front) (ap (λ o. elim o as (λ _. ℕ) [ none ↦ m | some x ↦ x ]) e) d)
read_digits-Decimal front (c ∷ cs) m n d e = elim (Bool-cases (leb 48 c && leb c 57)) [
  | inl is ↦
      subst (λ t. Decimal t n) (append_assoc front (c ∷ []) cs)
        (read_digits-Decimal (front ++ c ∷ []) cs (m * 10 + (c - 48)) n
          (more front m c d (ground arith) (ground arith))
          (sym (if_true (leb 48 c && leb c 57) _ none is) ∙ e))
  | inr not ↦ absurd (nothing (sym (if_false (leb 48 c && leb c 57) _ none not) ∙ e))
]

read_some-number : (t : List ℕ) (n : ℕ) → read_some t ≡ some n → Decimal t n
unfolding read_some read_digits
read_some-number [] n e = absurd (nothing e)
read_some-number (c ∷ cs) n e = elim (Bool-cases (leb 48 c && leb c 57)) [
  | inl is ↦ read_digits-Decimal (c ∷ []) cs (c - 48) n (digit c (ground arith) (ground arith)) (
      ap (λ k. read_digits k cs) (omega arith) ∙ sym (if_true (leb 48 c && leb c 57) _ none is) ∙ e)
  | inr not ↦ absurd (nothing (sym (if_false (leb 48 c && leb c 57) _ none not) ∙ e))
]

pub atoi-IsNumber : (t : List ℕ) (n : ℕ) → atoi t ≡ some n → IsNumber t n
unfolding atoi
atoi-IsNumber [] n e = inl (read_some-number [] n e)
atoi-IsNumber (c ∷ cs) n e = elim (Bool-cases (c == 43)) [
  | inl plus ↦ inr (
    cs,
    ap (λ x. x ∷ cs) ((==_iff c 43).0 plus),
    read_some-number cs n (sym (if_true (c == 43) _ _ plus) ∙ e),
  )
  | inr unsigned ↦ inl (read_some-number (c ∷ cs) n (sym (if_false (c == 43) _ _ unsigned) ∙ e))
]
