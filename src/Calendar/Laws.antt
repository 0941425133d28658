-- ===== src/Calendar/Laws.antt =====
-- A day lies in its month, and adding months moves forward.
use east_api.Prelude.{
  ℕ, zero, suc, ◌+◌, ◌*◌, ◌/◌, ◌≤◌, ◌<◌, ◌≡◌, refl, arith, ltb, Bool-cases, inl, inr,
}
use native.Mathlib.Nat.{add-suc, add-zero}
use east_api.Calendar.{month_length, month_start, month_from, month_of, add_months}

-- A month has 28 to 31 days.
pub month_length_bounds : (k : ℕ) → (28 ≤ month_length k) × (month_length k ≤ 31)
unfolding month_length
month_length_bounds k = ground arith

-- The day lies in the month: its first day is that of the month, and it is not past its end.
abbrev pub IsMonthOf : ℕ → ℕ × ℕ → Type 0
IsMonthOf d (k, s) = (s ≡ month_start k) × (s ≤ d) × (d < s + month_length k)

month_from-IsMonthOf :
    (fuel d k s : ℕ)
    → s ≡ month_start k
    → s ≤ d
    → d < s + fuel * 28
    → IsMonthOf d (month_from fuel d k s)
unfolding month_from month_start
month_from-IsMonthOf zero d k s e h f = absurd (omega arith)
month_from-IsMonthOf (suc fuel) d k s e h f = elim (Bool-cases (ltb d (s + month_length k))) [
  | inl here ↦ rw here (e, h, ground arith)
  | inr later ↦ rw later (
      month_from-IsMonthOf fuel d (suc k) (s + month_length k) (ground arith) (ground arith)
        (ground (arith, month_length_bounds k)))
]

-- The month that is computed for a day is the month that the day lies in.
pub month_of-IsMonthOf : (d : ℕ) → IsMonthOf d (month_of d)
unfolding month_of month_start
month_of-IsMonthOf d = month_from-IsMonthOf (d / 28 + 1) d 0 0 refl (omega arith) (omega arith)

-- A later month begins when an earlier one has ended, or after.
month_start-next : (k n : ℕ) → month_start k + month_length k ≤ month_start (k + suc n)
unfolding month_start
month_start-next k zero = rw (add-suc, add-zero) (omega arith)
month_start-next k (suc n) = rw add-suc (omega (arith, month_start-next k n))

-- A number of months later the day is a later day.
day-lt-month_start : (d k s n : ℕ) → 0 < n → IsMonthOf d (k, s) → d < month_start (k + n)
day-lt-month_start d k s zero h m = elim h [ ]
day-lt-month_start d k s (suc n) h m = omega (arith, month_start-next k n)

-- Adding one month or more moves a time forward.
pub lt-add_months : (n t : ℕ) → 0 < n → t < add_months n t
unfolding add_months
lt-add_months n t h =
    let d = t / 86400 in
    let (k, s) = month_of d in omega (arith, day-lt-month_start d k s n h (month_of-IsMonthOf d))
