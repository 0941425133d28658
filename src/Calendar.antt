-- ===== src/Calendar.antt =====
-- What model/subscription.go uses of Go's `time`, in UTC: a time is its seconds since the epoch, a
-- day its number since the epoch, a month its number since January 1970.
pub mod Laws
use east_api.Prelude.{
  ℕ, zero, suc, ◌+◌, ◌-◌, ◌*◌, ◌/◌, ◌%◌, Bool, not, ◌&&◌, ◌||◌, ltb, ◌==◌, if◌then◌else◌,
}

abbrev pub day_seconds : ℕ
day_seconds = 86400

pub is_leap : ℕ → Bool
is_leap y = (y % 4 == 0 && not (y % 100 == 0)) || y % 400 == 0

-- The days of a month that `m` counts from January, 0.
pub days_in : ℕ → Bool → ℕ
days_in m leap =
    if m == 1
    then if leap then 29 else 28
    else if m == 3 || m == 5 || m == 8 || m == 10
    then 30
    else 31

unfoldable pub month_length : ℕ → ℕ
unfolding is_leap days_in
month_length k = days_in (k % 12) (is_leap (1970 + k / 12))

-- The first day of a month.
unfoldable pub month_start : ℕ → ℕ
unfolding month_length
month_start zero = 0
month_start (suc k) = month_start k + month_length k

-- The month of a day and that month's first day: months pass from the `k`-th, that begins on day `s`.
unfoldable pub month_from : ℕ → ℕ → ℕ → ℕ → ℕ × ℕ
unfolding month_length
month_from zero d k s = (k, s)
month_from (suc fuel) d k s =
    let rest = month_from fuel d (suc k) (s + month_length k) in
    if ltb d (s + month_length k) then (k, s) else rest

-- No month is shorter than 28 days.
unfoldable pub month_of : ℕ → ℕ × ℕ
unfolding month_from
month_of d = month_from (d / 28 + 1) d 0 0

-- `t.Weekday()`: Sunday is 0, and the epoch was a Thursday.
unfoldable pub weekday : ℕ → ℕ
weekday d = (d + 4) % 7

-- `t.AddDate(0, n, 0)`; a day that the month lacks runs on into the next.
unfoldable pub add_months : ℕ → ℕ → ℕ
unfolding month_of month_start
add_months n t =
    let (k, s) = month_of (t / day_seconds) in
    (month_start (k + n) + (t / day_seconds - s)) * day_seconds + t % day_seconds
