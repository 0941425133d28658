-- ===== src/RateLimit/Window.antt =====
-- No more than the limit is admitted in any stretch of time.
use east_api.Prelude.{
  ℕ, ◌+◌, ◌≤◌, ◌<◌, ◌≡◌, refl, ◌⊎◌, inl, inr, Bool, ◌&&◌, List, [], ◌∷◌, ◌++◌, ltb, leb, length,
  All, arith, Bool-cases,
}
use east_api.Prelude.Tables.{count_where}

-- The time is in the stretch of length `d` that begins at `t`.
abbrev pub in_window : ℕ → ℕ → ℕ → Bool
in_window t d x = leb t x && ltb x (t + d)

abbrev pub in_stretch : ℕ → ℕ → List ℕ → ℕ
in_stretch t d log = count_where (in_window t d) log

pub count_append :
    (t d : ℕ) (xs ys : List ℕ) → in_stretch t d (xs ++ ys) ≡ in_stretch t d xs + in_stretch t d ys
count_append t d [] ys = omega arith
count_append t d (x ∷ xs) ys = ground (arith, count_append t d xs ys)

count-length : (t d : ℕ) (xs : List ℕ) → in_stretch t d xs ≤ length xs
count-length t d [] = omega arith
count-length t d (x ∷ xs) = ground (arith, count-length t d xs)

abbrev pub UpTo : ℕ → ℕ → Type 0
UpTo m x = x ≤ m

-- Times before a stretch are not in it.
count_before : (t d m : ℕ) (xs : List ℕ) → m < t → All (UpTo m) xs → in_stretch t d xs ≡ 0
count_before t d m [] lt h = refl
count_before t d m (x ∷ xs) lt (h, hs) = ground (arith, count_before t d m xs lt hs)

abbrev pub Ascending : List ℕ → Type 0
Ascending [] = Unit
Ascending (x ∷ xs) = All (λ y. x ≤ y) xs × Ascending xs

abbrev pub Past : ℕ → ℕ → ℕ → Type 0
Past d now x = x + d ≤ now

-- What is known of the times that were admitted for a key and of its queue, where the last event was
-- at `now`: the log ends with the queue, and what stands before it no longer counts, because the
-- queue is full or because it is out of date.
pub record Tracks (max d now : ℕ) (log queue : List ℕ) : Type 0 where
  pub old : List ℕ
  pub split : log ≡ old ++ queue
  pub bounded : length queue ≤ max
  pub ordered : Ascending log
  pub so_far : All (UpTo now) log
  pub settled : (length queue ≡ max) ⊎ All (Past d now) old
  pub windows : (t : ℕ) → in_stretch t d log ≤ max

pub All-append : (P : ℕ → Type 0) (xs ys : List ℕ) → All P xs → All P ys → All P (xs ++ ys)
All-append P [] ys hx hy = hy
All-append P (x ∷ xs) ys hx hy = (hx.0, All-append P xs ys hx.1 hy)

pub All-left : (P : ℕ → Type 0) (xs ys : List ℕ) → All P (xs ++ ys) → All P xs
All-left P [] ys h = tt
All-left P (x ∷ xs) ys h = (h.0, All-left P xs ys h.1)

pub All-right : (P : ℕ → Type 0) (xs ys : List ℕ) → All P (xs ++ ys) → All P ys
All-right P [] ys h = h
All-right P (x ∷ xs) ys h = All-right P xs ys h.1

pub UpTo-later : (m n : ℕ) (xs : List ℕ) → m ≤ n → All (UpTo m) xs → All (UpTo n) xs
UpTo-later m n [] le h = tt
UpTo-later m n (x ∷ xs) le h = (omega (arith, h.0), UpTo-later m n xs le h.1)

pub Past-later : (d m n : ℕ) (xs : List ℕ) → m ≤ n → All (Past d m) xs → All (Past d n) xs
Past-later d m n [] le h = tt
Past-later d m n (x ∷ xs) le h = (omega (arith, h.0), Past-later d m n xs le h.1)

pub Ascending-snoc :
    (now : ℕ) (log : List ℕ) → Ascending log → All (UpTo now) log → Ascending (log ++ now ∷ [])
Ascending-snoc now [] h k = (tt, tt)
Ascending-snoc now (x ∷ xs) h k =
    (All-append (λ y. x ≤ y) xs (now ∷ []) h.0 (k.0, tt), Ascending-snoc now xs h.1 k.1)

-- What stands before an element of an ascending list is at most that element.
pub Ascending-before : (a : ℕ) (xs ys : List ℕ) → Ascending (xs ++ a ∷ ys) → All (UpTo a) xs
Ascending-before a [] ys h = tt
Ascending-before a (x ∷ xs) ys h =
    ((All-right (λ y. x ≤ y) xs (a ∷ ys) h.0).0, Ascending-before a xs ys h.1)

pub Past-before :
    (t d now : ℕ) (xs : List ℕ) → now < t + d → All (Past d now) xs → in_stretch t d xs ≡ 0
Past-before t d now [] lt h = refl
Past-before t d now (x ∷ xs) lt h = ground (arith, Past-before t d now xs lt h.1)

-- One more time `now`, after a log whose part `old` is out of every stretch that `now` is in.
pub grow_windows :
    (max d now : ℕ) (old rest : List ℕ)
    → length rest + 1 ≤ max
    → ((t : ℕ) → t ≤ now → now < t + d → in_stretch t d old ≡ 0)
    → ((t : ℕ) → in_stretch t d (old ++ rest) ≤ max)
    → (t : ℕ) → in_stretch t d ((old ++ rest) ++ now ∷ []) ≤ max
grow_windows max d now old rest room gone before t =
    rw (count_append t d (old ++ rest) (now ∷ [])) (elim (Bool-cases (in_window t d now)) [
      | inl inside ↦
          rw (inside, count_append t d old rest)
            (omega (arith, gone t (ground arith) (ground arith), count-length t d rest))
      | inr outside ↦ rw outside (omega (arith, before t))
    ])
