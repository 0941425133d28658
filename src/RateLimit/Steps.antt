-- ===== src/RateLimit/Steps.antt =====
-- Each call of the limiter keeps what is known of the queue of a key.
use mathlib.Core.List.{append_assoc, append-nil}
use east_api.Prelude.{
  ℕ, suc, ◌+◌, ◌≤◌, ◌<◌, ◌≡◌, refl, sym, ap, subst, ◌∙◌, inl, inr, Bool, true, false, List, [], ◌∷◌,
  ◌++◌, ltb, leb, length, length-append, All, arith, if_cases,
}
use east_api.RateLimit.{Answer, admitted, refused, panics, enqueue, is_stale}
use east_api.RateLimit.Window.{
  in_stretch, UpTo, Ascending, Past, Tracks, All-append, All-right, UpTo-later, Past-later,
  Ascending-snoc, Ascending-before, Past-before, count_append, grow_windows,
}

-- The admitted times after a call at `now`
abbrev pub log_after : Answer → ℕ → List ℕ → List ℕ
log_after admitted now log = log ++ now ∷ []
log_after refused now log = log
log_after panics now log = log

-- The call does not go out of range.
abbrev pub is_served : Answer → Bool
is_served panics = false
is_served _ = true

abbrev pub Served : ℕ → ℕ → ℕ → List ℕ → Answer × List ℕ → Type 0
Served max d now log (answer, queue) =
    (is_served answer ≡ true) × Tracks max d now (log_after answer now log) queue

-- Time that goes by changes nothing.
pub Tracks-later :
    (max d now later : ℕ) (log queue : List ℕ)
    → now ≤ later
    → Tracks max d now log queue
    → Tracks max d later log queue
Tracks-later max d now later log queue le h = record {
  old = h.old;
  split = h.split;
  bounded = h.bounded;
  ordered = h.ordered;
  so_far = UpTo-later now later log le h.so_far;
  settled = elim h.settled [
    | inl full ↦ inl full
    | inr past ↦ inr (Past-later d now later h.old le past)
  ];
  windows = h.windows;
}

split_windows :
    (max d now : ℕ) (log queue : List ℕ) (h : Tracks max d now log queue) (t : ℕ)
    → in_stretch t d (h.old ++ queue) ≤ max
split_windows max d now log queue h t = subst (λ xs. in_stretch t d xs ≤ max) h.split (h.windows t)

-- The queue has room: its older times are out of date.
Tracks-room :
    (max d now : ℕ) (log queue : List ℕ)
    → length queue < max
    → Tracks max d now log queue
    → Tracks max d now (log ++ now ∷ []) (queue ++ now ∷ [])
Tracks-room max d now log queue room h =
    let past : All (Past d now) h.old = elim h.settled [
      | inl full ↦ absurd (omega (arith, full))
      | inr past ↦ past
    ] in
    record {
      old = h.old;
      split = ap (λ xs. xs ++ now ∷ []) h.split ∙ append_assoc h.old queue (now ∷ []);
      bounded = omega (arith, length-append queue (now ∷ []));
      ordered = Ascending-snoc now log h.ordered h.so_far;
      so_far = All-append (UpTo now) log (now ∷ []) h.so_far (omega arith, tt);
      settled = inr past;
      windows = λ t.
          subst (λ xs. in_stretch t d (xs ++ now ∷ []) ≤ max) (sym h.split)
            (grow_windows max d now h.old queue (omega arith)
              (λ t le lt. Past-before t d now h.old lt past) (split_windows max d now log queue h)
              t);
    }

All-Past : (d now a : ℕ) (xs : List ℕ) → a + d ≤ now → All (UpTo a) xs → All (Past d now) xs
All-Past d now a [] le h = tt
All-Past d now a (x ∷ xs) le h = (omega (arith, h.0), All-Past d now a xs le h.1)

-- The queue is full and its oldest time is out of date: it gives way.
Tracks-shift :
    (max d now oldest : ℕ) (log rest : List ℕ)
    → max ≤ suc (length rest)
    → oldest + d ≤ now
    → Tracks max d now log (oldest ∷ rest)
    → Tracks max d now (log ++ now ∷ []) (rest ++ now ∷ [])
Tracks-shift max d now oldest log rest full le h =
    let parts : log ≡ (h.old ++ oldest ∷ []) ++ rest =
      h.split ∙ sym (append_assoc h.old (oldest ∷ []) rest) in
    let before : All (UpTo oldest) h.old =
      Ascending-before oldest h.old rest (subst Ascending h.split h.ordered) in
    let past : All (Past d now) (h.old ++ oldest ∷ []) =
      All-append (Past d now) h.old (oldest ∷ []) (All-Past d now oldest h.old le before)
        (le, tt) in
    record {
      old = h.old ++ oldest ∷ [];
      split = ap (λ xs. xs ++ now ∷ []) parts ∙ append_assoc (h.old ++ oldest ∷ []) rest (now ∷ []);
      bounded = omega (arith, length-append rest (now ∷ []), h.bounded);
      ordered = Ascending-snoc now log h.ordered h.so_far;
      so_far = All-append (UpTo now) log (now ∷ []) h.so_far (omega arith, tt);
      settled = inr past;
      windows = λ t.
          subst (λ xs. in_stretch t d (xs ++ now ∷ []) ≤ max) (sym parts)
            (grow_windows max d now (h.old ++ oldest ∷ []) rest (omega (arith, h.bounded))
              (λ t le lt. Past-before t d now (h.old ++ oldest ∷ []) lt past)
              (λ t. subst (λ xs. in_stretch t d xs ≤ max) parts (h.windows t)) t);
    }

pub enqueue-Served :
    (max d now : ℕ) (log queue : List ℕ)
    → 1 ≤ max
    → Tracks max d now log queue
    → Served max d now log (enqueue max d now queue)
unfolding enqueue
enqueue-Served max d now log [] some_room h =
    if_cases (Served max d now log) (ltb 0 max)
      (λ e. (refl, Tracks-room max d now log [] (ground arith) h)) (λ e. absurd (ground arith))
enqueue-Served max d now log (oldest ∷ rest) some_room h =
    if_cases (Served max d now log) (ltb (suc (length rest)) max)
      (λ e. (refl, Tracks-room max d now log (oldest ∷ rest) (ground arith) h))
      (λ e.
        if_cases (Served max d now log) (leb (oldest + d) now)
          (λ e1. (refl, Tracks-shift max d now oldest log rest (ground arith) (ground arith) h))
          (λ e1. (refl, h)))

stale-Past :
    (d expiration now : ℕ) (queue : List ℕ)
    → d ≤ expiration
    → Ascending queue
    → is_stale expiration now queue ≡ true
    → All (Past d now) queue
unfolding is_stale
stale-Past d expiration now [] le up stale = tt
stale-Past d expiration now (t ∷ []) le up stale = (ground arith, tt)
stale-Past d expiration now (t ∷ u ∷ rest) le up stale =
    let later : All (Past d now) (u ∷ rest) =
      stale-Past d expiration now (u ∷ rest) le up.1 stale in
    (omega (arith, up.0.0, later.0), later)

Ascending-right : (xs ys : List ℕ) → Ascending (xs ++ ys) → Ascending ys
Ascending-right [] ys h = h
Ascending-right (x ∷ xs) ys h = Ascending-right xs ys h.1

-- An entry whose newest time is out of date can be forgotten.
pub Tracks-forget :
    (max d expiration now : ℕ) (log queue : List ℕ)
    → 1 ≤ max
    → d ≤ expiration
    → is_stale expiration now queue ≡ true
    → Tracks max d now log queue
    → Tracks max d now log []
Tracks-forget max d expiration now log [] some_room le stale h = record {
  old = h.old;
  split = h.split;
  bounded = omega arith;
  ordered = h.ordered;
  so_far = h.so_far;
  settled = h.settled;
  windows = h.windows;
}
Tracks-forget max d expiration now log (t ∷ rest) some_room le stale h =
    let up : Ascending (h.old ++ t ∷ rest) = subst Ascending h.split h.ordered in
    let later : All (Past d now) (t ∷ rest) =
      stale-Past d expiration now (t ∷ rest) le (Ascending-right h.old (t ∷ rest) up) stale in
    record {
      old = h.old ++ t ∷ rest;
      split = h.split ∙ sym (append-nil (h.old ++ t ∷ rest));
      bounded = omega arith;
      ordered = h.ordered;
      so_far = h.so_far;
      settled = inr (
          All-append (Past d now) h.old (t ∷ rest)
            (All-Past d now t h.old later.0 (Ascending-before t h.old rest up)) later);
      windows = h.windows;
    }

count_inside :
    (t d now : ℕ) (xs : List ℕ)
    → now < t + d
    → All (λ y. t ≤ y) xs
    → All (UpTo now) xs
    → in_stretch t d xs ≡ length xs
count_inside t d now [] lt low high = refl
count_inside t d now (x ∷ xs) lt low high =
    ground (arith, low.0, high.0, count_inside t d now xs lt low.1 high.1)

-- What an answer says of the requests that were admitted before
abbrev pub Explained : ℕ → ℕ → ℕ → List ℕ → Answer → Type 0
Explained max d now log admitted = (t : ℕ) → in_stretch t d (log ++ now ∷ []) ≤ max
Explained max d now log refused = (t : ℕ) × (t ≤ now) × (now < t + d) × (max ≤ in_stretch t d log)
Explained max d now log panics = ⊥

refused_full :
    (max d now oldest : ℕ) (log rest : List ℕ)
    → max ≤ suc (length rest)
    → now < oldest + d
    → Tracks max d now log (oldest ∷ rest)
    → Explained max d now log refused
refused_full max d now oldest log rest full lt h =
    let up : Ascending (oldest ∷ rest) =
      Ascending-right h.old (oldest ∷ rest) (subst Ascending h.split h.ordered) in
    let recent : All (UpTo now) (oldest ∷ rest) =
      All-right (UpTo now) h.old (oldest ∷ rest) (subst (All (UpTo now)) h.split h.so_far) in
    (
      oldest,
      recent.0,
      lt,
      subst (λ xs. max ≤ in_stretch oldest d xs) (sym h.split)
          (omega (
            arith,
            count_append oldest d h.old (oldest ∷ rest),
            count_inside oldest d now (oldest ∷ rest) lt (omega arith, up.0) recent,
          )),
    )

pub enqueue-Explained :
    (max d now : ℕ) (log queue : List ℕ)
    → 1 ≤ max
    → Tracks max d now log queue
    → Explained max d now log (enqueue max d now queue).0
unfolding enqueue
enqueue-Explained max d now log [] some_room h =
    if_cases (λ (x : Answer × List ℕ). Explained max d now log x.0) (ltb 0 max)
      (λ e. (Tracks-room max d now log [] (ground arith) h).windows) (λ e. absurd (ground arith))
enqueue-Explained max d now log (oldest ∷ rest) some_room h =
    if_cases (λ (x : Answer × List ℕ). Explained max d now log x.0) (ltb (suc (length rest)) max)
      (λ e. (Tracks-room max d now log (oldest ∷ rest) (ground arith) h).windows)
      (λ e.
        if_cases (λ (x : Answer × List ℕ). Explained max d now log x.0) (leb (oldest + d) now)
          (λ e1. (Tracks-shift max d now oldest log rest (ground arith) (ground arith) h).windows)
          (λ e1. refused_full max d now oldest log rest (ground arith) (ground arith) h))
