-- ===== src/Channel/Pick.antt =====
-- The last loop of the choice: it finds a channel, each for as many random values as its weight.
use native.Mathlib.Nat.{div-lt_iff_lt-mul}
use east_api.Prelude.{
  ℕ, suc, ◌+◌, ◌-◌, ◌*◌, ◌/◌, ◌≤◌, ◌<◌, ◌≡◌, refl, sym, ◌∙◌, subst, Bool, true, false, List, [],
  ◌∷◌, ◌++◌, ltb, ◌==◌, length, if◌then◌else◌, arith, All, if_cases, if_true, if_false, Bool-cases,
  ==_iff, inl, inr,
}
use east_api.Channel.{
  Channel, Selection, chosen, nothing, inconsistent, exhausted, sum_weight, smoothing_factor,
  smoothing_adjustment, total_weight, pick, choose_among,
}

-- The answer is a channel that has the property.
abbrev pub Chosen : (Channel → Type 0) → Selection → Type 0
Chosen P (chosen c) = P c
Chosen P nothing = ⊥
Chosen P inconsistent = ⊥
Chosen P exhausted = ⊥

abbrev pub share_of : ℕ → ℕ → Channel → ℕ
share_of factor adjustment c = c.weight * factor + adjustment

abbrev pub shares : ℕ → ℕ → List Channel → ℕ
shares factor adjustment [] = 0
shares factor adjustment (c ∷ cs) = share_of factor adjustment c + shares factor adjustment cs

pub pick-Chosen :
    (P : Channel → Type 0) (factor adjustment r : ℕ) (cs : List Channel)
    → r < shares factor adjustment cs
    → All P cs
    → Chosen P (pick factor adjustment r cs)
unfolding pick
pick-Chosen P factor adjustment r [] lt h = absurd (omega (arith, lt))
pick-Chosen P factor adjustment r (c ∷ cs) lt h =
    if_cases (Chosen P) (ltb r (share_of factor adjustment c)) (λ here. h.0)
      λ past.
        pick-Chosen P factor adjustment (r - share_of factor adjustment c) cs
          (left (share_of factor adjustment c) (shares factor adjustment cs) past lt) h.1
  where
    left : (a b : ℕ) → ltb r a ≡ false → r < a + b → r - a < b
    left a b past lt = ground arith

-- A channel is chosen for the random values from the shares before it on, as many as its share.
pub pick_share :
    (factor adjustment r : ℕ) (before after : List Channel) (c : Channel)
    → shares factor adjustment before ≤ r
    → r < shares factor adjustment before + share_of factor adjustment c
    → pick factor adjustment r (before ++ c ∷ after) ≡ chosen c
unfolding pick
pick_share factor adjustment r [] after c low high =
    if_true (ltb r (share_of factor adjustment c)) _ _ (ground (arith, high))
pick_share factor adjustment r (b ∷ before) after c low high =
    if_false (ltb r (share_of factor adjustment b)) _ _
      (past (share_of factor adjustment b) (shares factor adjustment before) low)
    ∙ pick_share factor adjustment (r - share_of factor adjustment b) before after c
        (less (share_of factor adjustment b) (shares factor adjustment before) low)
        (more (share_of factor adjustment b) (shares factor adjustment before)
          (share_of factor adjustment c) low high)
  where
    past : (a b : ℕ) → a + b ≤ r → ltb r a ≡ false
    past a b le = ground arith

    less : (a b : ℕ) → a + b ≤ r → b ≤ r - a
    less a b le = omega arith

    more : (a b d : ℕ) → a + b ≤ r → r < a + b + d → r - a < b + d
    more a b d le lt = omega arith

shares_even : (cs : List Channel) → shares 1 100 cs ≡ sum_weight cs + length cs * 100
shares_even [] = refl
shares_even (c ∷ cs) = omega (arith, shares_even cs)

shares_raised : (cs : List Channel) → shares 100 0 cs ≡ sum_weight cs * 100
shares_raised [] = refl
shares_raised (c ∷ cs) = omega (arith, shares_raised cs)

shares_plain : (cs : List Channel) → shares 1 0 cs ≡ sum_weight cs
shares_plain [] = refl
shares_plain (c ∷ cs) = omega (arith, shares_plain cs)

-- The random values are as many as the shares.
pub total_weight-shares :
    (cs : List Channel)
    → total_weight cs ≡ shares (smoothing_factor cs) (smoothing_adjustment cs) cs
total_weight-shares cs = elim (Bool-cases (sum_weight cs == 0)) [
  | inl none_at_all ↦
      rw none_at_all (omega (arith, shares_even cs, (==_iff (sum_weight cs) 0).0 none_at_all))
  | inr some_weight ↦ rw some_weight (elim (Bool-cases (ltb (sum_weight cs / length cs) 10)) [
    | inl small ↦ rw small (sym (shares_raised cs))
    | inr large ↦ rw large (omega (arith, shares_plain cs))
  ])
]

some_total :
    (s n : ℕ) (b : Bool)
    → 1 ≤ (if s == 0 then suc n * 100 else s * (if s == 0 then 1 else (if b then 100 else 1)))
some_total s n true = ground arith
some_total s n false = ground arith

-- There is a random value to draw.
total_weight_some : (c : Channel) (cs : List Channel) → 1 ≤ total_weight (c ∷ cs)
total_weight_some c cs =
    some_total (sum_weight (c ∷ cs)) (length cs) (ltb (sum_weight (c ∷ cs) / length (c ∷ cs)) 10)

-- Among channels of which there is one, a channel is chosen.
pub choose_among-Chosen :
    (draw : ℕ → ℕ) (P : Channel → Type 0) (cs : List Channel)
    → ((n : ℕ) → 1 ≤ n → draw n < n)
    → 1 ≤ length cs
    → All P cs
    → Chosen P (choose_among draw cs)
unfolding choose_among
choose_among-Chosen draw P [] below some h = absurd (omega (arith, some))
choose_among-Chosen draw P (c ∷ cs) below some h =
    pick-Chosen P (smoothing_factor (c ∷ cs)) (smoothing_adjustment (c ∷ cs))
      (draw (total_weight (c ∷ cs))) (c ∷ cs)
      (subst (λ n. draw (total_weight (c ∷ cs)) < n) (total_weight-shares (c ∷ cs))
        (below (total_weight (c ∷ cs)) (total_weight_some c cs)))
      h

-- The sum of the weights, a description apart from the code's
abbrev pub all_weights : List Channel → ℕ
all_weights [] = 0
all_weights (c ∷ cs) = all_weights cs + c.weight

-- The random values that belong to a channel among `cs`: 100 where no channel has a weight, 100 for
-- each unit of its weight where the weights are below 10 on average, and else as many as its weight.
abbrev pub values_of : List Channel → Channel → ℕ
values_of cs c =
    if all_weights cs == 0
    then 100
    else if ltb (all_weights cs) (10 * length cs)
    then 100 * c.weight
    else c.weight

-- The random values of a part of the channels `cs`
abbrev pub values : List Channel → List Channel → ℕ
values cs [] = 0
values cs (c ∷ part) = values_of cs c + values cs part

all_weights-sum_weight : (cs : List Channel) → all_weights cs ≡ sum_weight cs
all_weights-sum_weight [] = refl
all_weights-sum_weight (c ∷ cs) = omega (arith, all_weights-sum_weight cs)

average : (s n : ℕ) → 1 ≤ n → ltb s (10 * n) ≡ ltb (s / n) 10
average s n h = ground (arith, div-lt_iff_lt-mul {k = n} {x = s} {y = 10} h)

values_of-share_of :
    (cs : List Channel) (c : Channel)
    → 1 ≤ length cs
    → c.weight ≤ all_weights cs
    → values_of cs c ≡ share_of (smoothing_factor cs) (smoothing_adjustment cs) c
values_of-share_of cs c h le =
    rw (average (all_weights cs) (length cs) h, sym (all_weights-sum_weight cs))
      (go (all_weights cs) (ltb (all_weights cs / length cs) 10) le)
  where
    go :
        (total : ℕ) (small : Bool)
        → c.weight ≤ total
        → (if total == 0 then 100 else if small then 100 * c.weight else c.weight)
          ≡ c.weight * (if total == 0 then 1 else if small then 100 else 1)
            + (if total == 0 then 100 else 0)
    go total true le = ground arith
    go total false le = ground arith

values-shares :
    (cs part : List Channel)
    → 1 ≤ length cs
    → all_weights part ≤ all_weights cs
    → values cs part ≡ shares (smoothing_factor cs) (smoothing_adjustment cs) part
values-shares cs [] h le = refl
values-shares cs (c ∷ part) h le =
    rw (values_of-share_of cs c h (omega arith), values-shares cs part h (omega arith)) refl

values_append :
    (cs before after : List Channel)
    → values cs (before ++ after) ≡ values cs before + values cs after
values_append cs [] after = omega arith
values_append cs (b ∷ before) after = omega (arith, values_append cs before after)

all_weights_append :
    (before after : List Channel)
    → all_weights (before ++ after) ≡ all_weights before + all_weights after
all_weights_append [] after = omega arith
all_weights_append (b ∷ before) after = omega (arith, all_weights_append before after)

length_middle : (before after : List Channel) (c : Channel) → 1 ≤ length (before ++ c ∷ after)
length_middle [] after c = omega arith
length_middle (b ∷ before) after c = omega arith

choose_among-pick :
    (draw : ℕ → ℕ) (cs : List Channel)
    → 1 ≤ length cs
    → choose_among draw cs
      ≡ pick (smoothing_factor cs) (smoothing_adjustment cs) (draw (total_weight cs)) cs
unfolding choose_among
choose_among-pick draw [] h = absurd (omega (arith, h))
choose_among-pick draw (c ∷ cs) h = refl

-- Where the random source is asked for a value below the sum of the values of all channels, a channel
-- is chosen for those from the values of the channels before it on, as many as its own; all of them are
-- below that sum. Its own are 100 where no channel has a weight, 100 for each unit of its weight where
-- the weights are below 10 on average, and else as many as its weight.
pub choose_among-share :
    (draw : ℕ → ℕ) (before after : List Channel) (c : Channel)
    → let cs = before ++ c ∷ after in
      values cs before ≤ draw (values cs cs)
      → draw (values cs cs) < values cs before + values_of cs c
      → (choose_among draw cs ≡ chosen c) × (values cs before + values_of cs c ≤ values cs cs)
choose_among-share draw before after c low high =
    let cs : List Channel = before ++ c ∷ after in
    let some : 1 ≤ length cs = length_middle before after c in
    let weights = all_weights_append before (c ∷ after) in
    let total : values cs cs ≡ total_weight cs =
      values-shares cs cs some (omega arith) ∙ sym (total_weight-shares cs) in
    let own = values_of-share_of cs c some (omega (arith, weights)) in
    let earlier = values-shares cs before some (omega (arith, weights)) in
    (
      choose_among-pick draw cs some
          ∙ pick_share (smoothing_factor cs) (smoothing_adjustment cs) (draw (total_weight cs))
              before after c (rw⁻¹ (earlier, total) low) (rw⁻¹ (earlier, own, total) high),
      omega (arith, values_append cs before (c ∷ after)),
    )
