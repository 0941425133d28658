-- ===== src/Channel/Rank.antt =====
-- The priorities of the channels, and the one that a retry goes to.
use east_api.Prelude.{
  ℕ, zero, suc, ◌≤◌, ◌<◌, ◌≡◌, refl, ap, ◌∙◌, Bool, true, false, ◌||◌, false≢true, List, [], ◌∷◌,
  ltb, length, if◌then◌else◌, arith, All, if_both, if_cases,
}
use east_api.Prelude.Int.{ℤ, ltb_ℤ, eqb_ℤ, ◌<ℤ◌, eq_of_parts}
use east_api.Prelude.Tables.{count_where}
use east_api.Channel.{
  Channel, exhausted, insert_priority, unique_priorities, at_most, target_channels, choose_among,
  choose_rank,
}
use east_api.Channel.Pick.{Chosen, choose_among-Chosen}

abbrev Below : ℤ → ℤ → Type 0
Below p q = q <ℤ p

abbrev pub Descending : List ℤ → Type 0
Descending [] = Unit
Descending (p ∷ ps) = All (Below p) ps × Descending ps

-- How many of the priorities are above `p`
abbrev pub above : ℤ → List ℤ → ℕ
above p ps = count_where (ltb_ℤ p) ps

insert-All : (P : ℤ → Type 0) (p : ℤ) (qs : List ℤ) → P p → All P qs → All P (insert_priority p qs)
unfolding insert_priority
insert-All P p [] h hs = (h, tt)
insert-All P p (q ∷ qs) h hs =
    if_both (All P) (eqb_ℤ p q) hs
      (if_both (All P) (ltb_ℤ q p) (h, hs) (hs.0, insert-All P p qs h hs.1))

Below-later : (p q : ℤ) (qs : List ℤ) → q <ℤ p → All (Below q) qs → All (Below p) qs
Below-later p q [] lt h = tt
Below-later p q (r ∷ qs) lt h = (omega (arith, h.0), Below-later p q qs lt h.1)

insert-Descending : (p : ℤ) (qs : List ℤ) → Descending qs → Descending (insert_priority p qs)
unfolding insert_priority
insert-Descending p [] h = (tt, tt)
insert-Descending p (q ∷ qs) h =
    if_cases Descending (eqb_ℤ p q) (λ e. h)
      λ e.
        if_cases Descending (ltb_ℤ q p)
          (λ up. ((ground arith, Below-later p q qs (ground arith) h.0), h))
          λ down. (insert-All (Below q) p qs (ground arith) h.0, insert-Descending p qs h.1)

unique_priorities-Descending : (cs : List Channel) → Descending (unique_priorities cs)
unfolding unique_priorities
unique_priorities-Descending [] = tt
unique_priorities-Descending (c ∷ cs) =
    insert-Descending c.priority (unique_priorities cs) (unique_priorities-Descending cs)

-- Whether some channel has the priority
abbrev pub some_has : List Channel → ℤ → Bool
some_has [] p = false
some_has (c ∷ cs) p = eqb_ℤ c.priority p || some_has cs p

some_has-later :
    (c : Channel) (cs : List Channel) (qs : List ℤ)
    → All (λ q. some_has cs q ≡ true) qs
    → All (λ q. some_has (c ∷ cs) q ≡ true) qs
some_has-later c cs [] h = tt
some_has-later c cs (q ∷ qs) h = (ground (arith, h.0), some_has-later c cs qs h.1)

unique_priorities-some_has :
    (cs : List Channel) → All (λ q. some_has cs q ≡ true) (unique_priorities cs)
unfolding unique_priorities
unique_priorities-some_has [] = tt
unique_priorities-some_has (c ∷ cs) =
    insert-All (λ q. some_has (c ∷ cs) q ≡ true) c.priority (unique_priorities cs) (ground arith)
      (some_has-later c cs (unique_priorities cs) (unique_priorities-some_has cs))

some_targets :
    (p : ℤ) (cs : List Channel) → some_has cs p ≡ true → 1 ≤ length (target_channels p cs)
some_targets p [] h = absurd (false≢true h)
some_targets p (c ∷ cs) h = ground (arith, some_targets p cs)

targets-All :
    (P : Channel → Type 0) (p : ℤ) (cs : List Channel)
    → All P cs
    → All (λ c. P c × (c.priority ≡ p)) (target_channels p cs)
targets-All P p [] h = tt
targets-All P p (c ∷ cs) h =
    if_cases (All (λ c. P c × (c.priority ≡ p))) (eqb_ℤ c.priority p)
      (λ e. ((h.0, eq_of_parts c.priority p (ground arith)), targets-All P p cs h.1))
      (λ e. targets-All P p cs h.1)

at_most-All : (P : ℤ → Type 0) (n : ℕ) (p : ℤ) (ps : List ℤ) → All P (p ∷ ps) → P (at_most n p ps)
unfolding at_most
at_most-All P n p [] h = h.0
at_most-All P zero p (q ∷ qs) h = h.0
at_most-All P (suc n) p (q ∷ qs) h = at_most-All P n q qs h.1

none_above : (p : ℤ) (qs : List ℤ) → All (Below p) qs → above p qs ≡ 0
none_above p [] h = refl
none_above p (q ∷ qs) h = ground (arith, h.0, none_above p qs h.1)

-- The index of the last element
abbrev pub last_index : List ℤ → ℕ
last_index [] = 0
last_index (p ∷ ps) = length ps

abbrev pub lesser : ℕ → ℕ → ℕ
lesser m n = if ltb m n then m else n

at_most-above :
    (n : ℕ) (p : ℤ) (ps : List ℤ)
    → Descending (p ∷ ps)
    → above (at_most n p ps) (p ∷ ps) ≡ lesser n (length ps)
unfolding at_most
at_most-above n p [] h = ground arith
at_most-above zero p (q ∷ qs) h = ground (arith, none_above p (q ∷ qs) h.0)
at_most-above (suc n) p (q ∷ qs) h =
    let up : at_most n q qs <ℤ p = at_most-All (Below p) n q qs h.0 in
    ground (arith, up, at_most-above n q qs h.1)

insert_some : (p : ℤ) (qs : List ℤ) → 1 ≤ length (insert_priority p qs)
unfolding insert_priority
insert_some p [] = omega arith
insert_some p (q ∷ qs) =
    if_both (λ (rs : List ℤ). 1 ≤ length rs) (eqb_ℤ p q) (omega arith)
      (if_both (λ (rs : List ℤ). 1 ≤ length rs) (ltb_ℤ q p) (omega arith) (omega arith))

some_priorities : (cs : List Channel) → 1 ≤ length cs → 1 ≤ length (unique_priorities cs)
unfolding unique_priorities
some_priorities [] some = absurd (omega (arith, some))
some_priorities (c ∷ cs) some = insert_some c.priority (unique_priorities cs)

All-map :
    (P Q : Channel → Type 0)
    → ((c : Channel) → P c → Q c)
    → (cs : List Channel) → All P cs
    → All Q cs
All-map P Q f [] h = tt
All-map P Q f (c ∷ cs) h = (f c h.0, All-map P Q f cs h.1)

-- Among channels of which there is one, where the random source answers below its bound, a channel is
-- chosen, and what holds of all of them holds of it; it has as many different priorities above
-- its own as the number of the retry, or all the others, if there are not so many.
pub choose_rank-Chosen :
    (draw : ℕ → ℕ) (P : Channel → Type 0) (retry : ℕ) (cs : List Channel)
    → ((n : ℕ) → 1 ≤ n → draw n < n)
    → 1 ≤ length cs
    → All P cs
    → Chosen
        (λ c.
          P c
          × (above c.priority (unique_priorities cs)
              ≡ lesser retry (last_index (unique_priorities cs))))
        (choose_rank draw retry cs)
unfolding choose_rank
choose_rank-Chosen draw P retry cs below some h =
    go (unique_priorities cs) (unique_priorities-Descending cs) (unique_priorities-some_has cs)
      (some_priorities cs some)
  where
    go :
        (ps : List ℤ)
        → Descending ps
        → All (λ q. some_has cs q ≡ true) ps
        → 1 ≤ length ps
        → Chosen
            (λ c. P c × (above c.priority ps ≡ lesser retry (last_index ps)))
            (elim ps [
              | [] ↦ exhausted
              | p ∷ qs ↦ choose_among draw (target_channels (at_most retry p qs) cs)
            ])
    go [] down has one = absurd (omega (arith, one))
    go (p ∷ qs) down has one =
        choose_among-Chosen draw (λ c. P c × (above c.priority (p ∷ qs) ≡ lesser retry (length qs)))
          (target_channels (at_most retry p qs) cs) below
          (some_targets (at_most retry p qs) cs
            (at_most-All (λ q. some_has cs q ≡ true) retry p qs has))
          (All-map (λ c. P c × (c.priority ≡ at_most retry p qs))
            (λ c. P c × (above c.priority (p ∷ qs) ≡ lesser retry (length qs)))
            (λ c g. (g.0, ap (λ z. above z (p ∷ qs)) g.1 ∙ at_most-above retry p qs down))
            (target_channels (at_most retry p qs) cs) (targets-All P (at_most retry p qs) cs h))
