-- ===== src/Channel/Served.antt =====
-- The choice after a synchronization of the cache.
pub mod Listed
use east_api.Prelude.{
  ℕ, suc, ◌≤◌, ◌<◌, ◌≡◌, refl, sym, ap, ◌∙◌, subst, String, Bool, true, false, ◌||◌, ◌&&◌, Option,
  none, some, List, [], ◌∷◌, str_eq, length, arith, All, if_both, if_true, if_false, if_cases,
  Bool-cases, inl, inr,
}
use east_api.Prelude.Int.{ltb_ℤ}
use east_api.Prelude.Tables.{find}
use east_api.Channel.{
  Channel, Cache, channel_has_id, Selection, chosen, nothing, inconsistent, exhausted, times,
  in_group, gather, priority_of, insert_by_priority, sort_by_priority, init_channel_cache,
  format_matching_model_name, resolve, choose_rank, choose_from, get_random_satisfied_channel,
}
use east_api.Channel.Pick.{Chosen}
use east_api.Channel.Rank.{choose_rank-Chosen}
use east_api.Channel.Served.Listed.{
  listed, serves, offers, IdOf, Keyed, sort_by_priority-All, gather-IdOf, gather_none,
  length-sort_by_priority,
}

-- What the lookups of the ids of a list give
abbrev Resolved : (Channel → Bool) → ℕ → Option (List Channel) → Type 0
Resolved good n none = ⊥
Resolved good n (some cs) = All (λ c. good c ≡ true) cs × (length cs ≡ n)

resolve-Resolved :
    (cache : Cache) (good : Channel → Bool) (ids : List ℕ)
    → All (IdOf cache.all good) ids
    → Resolved good (length ids) (resolve cache ids)
unfolding resolve
resolve-Resolved cache good [] h = (tt, refl)
resolve-Resolved cache good (id ∷ ids) h =
    subst
      (λ o. Resolved good (suc (length ids)) (elim o [
        | none ↦ none
        | some c ↦ elim (resolve cache ids) [ none ↦ none | some cs ↦ some (c ∷ cs) ]
      ]))
      (sym h.0.1) (join (resolve cache ids) (resolve-Resolved cache good ids h.1))
  where
    join :
        (o : Option (List Channel))
        → Resolved good (length ids) o
        → Resolved good (suc (length ids)) (elim o [ none ↦ none | some cs ↦ some (h.0.0 ∷ cs) ])
    join none r = r
    join (some cs) r = ((h.0.2, r.0), ap suc r.1)

-- A channel that is chosen has the property; there is no error, and where there is no channel, `E` holds.
abbrev pub Answers : (Channel → Bool) → Type 0 → Selection → Type 0
Answers good E (chosen c) = good c ≡ true
Answers good E nothing = E
Answers good E inconsistent = ⊥
Answers good E exhausted = ⊥

Chosen-Answers :
    (good : Channel → Bool) (E : Type 0) (Q : Channel → Type 0) (s : Selection)
    → Chosen (λ c. (good c ≡ true) × Q c) s
    → Answers good E s
Chosen-Answers good E Q (chosen c) h = h.0
Chosen-Answers good E Q nothing h = absurd h
Chosen-Answers good E Q inconsistent h = h
Chosen-Answers good E Q exhausted h = h

choose_from-Answers :
    (draw : ℕ → ℕ) (retry : ℕ) (cache : Cache) (good : Channel → Bool) (E : Type 0) (ids : List ℕ)
    → ((n : ℕ) → 1 ≤ n → draw n < n)
    → All (IdOf cache.all good) ids
    → (ids ≡ [] → E)
    → Answers good E (choose_from draw retry cache ids)
unfolding choose_from
choose_from-Answers draw retry cache good E [] below h e = e refl
choose_from-Answers draw retry cache good E (id ∷ []) below h e =
    subst (λ o. Answers good E (elim o [ none ↦ inconsistent | some c ↦ chosen c ])) (sym h.0.1)
      h.0.2
choose_from-Answers draw retry cache good E (id ∷ j ∷ ids) below h e =
    go (resolve cache (id ∷ j ∷ ids)) (resolve-Resolved cache good (id ∷ j ∷ ids) h)
  where
    go :
        (o : Option (List Channel))
        → Resolved good (suc (suc (length ids))) o
        → Answers good E (elim o [ none ↦ inconsistent | some cs ↦ choose_rank draw retry cs ])
    go none r = absurd r
    go (some cs) r =
        Chosen-Answers good E _ (choose_rank draw retry cs)
          (choose_rank-Chosen draw (λ c. good c ≡ true) retry cs below (omega (arith, r.1)) r.0)

IdOf-wider :
    (all : List Channel) (good wider : Channel → Bool) (ids : List ℕ)
    → ((c : Channel) → good c ≡ true → wider c ≡ true)
    → All (IdOf all good) ids
    → All (IdOf all wider) ids
IdOf-wider all good wider [] f h = tt
IdOf-wider all good wider (id ∷ ids) f (h, hs) =
    ((h.0, h.1, f h.0 h.2), IdOf-wider all good wider ids f hs)

none_offers :
    (group model : String) (cs : List Channel)
    → All (λ c. serves group model c ≡ false) cs
    → All (λ c. serves group (format_matching_model_name model) c ≡ false) cs
    → All (λ c. offers group model c ≡ false) cs
none_offers group model [] h k = tt
none_offers group model (c ∷ cs) (h, hs) (k, ks) =
    (rw (h, k) refl, none_offers group model cs hs ks)

not_zero : (n : ℕ) → suc n ≡ 0 → ⊥
not_zero n e = omega (arith, e)

-- After a synchronization, a channel that is chosen, at whatever retry and whatever random value, is enabled, is in the group and has
-- the model, under its own or its normalized name; no channel is answered only if there is no such
-- channel; and there is no error. Ids are keys, and the random source answers below its bound.
pub get_random_satisfied_channel-Answers :
    (draw : ℕ → ℕ) (channels : List Channel) (group model : String) (retry : ℕ)
    → ((n : ℕ) → 1 ≤ n → draw n < n)
    → All (Keyed channels) channels
    → Answers
        (offers group model)
        (All (λ c. offers group model c ≡ false) channels)
        (get_random_satisfied_channel draw (init_channel_cache channels) group model retry)
unfolding get_random_satisfied_channel init_channel_cache
get_random_satisfied_channel-Answers draw channels group model retry below keyed =
    go (sort_by_priority channels (gather group model channels))
      (sort_by_priority-All _ channels _ (gather-IdOf group model channels channels keyed))
      (length-sort_by_priority channels (gather group model channels))
  where
    normal : String
    normal = format_matching_model_name model

    by_normal : List ℕ
    by_normal = sort_by_priority channels (gather group normal channels)

    E : Type 0
    E = All (λ c. offers group model c ≡ false) channels

    go :
        (ids : List ℕ)
        → All (IdOf channels (serves group model)) ids
        → length ids ≡ length (gather group model channels)
        → Answers (offers group model) E (
            choose_from draw retry
              (init_channel_cache channels)
              (elim ids [ [] ↦ by_normal | id ∷ rest ↦ id ∷ rest ]))
    go [] h same =
        choose_from-Answers draw retry (init_channel_cache channels) (offers group model) E
          by_normal below
          (IdOf-wider channels (serves group normal) (offers group model) by_normal
            (λ c e. ground (arith, e))
            (sort_by_priority-All _ channels _ (gather-IdOf group normal channels channels keyed)))
          (λ e. none_offers group model channels (gather_none group model channels (sym same)) (
            gather_none group normal channels (
              sym (length-sort_by_priority channels (gather group normal channels))
              ∙ ap (λ (ids : List ℕ). length ids) e)))
    go (id ∷ rest) h same =
        choose_from-Answers draw retry (init_channel_cache channels) (offers group model) E
          (id ∷ rest) below
          (IdOf-wider channels (serves group model) (offers group model) (id ∷ rest)
            (λ c e. ground (arith, e)) h)
          (λ e. absurd (not_zero (length rest) (ap (λ (ids : List ℕ). length ids) e)))
