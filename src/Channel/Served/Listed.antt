-- ===== src/Channel/Served/Listed.antt =====
-- The ids that the cache lists for a group and a model.
use east_api.Prelude.{
  ℕ, suc, ◌≡◌, refl, sym, ap, ◌∙◌, String, Bool, true, false, ◌||◌, ◌&&◌, some, List, [], ◌∷◌,
  str_eq, length, arith, All, if_both, if_true, if_false, if_cases, Bool-cases, inl, inr,
}
use east_api.Prelude.Int.{ltb_ℤ}
use east_api.Prelude.Tables.{find}
use east_api.Channel.{
  Channel, channel_has_id, times, in_group, gather, priority_of, insert_by_priority,
  sort_by_priority, format_matching_model_name,
}

abbrev pub listed : String → List String → Bool
listed name [] = false
listed name (n ∷ names) = str_eq n name || listed name names

abbrev pub serves : String → String → Channel → Bool
serves group model c = c.enabled && listed group c.groups && listed model c.models

-- The channel is enabled, is in the group, and has the model under its own or its normalized name.
abbrev pub offers : String → String → Channel → Bool
offers group model c = serves group model c || serves group (format_matching_model_name model) c

module _ (P : ℕ → Type 0) where
  times-All :
      (name : String) (id : ℕ) (names : List String) (rest : List ℕ)
      → (listed name names ≡ true → P id)
      → All P rest
      → All P (times name id names rest)
  unfolding times
  times-All name id [] rest f h = h
  times-All name id (n ∷ names) rest f h =
      let later : All P (times name id names rest) =
        times-All name id names rest (λ e. f (ground arith)) h in
      if_cases (All P) (str_eq n name) (λ e. (f (ground arith), later)) (λ e. later)

  in_group-All :
      (group model : String) (c : Channel) (gs : List String) (rest : List ℕ)
      → (listed group gs ≡ true → listed model c.models ≡ true → P c.id)
      → All P rest
      → All P (in_group group model c gs rest)
  unfolding in_group
  in_group-All group model c [] rest f h = h
  in_group-All group model c (g ∷ gs) rest f h =
      let later : All P (in_group group model c gs rest) =
        in_group-All group model c gs rest (λ e. f (ground arith)) h in
      if_cases (All P) (str_eq g group)
        (λ e.
          times-All model c.id c.models (in_group group model c gs rest) (f (ground arith)) later)
        (λ e. later)

  insert_by_priority-All :
      (all : List Channel) (id : ℕ) (js : List ℕ)
      → P id
      → All P js
      → All P (insert_by_priority all id js)
  unfolding insert_by_priority
  insert_by_priority-All all id [] h hs = (h, tt)
  insert_by_priority-All all id (j ∷ js) h hs =
      if_both (All P) (ltb_ℤ (priority_of all id) (priority_of all j))
        (hs.0, insert_by_priority-All all id js h hs.1) (h, hs)

  pub sort_by_priority-All :
      (all : List Channel) (ids : List ℕ) → All P ids → All P (sort_by_priority all ids)
  unfolding sort_by_priority
  sort_by_priority-All all [] h = tt
  sort_by_priority-All all (id ∷ ids) h =
      insert_by_priority-All all id (sort_by_priority all ids) h.0
        (sort_by_priority-All all ids h.1)

-- The id is that of a channel of the table that has the property.
abbrev pub IdOf : List Channel → (Channel → Bool) → ℕ → Type 0
IdOf all good id = (c : Channel) × (find (channel_has_id id) all ≡ some c) × (good c ≡ true)

-- Every channel is the one that its id finds: ids are keys.
abbrev pub Keyed : List Channel → Channel → Type 0
Keyed all c = find (channel_has_id c.id) all ≡ some c

pub gather-IdOf :
    (group model : String) (all cs : List Channel)
    → All (Keyed all) cs
    → All (IdOf all (serves group model)) (gather group model cs)
unfolding gather
gather-IdOf group model all [] h = tt
gather-IdOf group model all (c ∷ cs) h =
    if_cases (All (IdOf all (serves group model))) c.enabled
      (λ on.
        in_group-All (IdOf all (serves group model)) group model c c.groups (gather group model cs)
          (λ g m. (c, h.0, rw (on, g, m) refl)) (gather-IdOf group model all cs h.1))
      (λ off. gather-IdOf group model all cs h.1)

times_none :
    (name : String) (id : ℕ) (names : List String) (rest : List ℕ)
    → length (times name id names rest) ≡ 0
    → (listed name names ≡ false) × (length rest ≡ 0)
unfolding times
times_none name id [] rest h = (refl, h)
times_none name id (n ∷ names) rest h = elim (Bool-cases (str_eq n name)) [
  | inl hit ↦ absurd (ground arith)
  | inr miss ↦
      let later = times_none name id names rest (
        rw
          (sym (
            if_false (str_eq n name) (id ∷ times name id names rest) (times name id names rest)
              miss))
          h) in
      (rw miss later.0, later.1)
]

in_group_none :
    (group model : String) (c : Channel) (gs : List String) (rest : List ℕ)
    → length (in_group group model c gs rest) ≡ 0
    → ((listed group gs && listed model c.models) ≡ false) × (length rest ≡ 0)
unfolding in_group
in_group_none group model c [] rest h = (refl, h)
in_group_none group model c (g ∷ gs) rest h = elim (Bool-cases (str_eq g group)) [
  | inl hit ↦
      let here = times_none model c.id c.models (in_group group model c gs rest) (
        sym (
          ap (λ (ids : List ℕ). length ids)
            (if_true (str_eq g group) (times model c.id c.models (in_group group model c gs rest))
              (in_group group model c gs rest) hit))
        ∙ h) in
      (rw (hit, here.0) refl, (in_group_none group model c gs rest here.1).1)
  | inr miss ↦
      let later = in_group_none group model c gs rest (
        sym (
          ap (λ (ids : List ℕ). length ids)
            (if_false (str_eq g group) (times model c.id c.models (in_group group model c gs rest))
              (in_group group model c gs rest) miss))
        ∙ h) in
      (rw miss later.0, later.1)
]

pub gather_none :
    (group model : String) (cs : List Channel)
    → length (gather group model cs) ≡ 0
    → All (λ c. serves group model c ≡ false) cs
unfolding gather
gather_none group model [] h = tt
gather_none group model (c ∷ cs) h = elim (Bool-cases c.enabled) [
  | inl on ↦
      let here = in_group_none group model c c.groups (gather group model cs) (
        sym (
          ap (λ (ids : List ℕ). length ids)
            (if_true c.enabled (in_group group model c c.groups (gather group model cs))
              (gather group model cs) on))
        ∙ h) in
      (rw on here.0, gather_none group model cs here.1)
  | inr off ↦ (
    rw off refl,
    gather_none group model cs (
        sym (
          ap (λ (ids : List ℕ). length ids)
            (if_false c.enabled (in_group group model c c.groups (gather group model cs))
              (gather group model cs) off))
        ∙ h),
  )
]

length-insert_by_priority :
    (all : List Channel) (id : ℕ) (js : List ℕ)
    → length (insert_by_priority all id js) ≡ suc (length js)
unfolding insert_by_priority
length-insert_by_priority all id [] = refl
length-insert_by_priority all id (j ∷ js) =
    if_both (λ (ids : List ℕ). length ids ≡ suc (suc (length js)))
      (ltb_ℤ (priority_of all id) (priority_of all j))
      (ap suc (length-insert_by_priority all id js)) refl

pub length-sort_by_priority :
    (all : List Channel) (ids : List ℕ) → length (sort_by_priority all ids) ≡ length ids
unfolding sort_by_priority
length-sort_by_priority all [] = refl
length-sort_by_priority all (id ∷ ids) =
    length-insert_by_priority all id (sort_by_priority all ids)
    ∙ ap suc (length-sort_by_priority all ids)
