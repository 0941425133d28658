-- ===== src/Channel/Keys/Rotation.antt =====
-- Polling goes round the keys of a channel.
use Prim.Native.Nat.{◌%◌}
use native.Mathlib.Nat.{mod-lt, mod-eq_of_lt, mod-add-mod, add-mod_right}
use east_api.Prelude.{
  ℕ, zero, suc, ◌+◌, ◌-◌, ◌≤◌, ◌<◌, ◌≡◌, refl, sym, ◌∙◌, ap, subst, String, Bool, true, false, ◌||◌,
  Option, none, some, List, [], ◌∷◌, ltb, ◌==◌, length, if_cases, if_true, arith, false≢true,
  Bool-cases, inl, inr, ==_iff,
}
use east_api.Channel.Keys.{
  IndexMap, KeyChannel, KeyChoice, key_of, no_keys, no_enabled_keys, get_channel_failed, is_enabled,
  enabled_from, next_from, start_index, poll_key, poll_answer, with_enabled, by_mode, choose_key,
  get_next_enabled_key, with_polling_index, polling,
}
use east_api.Channel.Keys.Usable.{Usable, enabled_from-empty}

turn : (KeyChannel → List ℕ) → KeyChoice × KeyChannel → List ℕ
turn later (key_of key k, c) = k ∷ later c
turn later (no_keys, c) = []
turn later (no_enabled_keys, c) = []
turn later (get_channel_failed, c) = []

-- The indexes that so many calls in a row hand out; each finds the polling index of the one before.
unfoldable pub serve : (ℕ → ℕ) → List String → ℕ → KeyChannel → List ℕ
unfolding turn
serve intn keys zero c = []
serve intn keys (suc calls) c =
    turn (serve intn keys calls) (get_next_enabled_key intn keys (some c.info.polling_index) c)

abbrev pub has_index : ℕ → List ℕ → Bool
has_index j [] = false
has_index j (k ∷ ks) = k == j || has_index j ks

-- The loop stops at the first enabled key, no later than `d` steps after the start.
abbrev Found : ℕ → ℕ → ℕ → ℕ → Option ℕ → Type 0
Found n start i d none = ⊥
Found n start i d (some k) = (i' : ℕ) × (i ≤ i') × (i' ≤ d) × (k ≡ (start + i') % n)

next_from-Found :
    (m : IndexMap ℕ) (n start d i left : ℕ)
    → is_enabled m ((start + d) % n) ≡ true
    → i ≤ d
    → d < i + left
    → Found n start i d (next_from m n start i left)
unfolding next_from
next_from-Found m n start d i zero on low high = absurd (omega arith)
next_from-Found m n start d i (suc left) on low high =
    if_cases (Found n start i d) (is_enabled m ((start + i) % n)) (λ h. (i, omega arith, low, refl))
      λ h. elim (Bool-cases (i == d)) [
        | inl e ↦ absurd (
            false≢true (
              sym h
              ∙ subst (λ x. is_enabled m ((start + x) % n) ≡ true) (sym ((==_iff i d).0 e)) on))
        | inr e ↦
            weaken (next_from m n start (suc i) left)
              (next_from-Found m n start d (suc i) left on (ground arith) (omega arith))
      ]
  where
    weaken : (o : Option ℕ) → Found n start (suc i) d o → Found n start i d o
    weaken none h = absurd h
    weaken (some k) (i', a, b, e) = (i', omega arith, b, e)

-- How far it is from the start to the key
abbrev IsAhead : ℕ → ℕ → ℕ → ℕ → Type 0
IsAhead n start d j = (start + d) % n ≡ j

next-IsAhead :
    (n start i d j : ℕ)
    → i < d
    → IsAhead n start d j
    → IsAhead n (suc ((start + i) % n) % n) (d - suc i) j
next-IsAhead n start i d j h e =
    let first : suc ((start + i) % n) + (d - suc i) ≡ (start + i) % n + (d - i) = omega arith in
    let last : start + i + (d - i) ≡ start + d = omega arith in
    mod-add-mod (suc ((start + i) % n)) n (d - suc i)
    ∙ ap (λ x. x % n) first
    ∙ mod-add-mod (start + i) n (d - i)
    ∙ ap (λ x. x % n) last
    ∙ e

module _ (intn : ℕ → ℕ) (keys : List String) where
  -- One call that polls, with an enabled key `d` steps ahead
  Stops : KeyChannel → ℕ → ℕ → KeyChoice × KeyChannel → Type 0
  Stops c start d answer =
      (i : ℕ) × (i ≤ d) × (answer ≡ poll_answer keys [] (some ((start + i) % length keys)) c)

  poll_key-Stops :
      (es : List ℕ) (d saved : ℕ) (c : KeyChannel)
      → is_enabled c.info.status_list ((start_index (length keys) saved + d) % length keys) ≡ true
      → d < length keys
      → Stops c (start_index (length keys) saved) d (poll_key keys es (some saved) c)
  unfolding poll_key Stops
  poll_key-Stops es d saved c on below = go _ (
      next_from-Found c.info.status_list (length keys) (start_index (length keys) saved) d 0
        (length keys) on (omega arith) (omega arith))
    where
      go :
          (o : Option ℕ)
          → Found (length keys) (start_index (length keys) saved) 0 d o
          → Stops c (start_index (length keys) saved) d (poll_answer keys es o c)
      go none h = absurd h
      go (some k) (i, a, b, e) = (i, b, ap (λ x. poll_answer keys es (some x) c) e)

  with_enabled-Stops :
      (es : List ℕ) (d saved : ℕ) (c : KeyChannel)
      → c.info.mode ≡ polling
      → (es ≡ [] → ⊥)
      → is_enabled c.info.status_list ((start_index (length keys) saved + d) % length keys) ≡ true
      → d < length keys
      → Stops c (start_index (length keys) saved) d (with_enabled intn keys es (some saved) c)
  unfolding by_mode
  with_enabled-Stops [] d saved c mode some_enabled on below = absurd (some_enabled refl)
  with_enabled-Stops (e ∷ es) d saved c mode some_enabled on below =
      subst
        (λ md.
          Stops c (start_index (length keys) saved) d
            (by_mode md intn keys (e ∷ es) (some saved) c))
        (sym mode) (poll_key-Stops (e ∷ es) d saved c on below)

choose_key-Stops :
    (intn : ℕ → ℕ) (keys : List String) (d saved : ℕ) (c : KeyChannel)
    → c.info.mode ≡ polling
    → is_enabled c.info.status_list ((start_index (length keys) saved + d) % length keys) ≡ true
    → d < length keys
    → Stops intn keys c (start_index (length keys) saved) d (choose_key intn keys (some saved) c)
unfolding choose_key
choose_key-Stops intn [] d saved c mode on below = absurd (omega arith)
choose_key-Stops intn (k ∷ ks) d saved c mode on below =
    let n = length (k ∷ ks) in
    with_enabled-Stops intn (k ∷ ks) (enabled_from c.info.status_list 0 (k ∷ ks)) d saved c mode
      (λ e. false≢true (
        sym (
          enabled_from-empty c.info.status_list 0 (k ∷ ks) e ((start_index n saved + d) % n)
            (omega arith) (omega (arith, mod-lt (start_index n saved + d) {m = n} (omega arith))))
        ∙ on))
      on below

start_index-same : (n k : ℕ) → k < n → start_index n k ≡ k
start_index-same n k h = if_true (ltb k n) k 0 (ground arith)

start_index-below : (n saved : ℕ) → 0 < n → start_index n saved < n
start_index-below n saved h = ground arith

distance : (n s j : ℕ) → s < n → j < n → (d : ℕ) × (d < n) × IsAhead n s d j
distance n s j hs hj = elim (Bool-cases (ltb j s)) [
  | inr f ↦
      let e : s + (j - s) ≡ j = ground arith in
      (j - s, omega arith, ap (λ x. x % n) e ∙ mod-eq_of_lt hj)
  | inl t ↦
      let e : s + (j + n - s) ≡ j + n = omega arith in
      (j + n - s, ground arith, ap (λ x. x % n) e ∙ add-mod_right j n ∙ mod-eq_of_lt hj)
]

module _ (intn : ℕ → ℕ) (keys : List String) (j : ℕ) where
  serve-ahead :
      (calls d : ℕ) (c : KeyChannel)
      → c.info.is_multi_key ≡ true
      → c.info.mode ≡ polling
      → is_enabled c.info.status_list j ≡ true
      → IsAhead (length keys) (start_index (length keys) c.info.polling_index) d j
      → d < length keys
      → d < calls
      → has_index j (serve intn keys calls c) ≡ true
  unfolding serve get_next_enabled_key Stops
  serve-ahead zero d c multi mode on ahead below soon = absurd (omega arith)
  serve-ahead (suc calls) d c multi mode on ahead below soon =
      let n = length keys in
      let start = start_index n c.info.polling_index in
      let (i, le, e) =
        choose_key-Stops intn keys d c.info.polling_index c mode
          (subst (λ x. is_enabled c.info.status_list x ≡ true) (sym ahead) on) below in
      let k = (start + i) % n in
      let c' = with_polling_index (suc k % n) c in
      let answer =
        if_true c.info.is_multi_key (choose_key intn keys (some c.info.polling_index) c)
          (key_of c.key 0, c) multi
        ∙ e in
      subst (λ a. has_index j (turn (serve intn keys calls) a) ≡ true) (sym answer)
        (elim (Bool-cases (i == d)) [
          | inl h ↦
              let here : k ≡ j = ap (λ x. (start + x) % n) ((==_iff i d).0 h) ∙ ahead in
              rw ((==_iff k j).1 here) refl
          | inr h ↦
              let rest : has_index j (serve intn keys calls c') ≡ true =
                serve-ahead calls (d - suc i) c' multi mode on
                  (subst (λ x. IsAhead n x (d - suc i) j)
                    (sym (start_index-same n (suc k % n) (mod-lt (suc k) (omega arith))))
                    (next-IsAhead n start i d j (ground arith) ahead))
                  (omega arith) (ground arith) in
              ground (arith, rest)
        ])

  -- Every key that is enabled is handed out by one of as many polls in a row as the channel has
  -- keys, wherever the polling index stood.
  pub serve-all :
      (c : KeyChannel)
      → c.info.is_multi_key ≡ true
      → c.info.mode ≡ polling
      → Usable c.info.status_list (length keys) j
      → has_index j (serve intn keys (length keys) c) ≡ true
  serve-all c multi mode (below, on) =
      let start = start_index (length keys) c.info.polling_index in
      let (d, near, ahead) =
        distance (length keys) start j
          (start_index-below (length keys) c.info.polling_index (omega arith)) below in
      serve-ahead (length keys) d c multi mode on ahead near near
