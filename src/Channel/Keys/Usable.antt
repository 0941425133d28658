-- ===== src/Channel/Keys/Usable.antt =====
-- The key that a channel hands out is one of its keys, and enabled.
use Prim.Native.Nat.{◌%◌}
use native.Mathlib.Nat.{mod-lt}
use east_api.Prelude.{
  ℕ, zero, suc, ◌+◌, ◌≤◌, ◌<◌, ◌≡◌, refl, sym, ◌∙◌, String, Bool, true, false, Option, none, some,
  List, [], ◌∷◌, All, ◌==◌, length, if◌then◌else◌, if_cases, arith, false≢true, Bool-cases, inl,
  inr, ==_iff,
}
use east_api.Channel.Keys.{
  IndexMap, KeyChannel, KeyChoice, key_of, no_keys, no_enabled_keys, get_channel_failed, is_enabled,
  enabled_from, nth, next_from, start_index, poll_key, poll_answer, with_enabled, by_mode,
  choose_key, get_next_enabled_key, MultiKeyMode, random, polling, other_mode,
}

-- An index of a key that is enabled
abbrev pub Usable : IndexMap ℕ → ℕ → ℕ → Type 0
Usable m n k = (k < n) × (is_enabled m k ≡ true)

-- `enabled_from` has the enabled indexes, and is empty only where there are none.
enabled_from-All :
    (m : IndexMap ℕ) (n i : ℕ) (ks : List String)
    → i + length ks ≡ n
    → All (Usable m n) (enabled_from m i ks)
unfolding enabled_from
enabled_from-All m n i [] e = tt
enabled_from-All m n i (k ∷ ks) e =
    let rest = enabled_from-All m n (suc i) ks (omega arith) in
    if_cases (All (Usable m n)) (is_enabled m i) (λ h. ((omega arith, h), rest)) (λ h. rest)

if_empty :
    (b : Bool) (x : ℕ) (xs : List ℕ) → (if b then x ∷ xs else xs) ≡ [] → (b ≡ false) × (xs ≡ [])
if_empty true x xs e = absurd cc
if_empty false x xs e = (refl, e)

pub enabled_from-empty :
    (m : IndexMap ℕ) (i : ℕ) (ks : List String)
    → enabled_from m i ks ≡ []
    → (j : ℕ) → i ≤ j
    → j < i + length ks
    → is_enabled m j ≡ false
unfolding enabled_from
enabled_from-empty m i [] e j low high = absurd (omega arith)
enabled_from-empty m i (k ∷ ks) e j low high =
    let parts = if_empty (is_enabled m i) i (enabled_from m (suc i) ks) e in
    elim (Bool-cases (j == i)) [
      | inl h ↦ rw ((==_iff j i).0 h) parts.0
      | inr h ↦ enabled_from-empty m (suc i) ks parts.1 j (ground arith) (omega arith)
    ]

nth-All : (P : ℕ → Type 0) (xs : List ℕ) (n : ℕ) → n < length xs → All P xs → P (nth 0 xs n)
unfolding nth
nth-All P [] n h a = absurd (omega arith)
nth-All P (x ∷ xs) zero h a = a.0
nth-All P (x ∷ xs) (suc n) h a = nth-All P xs n (omega arith) a.1

-- What an answer promises of a channel with the keys `keys` and the statuses `m`
abbrev pub Hands : IndexMap ℕ → List String → Option ℕ → KeyChoice → Type 0
Hands m keys saved (key_of key k) = (key ≡ nth "" keys k) × Usable m (length keys) k
Hands m keys saved no_keys = keys ≡ []
Hands m keys saved no_enabled_keys =
    (0 < length keys) × ((j : ℕ) → j < length keys → is_enabled m j ≡ false)
Hands m keys saved get_channel_failed = saved ≡ none

abbrev pub Lands : IndexMap ℕ → ℕ → Option ℕ → Type 0
Lands m n none = Unit
Lands m n (some k) = Usable m n k

next_from-Lands :
    (m : IndexMap ℕ) (n start i left : ℕ) → 0 < n → Lands m n (next_from m n start i left)
unfolding next_from
next_from-Lands m n start i zero pos = tt
next_from-Lands m n start i (suc left) pos =
    if_cases (Lands m n) (is_enabled m ((start + i) % n)) (λ h. (mod-lt (start + i) pos, h))
      (λ h. next_from-Lands m n start (suc i) left pos)

module _ (intn : ℕ → ℕ) (intn_below : (n : ℕ) → 0 < n → intn n < n) where
  by_mode-Hands :
      (mode : MultiKeyMode) (keys : List String) (e : ℕ) (es : List ℕ) (saved : Option ℕ)
      (c : KeyChannel)
      → All (Usable c.info.status_list (length keys)) (e ∷ es)
      → Hands c.info.status_list keys saved (by_mode mode intn keys (e ∷ es) saved c).0
  unfolding by_mode poll_key nth
  by_mode-Hands random keys e es saved c a = (
    refl,
    nth-All (Usable c.info.status_list (length keys)) (e ∷ es) (intn (length (e ∷ es)))
        (intn_below (length (e ∷ es)) (omega arith)) a,
  )
  by_mode-Hands other_mode keys e es saved c a = (refl, a.0)
  by_mode-Hands polling keys e es none c a = refl
  by_mode-Hands polling keys e es (some saved) c a =
      go _ (next_from-Lands m n (start_index n saved) 0 n (omega (arith, a.0.0)))
    where
      n : ℕ
      n = length keys

      m : IndexMap ℕ
      m = c.info.status_list

      go :
          (o : Option ℕ) → Lands m n o → Hands m keys (some saved) (poll_answer keys (e ∷ es) o c).0
      go none h = (refl, a.0)
      go (some k) h = (refl, h)

  choose_key-Hands :
      (keys : List String) (saved : Option ℕ) (c : KeyChannel)
      → Hands c.info.status_list keys saved (choose_key intn keys saved c).0
  unfolding choose_key
  choose_key-Hands [] saved c = refl
  choose_key-Hands (k ∷ ks) saved c =
      go (enabled_from c.info.status_list 0 (k ∷ ks)) refl
        (enabled_from-All c.info.status_list (length (k ∷ ks)) 0 (k ∷ ks) (omega arith))
    where
      go :
          (es : List ℕ)
          → enabled_from c.info.status_list 0 (k ∷ ks) ≡ es
          → All (Usable c.info.status_list (length (k ∷ ks))) es
          → Hands c.info.status_list (k ∷ ks) saved (with_enabled intn (k ∷ ks) es saved c).0
      go [] e a = (
        omega arith,
        λ j below. enabled_from-empty c.info.status_list 0 (k ∷ ks) e j (omega arith) (omega arith),
      )
      go (x ∷ es) e a = by_mode-Hands c.info.mode (k ∷ ks) x es saved c a

  -- A channel of several keys hands out one of its keys, with its index, that is enabled; it fails
  -- for want of a key only if it has none, or none is enabled, and for want of the channel's record
  -- only if that is not found. The random source draws below its bound.
  pub get_next_enabled_key-Hands :
      (keys : List String) (saved : Option ℕ) (c : KeyChannel)
      → c.info.is_multi_key ≡ true
      → Hands c.info.status_list keys saved (get_next_enabled_key intn keys saved c).0
  unfolding get_next_enabled_key
  get_next_enabled_key-Hands keys saved c h =
      if_cases (λ (x : KeyChoice × KeyChannel). Hands c.info.status_list keys saved x.0)
        c.info.is_multi_key (λ e. choose_key-Hands keys saved c)
        (λ e. absurd (false≢true (sym e ∙ h)))
