-- ===== src/Channel/Keys/Update.antt =====
-- What a change of a key's status does to the keys and to the channel.
use east_api.Prelude.{
  ℕ, zero, suc, ◌≤◌, ◌<◌, ◌≡◌, refl, sym, ◌∙◌, ap, subst, String, Bool, true, false, Option, none,
  some, List, [], ◌∷◌, leb, ◌==◌, length, if◌then◌else◌, if_cases, if_both, if_true, if_false,
  arith, false≢true, Bool-cases, ◌⊎◌, inl, inr, ==_iff,
}
use east_api.Channel.Keys.{
  IndexMap, lookup_index, delete_index, set_index, ChannelInfo, KeyChannel, enabled_status,
  auto_disabled_status, status_of, status_at, is_enabled,
}
use east_api.Channel.Keys.Usable.{Usable}
use east_api.Channel.Keys.Status.{key_index, mark_key, close_if_spent, handler_multi_key_update}

module _ {A : Type 0} where
  lookup-delete :
      (j k : ℕ) (m : IndexMap A)
      → lookup_index j (delete_index k m) ≡ (if j == k then none else lookup_index j m)
  unfolding lookup_index delete_index
  lookup-delete j k [] =
      if_both (λ (x : Option A). ◌≡◌ {A = Option A} none x) (j == k) {first = none} {second = none}
        refl refl
  lookup-delete j k ((i, a) ∷ m) = ground (arith, lookup-delete j k m)

  length-delete : (k : ℕ) (m : IndexMap A) → length (delete_index k m) ≤ length m
  unfolding delete_index
  length-delete k [] = omega arith
  length-delete k ((i, a) ∷ m) = ground (arith, length-delete k m)

  -- A pair that is there goes.
  length-delete_there :
      (k : ℕ) (m : IndexMap A)
      → (lookup_index k m ≡ none → ⊥)
      → length (delete_index k m) < length m
  unfolding delete_index lookup_index
  length-delete_there k [] h = absurd (h refl)
  length-delete_there k ((i, a) ∷ m) h = elim (Bool-cases (i == k)) [
    | inl e ↦ rw e (ground (arith, length-delete k m))
    | inr e ↦
        let rest =
          length-delete_there k m (λ g. h (if_false (i == k) (some a) (lookup_index k m) e ∙ g)) in
        rw e (ground (arith, rest))
  ]

status_of-if :
    (b : Bool) (o p : Option ℕ)
    → status_of (if b then o else p) ≡ (if b then status_of o else status_of p)
status_of-if true o p = refl
status_of-if false o p = refl

status_at-delete :
    (j k : ℕ) (m : IndexMap ℕ)
    → status_at (delete_index k m) j ≡ (if j == k then enabled_status else status_at m j)
unfolding status_at
status_at-delete j k m =
    ap status_of (lookup-delete j k m) ∙ status_of-if (j == k) none (lookup_index j m)

status_at-set :
    (j k s : ℕ) (m : IndexMap ℕ)
    → status_at (set_index k s m) j ≡ (if j == k then s else status_at m j)
unfolding status_at set_index lookup_index
status_at-set j k s m = elim (Bool-cases (j == k)) [
  | inl e ↦
      let same : k == j ≡ true = ground arith in
      ap status_of (if_true (k == j) (some s) (lookup_index j (delete_index k m)) same)
      ∙ sym (if_true (j == k) s (status_of (lookup_index j m)) e)
  | inr e ↦
      let other : k == j ≡ false = ground arith in
      ap status_of (
        if_false (k == j) (some s) (lookup_index j (delete_index k m)) other
        ∙ lookup-delete j k m
        ∙ if_false (j == k) none (lookup_index j m) e)
      ∙ sym (if_false (j == k) s (status_of (lookup_index j m)) e)
]

-- A channel with no more pairs than keys has a key that is enabled.
status_at-none : (m : IndexMap ℕ) (k : ℕ) → is_enabled m k ≡ false → lookup_index k m ≡ none → ⊥
unfolding status_at
status_at-none m k h e = false≢true (sym h ∙ ap (λ o. status_of o == enabled_status) e)

spent_length : (n : ℕ) (m : IndexMap ℕ) → ((k : ℕ) → k < n → is_enabled m k ≡ false) → n ≤ length m
spent_length zero m h = omega arith
spent_length (suc n) m h =
    let fewer = length-delete_there n m (status_at-none m n (h n (omega arith))) in
    let rest =
      spent_length n (delete_index n m)
        λ k below. rw (status_at-delete k n m) (ground (arith, h k (omega arith))) in
    omega (arith, fewer, rest)

search-Usable :
    (n : ℕ) (m : IndexMap ℕ) → ((j : ℕ) × Usable m n j) ⊎ ((k : ℕ) → k < n → is_enabled m k ≡ false)
search-Usable zero m = inr λ k h. absurd (omega arith)
search-Usable (suc n) m = elim (Bool-cases (is_enabled m n)) [
  | inl on ↦ inl (n, (omega arith, on))
  | inr off ↦ elim (search-Usable n m) [
    | inl (j, (below, on)) ↦ inl (j, (omega arith, on))
    | inr rest ↦ inr λ k h. elim (Bool-cases (k == n)) [
      | inl e ↦ subst (λ x. is_enabled m x ≡ false) (sym ((==_iff k n).0 e)) off
      | inr e ↦ rest k (ground arith)
    ]
  ]
]

-- The channel is disabled, or has a key that is enabled.
abbrev pub InService : List String → KeyChannel → Type 0
InService keys c =
    (c.status ≡ auto_disabled_status) ⊎ ((j : ℕ) × Usable c.info.status_list (length keys) j)

close_if_spent-InService :
    (now : ℕ) (keys : List String) (c : KeyChannel)
    → c.info.multi_key_size ≡ length keys
    → InService keys (close_if_spent now c)
unfolding close_if_spent
close_if_spent-InService now keys c size =
    if_cases (InService keys) (leb c.info.multi_key_size (length c.info.status_list))
      (λ h. inl refl)
      λ h. elim (search-Usable (length keys) c.info.status_list) [
        | inl found ↦ inr found
        | inr spent ↦
            let enough = spent_length (length keys) c.info.status_list spent in
            absurd (ground (arith, enough, size))
      ]

mark_key-size :
    (k status now : ℕ) (reason : String) (info : ChannelInfo)
    → (mark_key k status reason now info).multi_key_size ≡ info.multi_key_size
unfolding mark_key
mark_key-size k status now reason info =
    if_both (λ (i : ChannelInfo). i.multi_key_size ≡ info.multi_key_size) (status == enabled_status)
      refl refl

pub mark_key-status :
    (j k status now : ℕ) (reason : String) (info : ChannelInfo)
    → status_at (mark_key k status reason now info).status_list j
      ≡ (if j == k then status else status_at info.status_list j)
unfolding mark_key
mark_key-status j k status now reason info =
    if_cases
      (λ (i : ChannelInfo).
        status_at i.status_list j ≡ (if j == k then status else status_at info.status_list j))
      (status == enabled_status)
      (λ e.
        status_at-delete j k info.status_list
        ∙ ap (λ s. if j == k then s else status_at info.status_list j)
            (sym ((==_iff status enabled_status).0 e)))
      (λ e. status_at-set j k status info.status_list)

-- Whatever key gets whatever status, afterwards the channel is disabled or has an enabled key:
-- where the recorded size is the number of its keys, which is not zero, none is left in service
-- with nothing to hand out.
pub handler_multi_key_update-InService :
    (now : ℕ) (keys : List String) (using_key : String) (status : ℕ) (reason : String)
    (c : KeyChannel)
    → 0 < length keys
    → c.info.multi_key_size ≡ length keys
    → InService keys (handler_multi_key_update now keys using_key status reason c)
unfolding handler_multi_key_update
handler_multi_key_update-InService now [] using_key status reason c some_key size =
    absurd (omega arith)
handler_multi_key_update-InService now (k ∷ ks) using_key status reason c some_key size =
    close_if_spent-InService now (k ∷ ks) _
      (mark_key-size (key_index using_key (k ∷ ks)) status now reason c.info ∙ size)
