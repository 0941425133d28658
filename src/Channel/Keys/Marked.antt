-- ===== src/Channel/Keys/Marked.antt =====
-- Which key gets the status, and what a status "enabled" does to a disabled channel.
use text.Mathlib.TextEquality.{eq_iff}
use east_api.Prelude.{
  ℕ, suc, ◌+◌, ◌≡◌, refl, sym, ◌∙◌, ap, String, Bool, true, false, Option, none, some, List, [],
  ◌∷◌, leb, ◌==◌, str_eq, length, if◌then◌else◌, if_cases, if_both, if_true, if_false, arith,
  false≢true, Bool-cases, inl, inr,
}
use east_api.Prelude.Text.{has_text}
use east_api.Channel.Keys.{
  ChannelInfo, KeyChannel, enabled_status, auto_disabled_status, status_at, nth,
}
use east_api.Channel.Keys.Status.{
  place, key_index, close_if_spent, handler_multi_key_update, update_row,
}
use east_api.Channel.Keys.Update.{mark_key-status}

place-nth :
    (using_key : String) (i : ℕ) (ks : List String)
    → has_text using_key ks ≡ true
    → (p : ℕ) × (place using_key i ks ≡ i + p) × (nth "" ks p ≡ using_key)
unfolding place nth
place-nth using_key i [] h = absurd (false≢true h)
place-nth using_key i (k ∷ ks) h = elim (Bool-cases (str_eq k using_key)) [
  | inl e ↦ (
    0,
    if_true (str_eq k using_key) i (place using_key (suc i) ks) e ∙ omega arith,
    (eq_iff k using_key).0 e,
  )
  | inr e ↦
      let (p, at, is) = place-nth using_key (suc i) ks (ground (arith, h, e)) in
      (
        suc p,
        if_false (str_eq k using_key) i (place using_key (suc i) ks) e ∙ omega (arith, at),
        is,
      )
]

key_index-nth :
    (using_key : String) (keys : List String)
    → has_text using_key keys ≡ true
    → nth "" keys (key_index using_key keys) ≡ using_key
unfolding key_index
key_index-nth using_key keys h =
    let (p, at, is) = place-nth using_key 0 keys h in
    let here : place using_key 0 keys ≡ p = omega (arith, at) in ap (nth "" keys) here ∙ is

close_if_spent-info : (now : ℕ) (c : KeyChannel) → (close_if_spent now c).info ≡ c.info
unfolding close_if_spent
close_if_spent-info now c =
    if_both (λ (d : KeyChannel). d.info ≡ c.info)
      (leb c.info.multi_key_size (length c.info.status_list)) refl refl

-- A status that is given to a key of the channel goes to a place where that key stands; the
-- statuses of all other places are left as they were.
pub handler_multi_key_update-marks :
    (now : ℕ) (keys : List String) (using_key : String) (status : ℕ) (reason : String)
    (c : KeyChannel)
    → has_text using_key keys ≡ true
    → (nth "" keys (key_index using_key keys) ≡ using_key)
      × ((j : ℕ)
          → status_at
              (handler_multi_key_update now keys using_key status reason c).info.status_list
              j
            ≡ (if j == key_index using_key keys then status else status_at c.info.status_list j))
unfolding handler_multi_key_update
handler_multi_key_update-marks now [] using_key status reason c h = absurd (false≢true h)
handler_multi_key_update-marks now (k ∷ ks) using_key status reason c h = (
  key_index-nth using_key (k ∷ ks) h,
  λ j.
      ap (λ (i : ChannelInfo). status_at i.status_list j) (close_if_spent-info now _)
      ∙ mark_key-status j (key_index using_key (k ∷ ks)) status now reason c.info,
)

-- An answer of UpdateChannelStatus that leaves a channel of several keys disabled
abbrev pub StaysDisabled : Option (KeyChannel × Bool) → Type 0
StaysDisabled none = ⊥
StaysDisabled (some (c, abilities_follow)) =
    (c.status ≡ auto_disabled_status) × (abilities_follow ≡ false)

close_if_spent-status :
    (now : ℕ) (c : KeyChannel)
    → c.status ≡ auto_disabled_status
    → (close_if_spent now c).status ≡ auto_disabled_status
unfolding close_if_spent
close_if_spent-status now c e =
    if_both (λ (d : KeyChannel). d.status ≡ auto_disabled_status)
      (leb c.info.multi_key_size (length c.info.status_list)) refl e

-- Enabling a key of a channel of several keys that is disabled automatically saves the row, but
-- neither the channel nor its abilities are enabled.
pub update_row-StaysDisabled :
    (now : ℕ) (keys : List String) (using_key reason : String) (c : KeyChannel)
    → c.info.is_multi_key ≡ true
    → c.status ≡ auto_disabled_status
    → has_text using_key keys ≡ true
    → StaysDisabled (update_row now keys using_key enabled_status reason c)
unfolding update_row handler_multi_key_update
update_row-StaysDisabled now [] using_key reason c multi off h = absurd (false≢true h)
update_row-StaysDisabled now (k ∷ ks) using_key reason c multi off h =
    let c' = handler_multi_key_update now (k ∷ ks) using_key enabled_status reason c in
    let still : c'.status ≡ auto_disabled_status = close_if_spent-status now _ off in
    if_cases StaysDisabled (c.status == enabled_status) (λ e. absurd (ground (arith, e, off)))
      λ e.
        if_cases StaysDisabled c.info.is_multi_key (λ m. (still, rw (still, off) refl))
          λ m. absurd (false≢true (sym m ∙ multi))
