-- ===== src/Channel/Keys.antt =====
-- A channel that holds several keys, model/channel.go: GetKeys, GetNextEnabledKey and
-- handlerMultiKeyUpdate. The polling lock makes each call one step; the JSON parser behind GetKeys
-- is a parameter.
pub mod Status
pub mod Usable
pub mod Rotation
pub mod Update
pub mod Marked
use Prim.Native.Char.{code}
use Prim.Native.Nat.{◌%◌}
use text.Mathlib.Text.{starts_with}
use east_api.Prelude.{
  ℕ, zero, suc, ◌+◌, String, Bool, true, false, ◌&&◌, Option, none, some, List, [], ◌∷◌, ltb, leb,
  ◌==◌, str_eq, length, if◌then◌else◌,
}
use east_api.Prelude.Text.{is_empty_text, trim_text, split_on}

-- `MultiKeyMode`
pub data MultiKeyMode : Type 0 where
  random polling other_mode : MultiKeyMode

-- A Go map from key indexes, as pairs; each index stands in one pair at most.
abbrev pub IndexMap : Type 0 → Type 0
IndexMap A = List (ℕ × A)

module _ {A : Type 0} where
  unfoldable pub lookup_index : ℕ → IndexMap A → Option A
  lookup_index k [] = none
  lookup_index k ((j, a) ∷ m) = if j == k then some a else lookup_index k m

  unfoldable pub delete_index : ℕ → IndexMap A → IndexMap A
  delete_index k [] = []
  delete_index k ((j, a) ∷ m) =
      let rest = delete_index k m in if j == k then rest else (j, a) ∷ rest

  unfoldable pub set_index : ℕ → A → IndexMap A → IndexMap A
  unfolding delete_index
  set_index k a m = (k, a) ∷ delete_index k m

-- `ChannelInfo`
pub record ChannelInfo : Type 0 where
  pub is_multi_key : Bool
  pub multi_key_size : ℕ
  pub status_list : IndexMap ℕ
  pub disabled_reason : IndexMap String
  pub disabled_time : IndexMap ℕ
  pub polling_index : ℕ
  pub mode : MultiKeyMode

-- The fields of `Channel` that concern its keys; `status_reason` and `status_time` are those of
-- `OtherInfo`.
pub record KeyChannel : Type 0 where
  pub key : String
  pub keys : List String
  pub status : ℕ
  pub status_reason : String
  pub status_time : ℕ
  pub info : ChannelInfo

abbrev pub enabled_status : ℕ
enabled_status = 1

abbrev pub auto_disabled_status : ℕ
auto_disabled_status = 3

after_newlines : String → String
after_newlines String.[] = ""
after_newlines (String.◌∷◌ c s) =
    let rest = after_newlines s in if code c == 10 then rest else String.◌∷◌ c s

before_newlines : String → String
before_newlines String.[] = ""
before_newlines (String.◌∷◌ c s) =
    let rest = before_newlines s in
    if code c == 10 && is_empty_text rest then "" else String.◌∷◌ c rest

-- `strings.Trim(s, "\n")`
abbrev trim_newlines : String → String
trim_newlines s = before_newlines (after_newlines s)

module _ (parse_array : String → Option (List String)) where
  parsed_keys : KeyChannel → List String
  unfolding after_newlines before_newlines
  parsed_keys c =
      elim (if starts_with (trim_text c.key) "[" then parse_array (trim_text c.key) else none) [
        | some arr ↦ arr
        | none ↦ split_on 10 (trim_newlines c.key)
      ]

  -- `GetKeys`
  unfoldable pub get_keys : KeyChannel → List String
  unfolding parsed_keys
  get_keys c =
      if is_empty_text c.key then [] else elim c.keys [ [] ↦ parsed_keys c | k ∷ ks ↦ k ∷ ks ]

abbrev pub status_of : Option ℕ → ℕ
status_of none = enabled_status
status_of (some status) = status

-- `getStatus`
unfoldable pub status_at : IndexMap ℕ → ℕ → ℕ
unfolding lookup_index
status_at m k = status_of (lookup_index k m)

abbrev pub is_enabled : IndexMap ℕ → ℕ → Bool
is_enabled m k = status_at m k == enabled_status

-- `enabledIdx`, from the index `i` on
unfoldable pub enabled_from : IndexMap ℕ → ℕ → List String → List ℕ
unfolding status_at
enabled_from m i [] = []
enabled_from m i (k ∷ ks) =
    let rest = enabled_from m (suc i) ks in if is_enabled m i then i ∷ rest else rest

unfoldable pub nth {ℓ} : {A : Type ℓ} → A → List A → ℕ → A
nth none_such [] n = none_such
nth none_such (x ∷ xs) zero = x
nth none_such (x ∷ xs) (suc n) = nth none_such xs n

-- The loop over the positions after `start`, `left` of them still to be seen
unfoldable pub next_from : IndexMap ℕ → ℕ → ℕ → ℕ → ℕ → Option ℕ
unfolding status_at
next_from m n start i zero = none
next_from m n start i (suc left) =
    let rest = next_from m n start (suc i) left in
    if is_enabled m ((start + i) % n) then some ((start + i) % n) else rest

-- What a call of `GetNextEnabledKey` answers
pub data KeyChoice : Type 0 where
  key_of : String → ℕ → KeyChoice
  no_keys no_enabled_keys get_channel_failed : KeyChoice

abbrev pub first_of : List ℕ → ℕ
first_of enabled = nth 0 enabled 0

-- The index where polling starts
abbrev pub start_index : ℕ → ℕ → ℕ
start_index n saved = if ltb saved n then saved else 0

abbrev pub with_polling_index : ℕ → KeyChannel → KeyChannel
with_polling_index k c = record c { info = record c.info { polling_index = k } }

abbrev pub poll_answer : List String → List ℕ → Option ℕ → KeyChannel → KeyChoice × KeyChannel
poll_answer keys enabled none c = (key_of (nth "" keys (first_of enabled)) (first_of enabled), c)
poll_answer keys enabled (some k) c =
    (key_of (nth "" keys k) k, with_polling_index (suc k % length keys) c)

-- The case of polling: `saved` is the index of the channel that CacheGetChannelInfo finds.
unfoldable pub poll_key : List String → List ℕ → Option ℕ → KeyChannel → KeyChoice × KeyChannel
unfolding next_from
poll_key keys enabled none c = (get_channel_failed, c)
poll_key keys enabled (some saved) c =
    let n = length keys in
    poll_answer keys enabled (next_from c.info.status_list n (start_index n saved) 0 n) c

-- The switch over the mode, with an enabled key; `draw` is `rand.Intn`.
unfoldable pub by_mode :
    MultiKeyMode → (ℕ → ℕ) → List String → List ℕ → Option ℕ → KeyChannel → KeyChoice × KeyChannel
unfolding poll_key
by_mode random draw keys enabled saved c =
    (let k = nth 0 enabled (draw (length enabled)) in (key_of (nth "" keys k) k, c))
by_mode polling draw keys enabled saved c = poll_key keys enabled saved c
by_mode other_mode draw keys enabled saved c =
    (key_of (nth "" keys (first_of enabled)) (first_of enabled), c)

abbrev pub with_enabled :
    (ℕ → ℕ) → List String → List ℕ → Option ℕ → KeyChannel → KeyChoice × KeyChannel
with_enabled draw keys [] saved c = (no_enabled_keys, c)
with_enabled draw keys (e ∷ es) saved c = by_mode c.info.mode draw keys (e ∷ es) saved c

unfoldable pub choose_key : (ℕ → ℕ) → List String → Option ℕ → KeyChannel → KeyChoice × KeyChannel
unfolding enabled_from by_mode
choose_key draw [] saved c = (no_keys, c)
choose_key draw (k ∷ ks) saved c =
    with_enabled draw (k ∷ ks) (enabled_from c.info.status_list 0 (k ∷ ks)) saved c

-- `GetNextEnabledKey`, with the keys that GetKeys answers
unfoldable pub get_next_enabled_key :
    (ℕ → ℕ) → List String → Option ℕ → KeyChannel → KeyChoice × KeyChannel
unfolding choose_key
get_next_enabled_key draw keys saved c =
    if c.info.is_multi_key then choose_key draw keys saved c else (key_of c.key 0, c)
