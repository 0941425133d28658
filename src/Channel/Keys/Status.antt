-- ===== src/Channel/Keys/Status.antt =====
-- The status of the keys of a channel, model/channel.go: handlerMultiKeyUpdate and what
-- UpdateChannelStatus does with the row of a channel.
use east_api.Prelude.{
  ℕ, suc, String, Bool, true, not, Option, none, some, List, [], ◌∷◌, leb, ◌==◌, str_eq, length,
  if◌then◌else◌,
}
use east_api.Channel.Keys.{
  delete_index, set_index, ChannelInfo, KeyChannel, enabled_status, auto_disabled_status,
}

unfoldable pub place : String → ℕ → List String → ℕ
place using_key i [] = 0
place using_key i (k ∷ ks) =
    let rest = place using_key (suc i) ks in if str_eq k using_key then i else rest

-- `keyIndex`: the first place of the key that was used, and 0 where it is not found
unfoldable pub key_index : String → List String → ℕ
unfolding place
key_index using_key keys = place using_key 0 keys

-- The maps of a key that gets a status
unfoldable pub mark_key : ℕ → ℕ → String → ℕ → ChannelInfo → ChannelInfo
unfolding delete_index set_index
mark_key k status reason now info =
    if status == enabled_status
    then record info { status_list = delete_index k info.status_list }
    else record info {
      status_list = set_index k status info.status_list;
      disabled_reason = set_index k reason info.disabled_reason;
      disabled_time = set_index k now info.disabled_time;
    }

-- A channel whose keys are all disabled is disabled.
unfoldable pub close_if_spent : ℕ → KeyChannel → KeyChannel
close_if_spent now c =
    if leb c.info.multi_key_size (length c.info.status_list)
    then record c {
      status = auto_disabled_status;
      status_reason = "All keys are disabled";
      status_time = now;
    }
    else c

-- `handlerMultiKeyUpdate`, with the keys that GetKeys answers
unfoldable pub handler_multi_key_update :
    ℕ → List String → String → ℕ → String → KeyChannel → KeyChannel
unfolding key_index mark_key close_if_spent
handler_multi_key_update now [] using_key status reason c = record c { status = status }
handler_multi_key_update now (k ∷ ks) using_key status reason c =
    close_if_spent now
      (record c { info = mark_key (key_index using_key (k ∷ ks)) status reason now c.info })

-- What UpdateChannelStatus does with the row it has read: the row to save, and whether the
-- abilities follow; `none` where the status is there already.
unfoldable pub update_row :
    ℕ → List String → String → ℕ → String → KeyChannel → Option (KeyChannel × Bool)
unfolding handler_multi_key_update
update_row now keys using_key status reason c =
    let c' = handler_multi_key_update now keys using_key status reason c in
    if c.status == status
    then none
    else if c.info.is_multi_key
    then some (c', not (c.status == c'.status))
    else some (record c { status = status; status_reason = reason; status_time = now }, true)
