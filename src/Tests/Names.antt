-- ===== src/Tests/Names.antt =====
-- The theorems on the keys of a channel and on its models, applied to data.
use east_api.Prelude.{
  ℕ, ◌≡◌, refl, String, Bool, true, false, none, some, List, [], ◌∷◌, length, arith,
}
use east_api.Prelude.Text.{trim_text, split_on}
use east_api.Channel.Keys.{
  KeyChannel, get_next_enabled_key, MultiKeyMode, enabled_status, status_at, lookup_index, get_keys,
}
use east_api.Channel.Keys.Status.{handler_multi_key_update, update_row}
use east_api.Channel.Keys.Usable.{Usable, Hands, get_next_enabled_key-Hands}
use east_api.Channel.Keys.Rotation.{serve, has_index, serve-all}
use east_api.Channel.Keys.Update.{InService, handler_multi_key_update-InService}
use east_api.Channel.Keys.Marked.{StaysDisabled, update_row-StaysDisabled}
use east_api.UpstreamModels.{
  Settings, Mapping, apply_selected_model_changes, collect_pending,
  apply_channel_upstream_model_updates,
}
use east_api.UpstreamModels.Stable.{collect_pending-settles}
use east_api.UpstreamModels.Accounts.{Accounts, apply_channel_upstream_model_updates-Accounts}

-- Four keys; the second is disabled, and polling stands at it.
abbrev keyed : KeyChannel
keyed = record {
  key = "a\nb\nc\nd";
  keys = [];
  status = 1;
  status_reason = "";
  status_time = 0;
  info = record {
    is_multi_key = true;
    multi_key_size = 4;
    status_list = (1, 3) ∷ [];
    disabled_reason = (1, "401") ∷ [];
    disabled_time = (1, 900) ∷ [];
    polling_index = 1;
    mode = MultiKeyMode.polling;
  };
}

abbrev four : List String
four = "a" ∷ "b" ∷ "c" ∷ "d" ∷ []

keys_of : get_keys (λ s. none) keyed ≡ four
unfolding get_keys trim_text split_on
keys_of = refl

abbrev draw_first : ℕ → ℕ
draw_first n = 0

served : serve draw_first four 4 keyed ≡ 2 ∷ 3 ∷ 0 ∷ 2 ∷ []
unfolding serve get_next_enabled_key
served = refl

get_next_enabled_key-Hands_example :
    Hands keyed.info.status_list four
      (some 1)
      (get_next_enabled_key draw_first four (some 1) keyed).0
get_next_enabled_key-Hands_example =
    get_next_enabled_key-Hands draw_first (λ n h. h) four (some 1) keyed refl

first-Usable : Usable keyed.info.status_list (length four) 0
unfolding status_at lookup_index
first-Usable = (omega arith, refl)

serve-all_example : has_index 0 (serve draw_first four (length four) keyed) ≡ true
serve-all_example = serve-all draw_first four 0 keyed refl refl first-Usable

handler_multi_key_update-InService_example :
    InService four (handler_multi_key_update 1000 four "c" 3 "401" keyed)
handler_multi_key_update-InService_example =
    handler_multi_key_update-InService 1000 four "c" 3 "401" keyed (omega arith) refl

-- The only key of a channel is disabled, and the channel with it.
abbrev spent : KeyChannel
spent = record keyed {
  key = "a";
  status = 3;
  info = record keyed.info { multi_key_size = 1; status_list = (0, 3) ∷ [] };
}

update_row-StaysDisabled_example :
    StaysDisabled (update_row 1000 ("a" ∷ []) "a" enabled_status "" spent)
update_row-StaysDisabled_example =
    update_row-StaysDisabled 1000 ("a" ∷ []) "a" "" spent refl refl refl

-- A key that the channel does not have disables its first one.
stray_key : status_at (handler_multi_key_update 1000 four "e" 3 "401" keyed).info.status_list 0 ≡ 3
unfolding handler_multi_key_update status_at lookup_index
stray_key = refl

abbrev local_models : List String
local_models = "gpt-4" ∷ " gpt-3 " ∷ "alias" ∷ []

abbrev upstream_models : List String
upstream_models = "gpt-4" ∷ "gpt-5" ∷ "tts-1" ∷ []

abbrev aliases : Mapping
aliases = ("alias", "gpt-4") ∷ []

abbrev no_match : String → String → Bool
no_match pattern name = false

found :
    collect_pending no_match local_models upstream_models ("tts-1" ∷ []) aliases
    ≡ ("gpt-5" ∷ [], "gpt-3" ∷ [])
unfolding collect_pending trim_text
found = refl

collect_pending-settles_example :
    (let found = collect_pending no_match local_models upstream_models ("tts-1" ∷ []) aliases in
      collect_pending no_match
        (apply_selected_model_changes local_models found.0 found.1)
        upstream_models
        ("tts-1" ∷ [])
        aliases)
    ≡ ([], [])
collect_pending-settles_example =
    collect_pending-settles no_match ("tts-1" ∷ []) aliases local_models upstream_models

abbrev settings : Settings
settings = record {
  models = local_models;
  last_detected = "gpt-5" ∷ "tts-1" ∷ [];
  last_removed = "gpt-3" ∷ [];
  ignored = [];
}

apply_channel_upstream_model_updates-Accounts_example :
    Accounts settings
      ("gpt-5" ∷ [])
      ("tts-1" ∷ [])
      ("gpt-3" ∷ [])
      "gpt-5"
      (apply_channel_upstream_model_updates settings ("gpt-5" ∷ []) ("tts-1" ∷ []) ("gpt-3" ∷ []))
apply_channel_upstream_model_updates-Accounts_example =
    apply_channel_upstream_model_updates-Accounts settings ("gpt-5" ∷ []) ("tts-1" ∷ [])
      ("gpt-3" ∷ []) "gpt-5"
