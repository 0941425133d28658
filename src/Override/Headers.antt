-- ===== src/Override/Headers.antt =====
-- The operations on headers: set_header, copy_header, move_header and delete_header of
-- relay/common/override.go. The lower case of a text, the equality of texts up to case and the
-- printing of a value that is no string are parameters.
use east_api.Prelude.{
  String, Bool, true, false, ◌&&◌, ◌||◌, Option, none, some, List, [], ◌∷◌, ◌++◌, if◌then◌else◌,
}
use east_api.Prelude.Text.{is_empty_text, trim_text, append_text, split_on}
use east_api.UpstreamModels.{trimmed_names, unseen}
use east_api.Override.{
  Json, null, flag, number, string, array, object, Items, no_items, item, Fields, no_fields, field,
  lookup, delete_field, set_field,
}

-- `splitHeaderListValue`
unfoldable pub split_header_list_value : String → List String
unfolding trimmed_names split_on
split_header_list_value raw = trimmed_names (split_on 44 raw)

join : List String → String
unfolding append_text
join [] = ""
join (t ∷ []) = t
join (t ∷ u ∷ ts) = append_text t (append_text "," (join (u ∷ ts)))

-- What a value says about a header: it is invalid, it removes the header, or it sets it.
pub data HeaderValue : Type 0 where
  invalid absent : HeaderValue
  present : String → HeaderValue

-- The two maps of the context that concern headers
pub record Context : Type 0 where
  pub overrides : Fields
  pub request_headers : Fields

abbrev both : Option (List String) → Option (List String) → Option (List String)
both (some ts) (some us) = some (ts ++ us)
both _ _ = none

pub record Texts : Type 0 where
  pub to_lower : String → String
  pub equal_fold : String → String → Bool
  pub print : Json → String

-- The end of `setHeaderOverrideInContext`; `none` is an error, which changes nothing.
unfoldable pub write_header : Context → String → HeaderValue → Option Context
unfolding set_field delete_field
write_header ctx key HeaderValue.invalid = none
write_header ctx key HeaderValue.absent =
    some (record ctx { overrides = delete_field key ctx.overrides })
write_header ctx key (HeaderValue.present v) =
    some (record ctx { overrides = set_field key (string v) ctx.overrides })

unfoldable pub is_set : Option String → Bool
is_set none = false
is_set (some v) = true

module _ (texts : Texts) where
  open texts use {to_lower, equal_fold, print}

  -- `fmt.Sprintf("%v", value)`
  show : Json → String
  show (string s) = s
  show null = print null
  show (flag b) = print (flag b)
  show (number n) = print (number n)
  show (array is) = print (array is)
  show (object fs) = print (object fs)

  -- `normalizeHeaderContextKey`
  unfoldable pub normalize_header : String → String
  normalize_header key = trim_text (to_lower key)

  one_token : String → List String
  one_token s = if is_empty_text (trim_text s) then [] else trim_text s ∷ []

  -- `parseHeaderReplacementTokens`; `none` is its error.
  unfoldable mutual
    unfolding split_header_list_value one_token show unseen

    pub parse_header_replacement_tokens : Json → Option (List String)
    parse_header_replacement_tokens null = some []
    parse_header_replacement_tokens (string s) = some (split_header_list_value s)
    parse_header_replacement_tokens (array is) = elim (parse_items is) [
      | none ↦ none
      | some ts ↦ some (unseen [] ts)
    ]
    parse_header_replacement_tokens (object fs) = none
    parse_header_replacement_tokens (flag b) = some (one_token (show (flag b)))
    parse_header_replacement_tokens (number n) = some (one_token (show (number n)))

    pub parse_items : Items → Option (List String)
    parse_items no_items = some []
    parse_items (item v is) =
        let rest = parse_items is in both (parse_header_replacement_tokens v) rest

  -- `getHeaderValueFromContext`
  unfoldable pub value_in : String → Fields → Option String
  unfolding show lookup
  value_in name fs = elim (lookup name fs) [
    | none ↦ none
    | some raw ↦ if is_empty_text (trim_text (show raw)) then none else some (trim_text (show raw))
  ]

  unfoldable pub get_header_value : Context → String → Option String
  unfolding value_in normalize_header
  get_header_value ctx name =
      let key = normalize_header name in
      if is_empty_text key then none else elim (value_in key ctx.overrides) [
        | some v ↦ some v
        | none ↦ value_in key ctx.request_headers
      ]

  -- The loop over the tokens of the present value
  replace_tokens : Fields → Bool → List String → Option (List String)
  unfolding lookup parse_header_replacement_tokens
  replace_tokens fs keep_only [] = some []
  replace_tokens fs keep_only (t ∷ ts) =
      let rest = replace_tokens fs keep_only ts in
      elim (lookup t fs) [
        | some raw ↦ both (parse_header_replacement_tokens raw) rest
        | none ↦ if keep_only then rest else elim (lookup "*" fs) [
          | some raw ↦ both (parse_header_replacement_tokens raw) rest
          | none ↦ both (some (t ∷ [])) rest
        ]
      ]

  -- `parseHeaderKeepOnlyDeclared`
  keeps_only : Option Json → Bool
  keeps_only (some (flag b)) = b
  keeps_only _ = false

  -- `parseHeaderAppendTokens`
  append_tokens : Option Json → Option (List String)
  unfolding parse_header_replacement_tokens
  append_tokens none = some []
  append_tokens (some raw) = parse_header_replacement_tokens raw

  joined_header : Option (List String) → HeaderValue
  unfolding unseen join
  joined_header none = HeaderValue.invalid
  joined_header (some ts) = elim (unseen [] ts) [
    | [] ↦ HeaderValue.absent
    | u ∷ us ↦ HeaderValue.present (join (u ∷ us))
  ]

  tokens_of : Option String → List String
  unfolding split_header_list_value
  tokens_of none = []
  tokens_of (some v) = split_header_list_value v

  -- `resolveHeaderOverrideValueByMapping`
  by_mapping : Context → String → Fields → HeaderValue
  unfolding lookup get_header_value replace_tokens keeps_only append_tokens joined_header tokens_of
  by_mapping ctx name no_fields = HeaderValue.invalid
  by_mapping ctx name (field k v fs) =
      let mapping = field k v fs in
      joined_header (
        both
          (replace_tokens mapping (keeps_only (lookup "$keep_only_declared" mapping))
            (tokens_of (get_header_value ctx name)))
          (append_tokens (lookup "$append" mapping)))

  plain_value : String → HeaderValue
  plain_value s =
      if is_empty_text (trim_text s) then HeaderValue.absent else HeaderValue.present (trim_text s)

  -- `resolveHeaderOverrideValue`
  unfoldable pub resolve_header_value : Context → String → Json → HeaderValue
  unfolding by_mapping plain_value show
  resolve_header_value ctx name null = HeaderValue.invalid
  resolve_header_value ctx name (object fs) = by_mapping ctx name fs
  resolve_header_value ctx name (string s) = plain_value s
  resolve_header_value ctx name (flag b) = plain_value (show (flag b))
  resolve_header_value ctx name (number n) = plain_value (show (number n))
  resolve_header_value ctx name (array is) = plain_value (show (array is))

  -- `setHeaderOverrideInContext`
  unfoldable pub set_header : Context → String → Json → Bool → Option Context
  unfolding normalize_header value_in is_set write_header resolve_header_value
  set_header ctx name value keep_origin =
      let key = normalize_header name in
      if is_empty_text key
      then none
      else if keep_origin && is_set (value_in key ctx.overrides)
      then some ctx
      else write_header ctx key (resolve_header_value ctx key value)

  -- `deleteHeaderOverrideInContext`
  unfoldable pub delete_header : Context → String → Option Context
  unfolding normalize_header delete_field
  delete_header ctx name =
      let key = normalize_header name in
      if is_empty_text key
      then none
      else some (record ctx { overrides = delete_field key ctx.overrides })

  unfoldable pub set_found : Context → Option String → String → Bool → Option Context
  unfolding set_header
  set_found ctx none to keep_origin = none
  set_found ctx (some v) to keep_origin = set_header ctx to (string v) keep_origin

  -- `copyHeaderInContext`
  unfoldable pub copy_header : Context → String → String → Bool → Option Context
  unfolding normalize_header get_header_value set_found
  copy_header ctx from to keep_origin =
      let source = normalize_header from in
      let target = normalize_header to in
      if is_empty_text source || is_empty_text target
      then none
      else set_found ctx (get_header_value ctx source) target keep_origin

  unfoldable pub and_delete : Bool → String → Option Context → Option Context
  unfolding delete_header
  and_delete same name none = none
  and_delete true name (some ctx) = some ctx
  and_delete false name (some ctx) = delete_header ctx name

  -- `moveHeaderInContext`
  unfoldable pub move_header : Context → String → String → Bool → Option Context
  unfolding normalize_header copy_header and_delete
  move_header ctx from to keep_origin =
      let source = normalize_header from in
      let target = normalize_header to in
      if is_empty_text source || is_empty_text target
      then none
      else and_delete (equal_fold source target) source (copy_header ctx source target keep_origin)
