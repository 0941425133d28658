-- ===== src/UpstreamModels.antt =====
-- The comparison of a channel's models with those of its provider, and the changes that an
-- administrator selects, controller/channel_upstream_update.go. Go's sets of names are lists; the
-- functions Uniq, FilterMap and Filter of samber/lo are written out. The match of a regular
-- expression and the JSON parser of the mapping are parameters.
use text.Mathlib.Text.{starts_with}
pub mod Names
pub mod Tidy
pub mod Selected
pub mod Stable
pub mod Accounts
use east_api.Prelude.{
  ℕ, zero, suc, String, Bool, true, false, not, ◌&&◌, ◌||◌, Option, none, some, List, [], ◌∷◌, ◌++◌,
  str_eq, if◌then◌else◌,
}
use east_api.Prelude.Text.{is_empty_text, trim_text, has_text}

-- `lo.FilterMap` with the trimmed names that are not empty
unfoldable pub trimmed_names : List String → List String
trimmed_names [] = []
trimmed_names (m ∷ ms) =
    let rest = trimmed_names ms in if is_empty_text (trim_text m) then rest else trim_text m ∷ rest

-- `lo.Uniq`, past the names that were seen
unfoldable pub unseen : List String → List String → List String
unseen seen [] = []
unseen seen (m ∷ ms) =
    let rest = unseen seen ms in
    let next = unseen (m ∷ seen) ms in if has_text m seen then rest else m ∷ next

-- `normalizeModelNames`
unfoldable pub normalize_model_names : List String → List String
unfolding trimmed_names unseen
normalize_model_names models = unseen [] (trimmed_names models)

unfoldable pub append_new : List String → List String → List String
append_new merged [] = merged
append_new merged (m ∷ ms) =
    let without = append_new merged ms in
    let with_it = append_new (merged ++ m ∷ []) ms in if has_text m merged then without else with_it

-- `mergeModelNames`
unfoldable pub merge_model_names : List String → List String → List String
unfolding append_new normalize_model_names
merge_model_names base appended =
    append_new (normalize_model_names base) (normalize_model_names appended)

-- `lo.Filter`
unfoldable pub keep : (String → Bool) → List String → List String
keep p [] = []
keep p (m ∷ ms) = let rest = keep p ms in if p m then m ∷ rest else rest

-- `subtractModelNames` and `intersectModelNames`
unfoldable pub subtract_model_names : List String → List String → List String
unfolding keep normalize_model_names
subtract_model_names base removed =
    keep (λ m. not (has_text m (normalize_model_names removed))) (normalize_model_names base)

unfoldable pub intersect_model_names : List String → List String → List String
unfolding keep normalize_model_names
intersect_model_names base allowed =
    keep (λ m. has_text m (normalize_model_names allowed)) (normalize_model_names base)

-- `applySelectedModelChanges`
unfoldable pub apply_selected_model_changes : List String → List String → List String → List String
unfolding merge_model_names subtract_model_names normalize_model_names
apply_selected_model_changes origin add remove =
    let normalized_add = normalize_model_names add in
    let normalized_remove = subtract_model_names (normalize_model_names remove) normalized_add in
    subtract_model_names (merge_model_names origin normalized_add) normalized_remove

-- A mapping of model names, as its pairs
abbrev pub Mapping : Type 0
Mapping = List (String × String)

abbrev pub is_source : String → Mapping → Bool
is_source m [] = false
is_source m ((source, target) ∷ rest) = str_eq source m || is_source m rest

abbrev pub is_target : String → Mapping → Bool
is_target m [] = false
is_target m ((source, target) ∷ rest) = str_eq target m || is_target m rest

set_pair : String → String → Mapping → Mapping
set_pair source target [] = (source, target) ∷ []
set_pair source target ((s, t) ∷ rest) =
    let more = set_pair source target rest in
    if str_eq s source then (source, target) ∷ rest else (s, t) ∷ more

normalized_pairs : Mapping → Mapping → Mapping
unfolding set_pair
normalized_pairs done [] = done
normalized_pairs done ((source, target) ∷ rest) =
    let skipped = normalized_pairs done rest in
    let taken = normalized_pairs (set_pair (trim_text source) (trim_text target) done) rest in
    if is_empty_text (trim_text source) || is_empty_text (trim_text target) then skipped else taken

-- `normalizeChannelModelMapping`: `raw` is the column, `none` where it is null; the parsed pairs come
-- in the order in which the loop meets them.
unfoldable pub normalize_channel_model_mapping : (String → Option Mapping) → Option String → Mapping
unfolding normalized_pairs
normalize_channel_model_mapping parse none = []
normalize_channel_model_mapping parse (some raw) =
    if is_empty_text (trim_text raw) || str_eq (trim_text raw) "{}"
    then []
    else elim (parse (trim_text raw)) [ none ↦ [] | some pairs ↦ normalized_pairs [] pairs ]

drop_chars : ℕ → String → String
drop_chars zero s = s
drop_chars (suc n) String.[] = ""
drop_chars (suc n) (String.◌∷◌ c s) = drop_chars n s

-- The tests of `collectPendingUpstreamModelChangesFromModels` for removal, and below for addition
abbrev pub to_remove : List String → Mapping → String → Bool
to_remove upstream mapping m = not (is_source m mapping) && not (has_text m upstream)

-- `match_string pattern name` is whether `regexp.MatchString` matches without an error.
module _ (match_string : String → String → Bool) where
  ignores : String → String → Bool
  unfolding drop_chars
  ignores name ignored =
      if starts_with ignored "regex:"
      then match_string (trim_text (drop_chars 6 ignored)) name
      else str_eq ignored name

  unfoldable pub is_ignored : String → List String → Bool
  unfolding ignores
  is_ignored name [] = false
  is_ignored name (i ∷ is) = ignores name i || is_ignored name is

  unfoldable pub to_add : List String → List String → Mapping → String → Bool
  unfolding is_ignored
  to_add locals ignored mapping m =
      not (has_text m locals || is_target m mapping) && not (is_ignored m ignored)

  -- `collectPendingUpstreamModelChangesFromModels`: the models to add and those to remove
  unfoldable pub collect_pending :
      List String → List String → List String → Mapping → List String × List String
  unfolding to_add keep normalize_model_names
  collect_pending local_models upstream_models ignored_models mapping =
      let locals = normalize_model_names local_models in
      let upstream = normalize_model_names upstream_models in
      let ignored = normalize_model_names ignored_models in
      (
        normalize_model_names (keep (to_add locals ignored mapping) upstream),
        normalize_model_names (keep (to_remove upstream mapping) locals),
      )

-- What applyChannelUpstreamModelUpdates reads and writes of the channel and of its settings. `models`
-- is the column models split at its commas, as the code splits and joins it.
pub record Settings : Type 0 where
  pub models : List String
  pub last_detected : List String
  pub last_removed : List String
  pub ignored : List String

pub record Applied : Type 0 where
  pub settings : Settings
  pub models_changed : Bool
  pub added : List String
  pub removed : List String

-- `slices.Equal`
unfoldable pub same_names : List String → List String → Bool
same_names [] [] = true
same_names (m ∷ ms) (n ∷ ns) = str_eq m n && same_names ms ns
same_names _ _ = false

-- `applyChannelUpstreamModelUpdates`, up to the saving of the channel
unfoldable pub apply_channel_upstream_model_updates :
    Settings → List String → List String → List String → Applied
unfolding merge_model_names subtract_model_names intersect_model_names apply_selected_model_changes
    normalize_model_names same_names
apply_channel_upstream_model_updates s add_input ignore_input remove_input =
    let pending_add = normalize_model_names s.last_detected in
    let pending_remove = normalize_model_names s.last_removed in
    let add = intersect_model_names add_input pending_add in
    let ignore = intersect_model_names ignore_input pending_add in
    let remove = subtract_model_names (intersect_model_names remove_input pending_remove) add in
    let merged = merge_model_names s.ignored ignore in
    let origin = normalize_model_names s.models in
    let next = apply_selected_model_changes origin add remove in
    record {
      settings = record {
        models = if same_names origin next then s.models else next;
        last_detected = subtract_model_names pending_add (add ++ ignore);
        last_removed = subtract_model_names pending_remove remove;
        ignored = elim add [ [] ↦ merged | a ∷ rest ↦ subtract_model_names merged (a ∷ rest) ];
      };
      models_changed = not (same_names origin next);
      added = add;
      removed = remove;
    }
