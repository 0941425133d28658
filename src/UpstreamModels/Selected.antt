-- ===== src/UpstreamModels/Selected.antt =====
-- The members of the lists that the set operations make, and the changes that were selected.
use east_api.Prelude.{◌≡◌, ◌∙◌, ap, String, Bool, not, ◌&&◌, ◌||◌, List, arith}
use east_api.Prelude.Text.{has_text}
use east_api.UpstreamModels.{
  normalize_model_names, merge_model_names, subtract_model_names, intersect_model_names,
  apply_selected_model_changes,
}
use east_api.UpstreamModels.Names.{has-keep, has-append_new}
use east_api.UpstreamModels.Tidy.{
  IsTidy, has-clean, keep-IsTidy, append_new-All, normalize_model_names-twice,
  normalize_model_names-tidies,
}

-- Whether a name stands in a list, once the list is normalized
abbrev pub names : List String → String → Bool
names ms x = has_text x (normalize_model_names ms)

module _ (x : String) where
  pub subtract-names :
      (base removed : List String)
      → has_text x (subtract_model_names base removed) ≡ (names base x && not (names removed x))
  unfolding subtract_model_names
  subtract-names base removed = has-keep (λ m. not (names removed m)) x (normalize_model_names base)

  pub intersect-names :
      (base allowed : List String)
      → has_text x (intersect_model_names base allowed) ≡ (names base x && names allowed x)
  unfolding intersect_model_names
  intersect-names base allowed = has-keep (λ m. names allowed m) x (normalize_model_names base)

  pub merge-names :
      (base appended : List String)
      → has_text x (merge_model_names base appended) ≡ (names base x || names appended x)
  unfolding merge_model_names
  merge-names base appended =
      has-append_new x (normalize_model_names base) (normalize_model_names appended)

  pub names-tidy : (ms : List String) → IsTidy ms → names ms x ≡ has_text x ms
  names-tidy ms h = has-clean x ms h.0

  pub names-twice : (ms : List String) → names (normalize_model_names ms) x ≡ names ms x
  names-twice ms = ap (has_text x) (normalize_model_names-twice ms).1

pub subtract-IsTidy : (base removed : List String) → IsTidy (subtract_model_names base removed)
unfolding subtract_model_names
subtract-IsTidy base removed =
    keep-IsTidy (λ m. not (names removed m)) (normalize_model_names base)
      (normalize_model_names-tidies base)

pub intersect-IsTidy : (base allowed : List String) → IsTidy (intersect_model_names base allowed)
unfolding intersect_model_names
intersect-IsTidy base allowed =
    keep-IsTidy (λ m. names allowed m) (normalize_model_names base)
      (normalize_model_names-tidies base)

pub merge-names_twice :
    (x : String) (base appended : List String)
    → names (merge_model_names base appended) x ≡ (names base x || names appended x)
unfolding merge_model_names
merge-names_twice x base appended =
    has-clean x (merge_model_names base appended) (
      append_new-All (normalize_model_names base) (normalize_model_names appended)
        (normalize_model_names-tidies base).0 (normalize_model_names-tidies appended).0)
    ∙ merge-names x base appended

-- After the selected changes the models are those that were added, and those of before that were
-- not removed; a name that is both added and removed is added. They are trimmed, and each there once.
pub apply_selected_model_changes-names :
    (origin add remove : List String)
    → IsTidy (apply_selected_model_changes origin add remove)
      × ((x : String)
          → has_text x (apply_selected_model_changes origin add remove)
            ≡ (names add x || names origin x && not (names remove x)))
unfolding apply_selected_model_changes
apply_selected_model_changes-names origin add remove =
    let add' = normalize_model_names add in
    let remove' = subtract_model_names (normalize_model_names remove) add' in
    (
      subtract-IsTidy (merge_model_names origin add') remove',
      λ x. ground (
        arith,
        subtract-names x (merge_model_names origin add') remove',
        merge-names_twice x origin add',
        names-twice x add,
        names-tidy x remove' (subtract-IsTidy (normalize_model_names remove) add'),
        subtract-names x (normalize_model_names remove) add',
        names-twice x remove,
      ),
    )
