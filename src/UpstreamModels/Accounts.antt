-- ===== src/UpstreamModels/Accounts.antt =====
-- Where each name is after the changes of applyChannelUpstreamModelUpdates.
use east_api.Prelude.{
  ◌≡◌, refl, ◌∙◌, ap, String, Bool, true, not, ◌&&◌, ◌||◌, List, [], ◌∷◌, ◌++◌, arith, false≢true,
  if◌then◌else◌, if_cases,
}
use east_api.Prelude.Text.{has_text}
use east_api.UpstreamModels.{
  normalize_model_names, merge_model_names, subtract_model_names, intersect_model_names,
  apply_selected_model_changes, Settings, Applied, same_names, apply_channel_upstream_model_updates,
}
use east_api.UpstreamModels.Names.{same_text, has-append}
use east_api.UpstreamModels.Tidy.{has-clean, All-append}
use east_api.UpstreamModels.Selected.{
  names, names-tidy, names-twice, subtract-names, intersect-names, subtract-IsTidy,
  intersect-IsTidy, merge-names_twice, apply_selected_model_changes-names,
}

same_names-same : (ms ns : List String) → same_names ms ns ≡ true → ms ≡ ns
unfolding same_names
same_names-same [] [] h = refl
same_names-same [] (n ∷ ns) h = absurd (false≢true h)
same_names-same (m ∷ ms) [] h = absurd (false≢true h)
same_names-same (m ∷ ms) (n ∷ ns) h =
    rw (same_text m n (ground arith), same_names-same ms ns (ground arith)) refl

module _ (s : Settings) (add ignore remove : List String) (x : String) where
  -- The name was detected and selected to be added, or to be ignored; it was found missing and
  -- selected to be removed, and not added.
  abbrev pub is_added : Bool
  is_added = names add x && names s.last_detected x

  abbrev pub is_set_aside : Bool
  is_set_aside = names ignore x && names s.last_detected x

  abbrev pub is_removed : Bool
  is_removed = names remove x && names s.last_removed x && not is_added

  pub record Accounts (a : Applied) : Type 0 where
    pub added : has_text x a.added ≡ is_added
    pub removed : has_text x a.removed ≡ is_removed
    pub models : names a.settings.models x ≡ (is_added || names s.models x && not is_removed)
    pub detected :
        has_text x a.settings.last_detected
        ≡ (names s.last_detected x && not is_added && not is_set_aside)
    pub missing : has_text x a.settings.last_removed ≡ (names s.last_removed x && not is_removed)
    pub ignored : names a.settings.ignored x ≡ ((names s.ignored x || is_set_aside) && not is_added)

  added_names : List String
  added_names = intersect_model_names add (normalize_model_names s.last_detected)

  ignored_names : List String
  ignored_names = intersect_model_names ignore (normalize_model_names s.last_detected)

  missing_names : List String
  missing_names = intersect_model_names remove (normalize_model_names s.last_removed)

  removed_names : List String
  removed_names = subtract_model_names missing_names added_names

  added-is : has_text x added_names ≡ is_added
  unfolding added_names
  added-is =
      intersect-names x add (normalize_model_names s.last_detected)
      ∙ ap (λ b. names add x && b) (names-twice x s.last_detected)

  ignored-is : has_text x ignored_names ≡ is_set_aside
  unfolding ignored_names
  ignored-is =
      intersect-names x ignore (normalize_model_names s.last_detected)
      ∙ ap (λ b. names ignore x && b) (names-twice x s.last_detected)

  added-tidy : names added_names x ≡ is_added
  unfolding added_names
  added-tidy =
      names-tidy x added_names (intersect-IsTidy add (normalize_model_names s.last_detected))
      ∙ added-is

  ignored_tidy : names ignored_names x ≡ is_set_aside
  unfolding ignored_names
  ignored_tidy =
      names-tidy x ignored_names (intersect-IsTidy ignore (normalize_model_names s.last_detected))
      ∙ ignored-is

  removed-is : has_text x removed_names ≡ is_removed
  unfolding removed_names missing_names
  removed-is = ground (
    arith,
    subtract-names x missing_names added_names,
    added-tidy,
    names-tidy x missing_names (intersect-IsTidy remove (normalize_model_names s.last_removed)),
    intersect-names x remove (normalize_model_names s.last_removed),
    names-twice x s.last_removed,
  )

  removed-tidy : names removed_names x ≡ is_removed
  unfolding removed_names
  removed-tidy = names-tidy x removed_names (subtract-IsTidy missing_names added_names) ∙ removed-is

  models-is :
      names
        (let next =
            apply_selected_model_changes
              (normalize_model_names s.models)
              added_names
              removed_names in
          if same_names (normalize_model_names s.models) next then s.models else next)
        x
      ≡ (is_added || names s.models x && not is_removed)
  models-is =
      let origin = normalize_model_names s.models in
      let next = apply_selected_model_changes origin added_names removed_names in
      let (tidy, members) = apply_selected_model_changes-names origin added_names removed_names in
      let now : has_text x next ≡ (is_added || names s.models x && not is_removed) =
        ground (arith, members x, added-tidy, removed-tidy, names-twice x s.models) in
      if_cases (λ ms. names ms x ≡ (is_added || names s.models x && not is_removed))
        (same_names origin next) (λ e. ap (has_text x) (same_names-same origin next e) ∙ now)
        (λ e. names-tidy x next tidy ∙ now)

  detected-is :
      has_text x (
        subtract_model_names (normalize_model_names s.last_detected) (added_names ++ ignored_names))
      ≡ (names s.last_detected x && not is_added && not is_set_aside)
  unfolding added_names ignored_names
  detected-is =
      let pending = normalize_model_names s.last_detected in
      ground (
        arith,
        subtract-names x pending (added_names ++ ignored_names),
        names-twice x s.last_detected,
        has-clean x (added_names ++ ignored_names) (
            All-append added_names ignored_names (intersect-IsTidy add pending).0
              (intersect-IsTidy ignore pending).0),
        has-append x added_names ignored_names,
        added-is,
        ignored-is,
      )

  missing-is :
      has_text x (subtract_model_names (normalize_model_names s.last_removed) removed_names)
      ≡ (names s.last_removed x && not is_removed)
  missing-is = ground (
    arith,
    subtract-names x (normalize_model_names s.last_removed) removed_names,
    names-twice x s.last_removed,
    removed-tidy,
  )

  ignored_after : List String → List String
  ignored_after added =
      let merged = merge_model_names s.ignored ignored_names in
      elim added [ [] ↦ merged | a ∷ rest ↦ subtract_model_names merged (a ∷ rest) ]

  ignored_after-is :
      (added : List String)
      → has_text x added ≡ is_added
      → names added x ≡ is_added
      → names (ignored_after added) x ≡ ((names s.ignored x || is_set_aside) && not is_added)
  unfolding ignored_after
  ignored_after-is [] e t =
      ground (arith, merge-names_twice x s.ignored ignored_names, ignored_tidy, e)
  ignored_after-is (a ∷ rest) e t = ground (
    arith,
    names-tidy x (subtract_model_names (merge_model_names s.ignored ignored_names) (a ∷ rest))
        (subtract-IsTidy (merge_model_names s.ignored ignored_names) (a ∷ rest)),
    subtract-names x (merge_model_names s.ignored ignored_names) (a ∷ rest),
    merge-names_twice x s.ignored ignored_names,
    ignored_tidy,
    t,
  )

  -- After a selection is applied, each name is accounted for: it is added if it was detected and
  -- selected, also where it was selected to be ignored or removed as well; ignored if it was detected
  -- and selected so, else still detected; removed if it was found missing and selected, else still
  -- missing. The models change by what was added and removed, and nothing is both ignored and added.
  pub apply_channel_upstream_model_updates-Accounts :
      Accounts (apply_channel_upstream_model_updates s add ignore remove)
  unfolding apply_channel_upstream_model_updates added_names ignored_names missing_names
      removed_names ignored_after
  apply_channel_upstream_model_updates-Accounts = record {
    added = added-is;
    removed = removed-is;
    models = models-is;
    detected = detected-is;
    missing = missing-is;
    ignored = ignored_after-is added_names added-is added-tidy;
  }
