-- ===== src/UpstreamModels/Stable.antt =====
-- Applying all the changes that a comparison finds leaves nothing to change.
use east_api.Prelude.{◌≡◌, refl, ◌∙◌, String, Bool, false, not, ◌&&◌, ◌||◌, List, [], ◌∷◌, arith}
use text.Mathlib.TextEquality.{eq_iff}
use east_api.Prelude.Text.{has_text}
use east_api.UpstreamModels.{
  normalize_model_names, keep, apply_selected_model_changes, Mapping, is_source, is_target, to_add,
  to_remove, is_ignored, collect_pending,
}
use east_api.UpstreamModels.Names.{has-keep}
use east_api.UpstreamModels.Tidy.{IsTidy, keep-IsTidy, normalize_model_names-tidies}
use east_api.UpstreamModels.Selected.{names, names-tidy, apply_selected_model_changes-names}

-- A list that has no member is empty.
no_members : (ms : List String) → ((x : String) → has_text x ms ≡ false) → ms ≡ []
no_members [] h = refl
no_members (m ∷ ms) h = absurd (ground (arith, h m, (eq_iff m m).1 refl))

module _ (match_string : String → String → Bool) (ignored : List String) (mapping : Mapping) where
  -- What a comparison finds, name by name
  added-names :
      (locals upstream : List String) (x : String)
      → has_text x (collect_pending match_string locals upstream ignored mapping).0 ≡ (
          names upstream x
          && not (names locals x || is_target x mapping)
          && not (is_ignored match_string x (normalize_model_names ignored)))
  unfolding collect_pending to_add
  added-names locals upstream x =
      let p =
        to_add match_string (normalize_model_names locals) (normalize_model_names ignored)
          mapping in
      names-tidy x (keep p (normalize_model_names upstream))
        (keep-IsTidy p (normalize_model_names upstream) (normalize_model_names-tidies upstream))
      ∙ has-keep p x (normalize_model_names upstream)
      ∙ ground arith

  removed-names :
      (locals upstream : List String) (x : String)
      → has_text x (collect_pending match_string locals upstream ignored mapping).1
        ≡ (names locals x && not (is_source x mapping) && not (names upstream x))
  unfolding collect_pending
  removed-names locals upstream x =
      let p = to_remove (normalize_model_names upstream) mapping in
      names-tidy x (keep p (normalize_model_names locals))
        (keep-IsTidy p (normalize_model_names locals) (normalize_model_names-tidies locals))
      ∙ has-keep p x (normalize_model_names locals)
      ∙ ground arith

  collect_pending-IsTidy :
      (locals upstream : List String)
      → IsTidy (collect_pending match_string locals upstream ignored mapping).0
        × IsTidy (collect_pending match_string locals upstream ignored mapping).1
  unfolding collect_pending
  collect_pending-IsTidy locals upstream =
      (normalize_model_names-tidies _, normalize_model_names-tidies _)

  -- Once all that a comparison finds is applied, a comparison with the same models of the provider
  -- finds nothing to add and nothing to remove, whatever is ignored or mapped.
  pub collect_pending-settles :
      (locals upstream : List String)
      → (let found = collect_pending match_string locals upstream ignored mapping in
          collect_pending match_string
            (apply_selected_model_changes locals found.0 found.1)
            upstream
            ignored
            mapping)
        ≡ ([], [])
  collect_pending-settles locals upstream =
      let found = collect_pending match_string locals upstream ignored mapping in
      let tidy = collect_pending-IsTidy locals upstream in
      let locals' = apply_selected_model_changes locals found.0 found.1 in
      let (tidy', members) = apply_selected_model_changes-names locals found.0 found.1 in
      let after : (x : String)
          → names locals' x ≡ (has_text x found.0 || names locals x && not (has_text x found.1)) =
        λ x. ground (
          arith,
          names-tidy x locals' tidy',
          members x,
          names-tidy x found.0 tidy.0,
          names-tidy x found.1 tidy.1,
        ) in
      let none_added =
        no_members (collect_pending match_string locals' upstream ignored mapping).0 λ x. ground (
          arith,
          added-names locals' upstream x,
          after x,
          added-names locals upstream x,
          removed-names locals upstream x,
        ) in
      let none_removed =
        no_members (collect_pending match_string locals' upstream ignored mapping).1 λ x. ground (
          arith,
          removed-names locals' upstream x,
          after x,
          added-names locals upstream x,
          removed-names locals upstream x,
        ) in
      rw (none_added, none_removed) refl
