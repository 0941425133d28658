-- ===== src/UpstreamModels/Names.antt =====
-- Lists of model names as sets: their members, their trimming and their repetitions.
use text.Mathlib.TextEquality.{eq_iff}
use east_api.Prelude.{
  ◌≡◌, refl, ap, String, Bool, true, not, ◌&&◌, ◌||◌, List, [], ◌∷◌, ◌++◌, str_eq, arith,
  Bool-cases, inl, inr,
}
use east_api.Prelude.Text.{has_text}
use east_api.UpstreamModels.{unseen, append_new, keep}

pub same_text : (s t : String) → str_eq s t ≡ true → s ≡ t
same_text s t h = (eq_iff s t).0 h

pub has-keep :
    (p : String → Bool) (x : String) (ms : List String)
    → has_text x (keep p ms) ≡ (has_text x ms && p x)
unfolding keep
has-keep p x [] = refl
has-keep p x (m ∷ ms) = elim (Bool-cases (str_eq m x)) [
  | inl e ↦ let at : p m ≡ p x = ap p (same_text m x e) in ground (arith, has-keep p x ms, at, e)
  | inr e ↦ ground (arith, has-keep p x ms, e)
]

pub has-unseen :
    (x : String) (seen ms : List String)
    → has_text x (unseen seen ms) ≡ (has_text x ms && not (has_text x seen))
unfolding unseen
has-unseen x seen [] = refl
has-unseen x seen (m ∷ ms) = elim (Bool-cases (str_eq m x)) [
  | inl e ↦
      let at : has_text m seen ≡ has_text x seen = ap (λ y. has_text y seen) (same_text m x e) in
      ground (arith, has-unseen x seen ms, has-unseen x (m ∷ seen) ms, at, e)
  | inr e ↦ ground (arith, has-unseen x seen ms, has-unseen x (m ∷ seen) ms, e)
]

pub has-append :
    (x : String) (ms ns : List String) → has_text x (ms ++ ns) ≡ (has_text x ms || has_text x ns)
has-append x [] ns = refl
has-append x (m ∷ ms) ns = ground (arith, has-append x ms ns)

pub has-append_new :
    (x : String) (merged ms : List String)
    → has_text x (append_new merged ms) ≡ (has_text x merged || has_text x ms)
unfolding append_new
has-append_new x merged [] = ground arith
has-append_new x merged (m ∷ ms) = elim (Bool-cases (str_eq m x)) [
  | inl e ↦
      let at : has_text m merged ≡ has_text x merged =
        ap (λ y. has_text y merged) (same_text m x e) in
      ground (
        arith,
        has-append_new x merged ms,
        has-append_new x (merged ++ m ∷ []) ms,
        has-append x merged (m ∷ []),
        at,
        e,
      )
  | inr e ↦ ground (
    arith,
    has-append_new x merged ms,
    has-append_new x (merged ++ m ∷ []) ms,
    has-append x merged (m ∷ []),
    e,
  )
]
