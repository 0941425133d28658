-- ===== src/UpstreamModels/Tidy.antt =====
-- What normalizeModelNames leaves: trimmed names that are not empty, each once.
use Prim.Native.Char.{code}
use text.Mathlib.TextEquality.{eq_iff}
use east_api.Prelude.{
  ◌≡◌, refl, sym, ◌∙◌, ap, String, Bool, false, ◌&&◌, List, [], ◌∷◌, ◌++◌, All, str_eq, is_space,
  if_cases, if_both, arith, Bool-cases, inl, inr, false≢true,
}
use east_api.Prelude.Text.{is_empty_text, trim_text, text_after_space, text_before_space, has_text}
use east_api.UpstreamModels.{trimmed_names, unseen, normalize_model_names, append_new, keep}
use east_api.UpstreamModels.Names.{same_text, has-keep, has-unseen}

text_after_space-before :
    (s : String)
    → text_after_space (text_before_space (text_after_space s))
      ≡ text_before_space (text_after_space s)
unfolding text_after_space text_before_space
text_after_space-before String.[] = refl
text_after_space-before (String.◌∷◌ c s) = elim (Bool-cases (is_space (code c))) [
  | inl e ↦ rw e (text_after_space-before s)
  | inr e ↦ rw (e, e, e) refl
]

text_before_space-twice :
    (s : String) → text_before_space (text_before_space s) ≡ text_before_space s
unfolding text_before_space
text_before_space-twice String.[] = refl
text_before_space-twice (String.◌∷◌ c s) =
    elim (Bool-cases (is_space (code c) && is_empty_text (text_before_space s))) [
      | inl e ↦ rw e refl
      | inr e ↦ rw (e, text_before_space-twice s, e) refl
    ]

trim_text-twice : (s : String) → trim_text (trim_text s) ≡ trim_text s
unfolding trim_text
trim_text-twice s =
    ap text_before_space (text_after_space-before s) ∙ text_before_space-twice (text_after_space s)

abbrev pub IsClean : String → Type 0
IsClean m = (trim_text m ≡ m) × (is_empty_text m ≡ false)

trimmed_names-All : (ms : List String) → All IsClean (trimmed_names ms)
unfolding trimmed_names
trimmed_names-All [] = tt
trimmed_names-All (m ∷ ms) =
    if_cases (All IsClean) (is_empty_text (trim_text m)) (λ e. trimmed_names-All ms)
      (λ e. ((trim_text-twice m, e), trimmed_names-All ms))

pub trimmed_names-same : (ms : List String) → All IsClean ms → trimmed_names ms ≡ ms
unfolding trimmed_names
trimmed_names-same [] h = refl
trimmed_names-same (m ∷ ms) ((t, e), h) = rw (t, e, trimmed_names-same ms h) refl

unseen-All : (seen ms : List String) → All IsClean ms → All IsClean (unseen seen ms)
unfolding unseen
unseen-All seen [] h = tt
unseen-All seen (m ∷ ms) h =
    if_both (All IsClean) (has_text m seen) (unseen-All seen ms h.1)
      (h.0, unseen-All (m ∷ seen) ms h.1)

-- Each name stands once.
abbrev pub IsDistinct : List String → Type 0
IsDistinct [] = Unit
IsDistinct (m ∷ ms) = (has_text m ms ≡ false) × IsDistinct ms

unseen-IsDistinct : (seen ms : List String) → IsDistinct (unseen seen ms)
unfolding unseen
unseen-IsDistinct seen [] = tt
unseen-IsDistinct seen (m ∷ ms) = if_both IsDistinct (has_text m seen) (unseen-IsDistinct seen ms) (
  ground (arith, has-unseen m (m ∷ seen) ms, (eq_iff m m).1 refl),
  unseen-IsDistinct (m ∷ seen) ms,
)

abbrev pub IsTidy : List String → Type 0
IsTidy ms = All IsClean ms × IsDistinct ms

pub normalize_model_names-tidies : (ms : List String) → IsTidy (normalize_model_names ms)
unfolding normalize_model_names
normalize_model_names-tidies ms = (
  unseen-All [] (trimmed_names ms) (trimmed_names-All ms),
  unseen-IsDistinct [] (trimmed_names ms),
)

different : (m n : String) → str_eq n m ≡ false → str_eq m n ≡ false
different m n h = elim (Bool-cases (str_eq m n)) [
  | inr e ↦ e
  | inl e ↦ absurd (false≢true (sym h ∙ (eq_iff n m).1 (sym (same_text m n e))))
]

AllNew : List String → List String → Type 0
AllNew seen [] = Unit
AllNew seen (m ∷ ms) = (has_text m seen ≡ false) × AllNew seen ms

AllNew-cons :
    (m : String) (seen ms : List String)
    → has_text m ms ≡ false
    → AllNew seen ms
    → AllNew (m ∷ seen) ms
unfolding AllNew
AllNew-cons m seen [] h a = tt
AllNew-cons m seen (n ∷ ns) h (new, a) =
    let apart : str_eq m n ≡ false = different m n (ground (arith, h)) in
    (ground (arith, new, apart), AllNew-cons m seen ns (ground (arith, h)) a)

AllNew-nil : (ms : List String) → AllNew [] ms
unfolding AllNew
AllNew-nil [] = tt
AllNew-nil (m ∷ ms) = (refl, AllNew-nil ms)

unseen-same : (seen ms : List String) → AllNew seen ms → IsDistinct ms → unseen seen ms ≡ ms
unfolding unseen AllNew
unseen-same seen [] a d = refl
unseen-same seen (m ∷ ms) (new, a) (once, d) =
    rw (new, unseen-same (m ∷ seen) ms (AllNew-cons m seen ms once a) d) refl

normalize_model_names-same : (ms : List String) → IsTidy ms → normalize_model_names ms ≡ ms
unfolding normalize_model_names
normalize_model_names-same ms (clean, once) =
    ap (unseen []) (trimmed_names-same ms clean) ∙ unseen-same [] ms (AllNew-nil ms) once

-- Normalized names are trimmed, not empty and each there once, and normalizing them again changes
-- nothing.
pub normalize_model_names-twice :
    (ms : List String)
    → IsTidy (normalize_model_names ms)
      × (normalize_model_names (normalize_model_names ms) ≡ normalize_model_names ms)
normalize_model_names-twice ms = (
  normalize_model_names-tidies ms,
  normalize_model_names-same (normalize_model_names ms) (normalize_model_names-tidies ms),
)

pub has-clean :
    (x : String) (ms : List String)
    → All IsClean ms
    → has_text x (normalize_model_names ms) ≡ has_text x ms
unfolding normalize_model_names
has-clean x ms clean =
    let same : has_text x (trimmed_names ms) ≡ has_text x ms =
      ap (has_text x) (trimmed_names-same ms clean) in
    ground (arith, has-unseen x [] (trimmed_names ms), same)

pub keep-IsTidy : (p : String → Bool) (ms : List String) → IsTidy ms → IsTidy (keep p ms)
unfolding keep
keep-IsTidy p [] h = h
keep-IsTidy p (m ∷ ms) ((c, cs), (once, d)) =
    let (cs', d') = keep-IsTidy p ms (cs, d) in
    if_both IsTidy (p m) ((c, cs'), (ground (arith, has-keep p m ms, once), d')) (cs', d')

pub All-append : (ms ns : List String) → All IsClean ms → All IsClean ns → All IsClean (ms ++ ns)
All-append [] ns h k = k
All-append (m ∷ ms) ns h k = (h.0, All-append ms ns h.1 k)

pub append_new-All :
    (merged ms : List String)
    → All IsClean merged
    → All IsClean ms
    → All IsClean (append_new merged ms)
unfolding append_new
append_new-All merged [] h k = h
append_new-All merged (m ∷ ms) h k =
    if_both (All IsClean) (has_text m merged) (append_new-All merged ms h k.1)
      (append_new-All (merged ++ m ∷ []) ms (All-append merged (m ∷ []) h (k.0, tt)) k.1)
