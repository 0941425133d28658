-- ===== src/Prelude/Text.antt =====
-- Texts as lists of code points, for the code that trims and compares them.
use Prim.Native.Char.{code}
use Prim.Native.Nat.{ℕ}
use Prim.Native.String.{String}
use mathlib.Core.Bool.{Bool, true, false, ◌&&◌, ◌||◌}
use mathlib.Core.List.{List, [], ◌∷◌, reverse}
use east_api.Prelude.Tests.{◌==◌, is_space, str_eq, if◌then◌else◌}

abbrev pub codes : String → List ℕ
codes String.[] = []
codes (String.◌∷◌ c s) = code c ∷ codes s

unfoldable pub codes_eq : List ℕ → List ℕ → Bool
codes_eq [] [] = true
codes_eq (c ∷ cs) (d ∷ ds) = c == d && codes_eq cs ds
codes_eq _ _ = false

unfoldable pub trim_left : List ℕ → List ℕ
unfolding is_space
trim_left [] = []
trim_left (c ∷ cs) = if is_space c then trim_left cs else c ∷ cs

-- `strings.TrimSpace`
unfoldable pub trim_space : List ℕ → List ℕ
unfolding trim_left
trim_space cs = reverse (trim_left (reverse (trim_left cs)))

abbrev pub is_empty_text : String → Bool
is_empty_text String.[] = true
is_empty_text (String.◌∷◌ c s) = false

unfoldable pub text_after_space : String → String
unfolding is_space
text_after_space String.[] = ""
text_after_space (String.◌∷◌ c s) =
    let rest = text_after_space s in if is_space (code c) then rest else String.◌∷◌ c s

unfoldable pub text_before_space : String → String
unfolding is_space
text_before_space String.[] = ""
text_before_space (String.◌∷◌ c s) =
    let rest = text_before_space s in
    if is_space (code c) && is_empty_text rest then "" else String.◌∷◌ c rest

-- `strings.TrimSpace`, as a text
unfoldable pub trim_text : String → String
unfolding text_after_space text_before_space
trim_text s = text_before_space (text_after_space s)

-- Membership in a set or a list of texts
abbrev pub has_text : String → List String → Bool
has_text s [] = false
has_text s (t ∷ ts) = str_eq t s || has_text s ts

unfoldable pub append_text : String → String → String
append_text String.[] t = t
append_text (String.◌∷◌ c s) t = String.◌∷◌ c (append_text s t)

-- `strings.Split` at one character
unfoldable pub split_on : ℕ → String → List String
split_on at String.[] = "" ∷ []
split_on at (String.◌∷◌ c s) =
    let rest = split_on at s in
    if code c == at
    then "" ∷ rest
    else elim rest [ [] ↦ [] | part ∷ parts ↦ String.◌∷◌ c part ∷ parts ]
