-- ===== src/Override/Effects.antt =====
-- What the operations on headers leave in the context.
use text.Mathlib.TextEquality.{eq_iff}
use east_api.Prelude.{
  ◌≡◌, ◌≢◌, refl, sym, ap, ◌∙◌, subst, String, Bool, true, false, not, ◌&&◌, Option, none, some,
  str_eq, if◌then◌else◌, if_cases, if_both, if_true, if_false, arith, Bool-cases, inl, inr, ◌⊎◌,
  false≢true,
}
use east_api.Prelude.Text.{is_empty_text, trim_text}
use east_api.Override.{
  Json, null, flag, number, string, array, object, Fields, no_fields, field, lookup, delete_field,
  set_field,
}
use east_api.Override.Headers.{
  HeaderValue, Context, Texts, normalize_header, value_in, is_set, write_header,
  resolve_header_value, set_header,
}

through : (i j k : String) → str_eq i j ≡ true → str_eq i k ≡ true → str_eq j k ≡ true
through i j k h e = (eq_iff j k).1 (sym ((eq_iff i j).0 h) ∙ (eq_iff i k).0 e)

apart : (i j k : String) → str_eq i j ≡ true → str_eq i k ≡ false → str_eq j k ≡ false
apart i j k h e = subst (λ x. str_eq x k ≡ false) ((eq_iff i j).0 h) e

flipped : (j k : String) → str_eq j k ≡ false → str_eq k j ≡ false
flipped j k e = elim (Bool-cases (str_eq k j)) [
  | inr f ↦ f
  | inl f ↦ absurd (false≢true (sym e ∙ (eq_iff j k).1 (sym ((eq_iff k j).0 f))))
]

lookup-delete_field :
    (j k : String) (fs : Fields)
    → lookup j (delete_field k fs) ≡ (if str_eq j k then none else lookup j fs)
unfolding lookup delete_field
lookup-delete_field j k no_fields =
    if_both (λ (x : Option Json). ◌≡◌ {A = Option Json} none x) (str_eq j k) {first = none}
      {second = none} refl refl
lookup-delete_field j k (field i v fs) = elim (Bool-cases (str_eq i k)) [
  | inl e ↦ elim (Bool-cases (str_eq i j)) [
    | inl h ↦
        let jk : str_eq j k ≡ true = through i j k h e in
        ground (arith, lookup-delete_field j k fs, e, h, jk)
    | inr h ↦ ground (arith, lookup-delete_field j k fs, e, h)
  ]
  | inr e ↦ elim (Bool-cases (str_eq i j)) [
    | inl h ↦
        let jk : str_eq j k ≡ false = apart i j k h e in
        ground (arith, lookup-delete_field j k fs, e, h, jk)
    | inr h ↦ ground (arith, lookup-delete_field j k fs, e, h)
  ]
]

lookup-set_field :
    (j k : String) (v : Json) (fs : Fields)
    → lookup j (set_field k v fs) ≡ (if str_eq j k then some v else lookup j fs)
unfolding lookup set_field
lookup-set_field j k v fs = elim (Bool-cases (str_eq j k)) [
  | inl e ↦ let kj : str_eq k j ≡ true = (eq_iff k j).1 (sym ((eq_iff j k).0 e)) in rw (kj, e) refl
  | inr e ↦
      let kj : str_eq k j ≡ false = flipped j k e in
      if_false (str_eq k j) (some v) (lookup j (delete_field k fs)) kj
      ∙ lookup-delete_field j k fs
      ∙ if_false (str_eq j k) none (lookup j fs) e
      ∙ sym (if_false (str_eq j k) (some v) (lookup j fs) e)
]

-- The override of a header after a write: that of the value where the value sets or removes it
abbrev written : HeaderValue → Option Json → Option Json
written HeaderValue.invalid before = before
written HeaderValue.absent before = none
written (HeaderValue.present v) before = some (string v)

-- The text of a value, `print` of one that is no text
abbrev text_of : Texts → Json → String
text_of texts (string s) = s
text_of texts v = texts.print v

-- The text that a value asks a header to have: none for a null, which is no header value. An object
-- is not a plain value, it maps the tokens of the header.
abbrev pub plain_text : Texts → Json → Option String
plain_text texts null = none
plain_text texts v = some (text_of texts v)

abbrev pub is_mapping : Json → Bool
is_mapping (object fs) = true
is_mapping _ = false

-- The override that the text stands for: none where the text is blank, else the text without the
-- spaces around it
abbrev as_override : Option String → Option Json
as_override none = none
as_override (some s) = if is_empty_text (trim_text s) then none else some (string (trim_text s))

-- Whether an override is there and is not blank
abbrev not_blank : Texts → Option Json → Bool
not_blank texts none = false
not_blank texts (some v) = not (is_empty_text (trim_text (text_of texts v)))

abbrev kept : Texts → Context → String → Bool → Bool
kept texts ctx key keep = keep && not_blank texts (lookup key ctx.overrides)

-- What set_header leaves for a text: an error just where the name is blank, or there is no text and
-- the override is not kept; and otherwise the same headers of the request and the same overrides, but
-- for the named one, which is that of the text unless it is kept.
abbrev pub Sets : Texts → Context → String → Option String → Bool → Option Context → Type 0
Sets texts ctx name text keep none =
    let key = normalize_header texts name in
    (is_empty_text key ≡ true) ⊎ ((text ≡ none) × (kept texts ctx key keep ≡ false))
Sets texts ctx name text keep (some after) =
    let key = normalize_header texts name in
    (is_empty_text key ≡ false)
    × ((kept texts ctx key keep ≡ true) ⊎ (text ≢ none))
    × (after.request_headers ≡ ctx.request_headers)
    × ((j : String)
        → lookup j after.overrides ≡ (
            if str_eq j key && not (kept texts ctx key keep)
            then as_override text
            else lookup j ctx.overrides))

abbrev as_value : Option String → HeaderValue
as_value none = HeaderValue.invalid
as_value (some s) =
    if is_empty_text (trim_text s) then HeaderValue.absent else HeaderValue.present (trim_text s)

resolve_header_value-plain :
    (texts : Texts) (ctx : Context) (key : String) (value : Json)
    → is_mapping value ≡ false
    → resolve_header_value texts ctx key value ≡ as_value (plain_text texts value)
unfolding resolve_header_value
resolve_header_value-plain texts ctx key null h = refl
resolve_header_value-plain texts ctx key (string s) h = refl
resolve_header_value-plain texts ctx key (flag b) h = refl
resolve_header_value-plain texts ctx key (number n) h = refl
resolve_header_value-plain texts ctx key (array is) h = refl
resolve_header_value-plain texts ctx key (object fs) h = absurd (false≢true (sym h))

value_in-not_blank :
    (texts : Texts) (key : String) (fs : Fields)
    → is_set (value_in texts key fs) ≡ not_blank texts (lookup key fs)
unfolding value_in is_set
value_in-not_blank texts key fs = go (lookup key fs) refl
  where
    test : (b : Bool) (s : String) → is_set (if b then none else some s) ≡ not b
    test true s = refl
    test false s = refl

    go :
        (o : Option Json)
        → lookup key fs ≡ o
        → is_set (value_in texts key fs) ≡ not_blank texts (lookup key fs)
    go none e = rw (value_in, e) refl
    go (some null) e = rw (value_in, e) (test _ _)
    go (some (string s)) e = rw (value_in, e) (test _ _)
    go (some (flag b)) e = rw (value_in, e) (test _ _)
    go (some (number n)) e = rw (value_in, e) (test _ _)
    go (some (array is)) e = rw (value_in, e) (test _ _)
    go (some (object fs)) e = rw (value_in, e) (test _ _)

write_header-Sets :
    (texts : Texts) (ctx : Context) (name : String) (text : Option String) (keep : Bool)
    → is_empty_text (normalize_header texts name) ≡ false
    → kept texts ctx (normalize_header texts name) keep ≡ false
    → Sets texts ctx name text keep (write_header ctx (normalize_header texts name) (as_value text))
unfolding write_header
write_header-Sets texts ctx name none keep named e = inr (refl, e)
write_header-Sets texts ctx name (some s) keep named e =
    let key = normalize_header texts name in
    let test = is_empty_text (trim_text s) in
    elim (Bool-cases test) [
      | inl blank ↦ rw blank (
        named,
        inr (λ q. ground arith),
        refl,
        λ j.
            lookup-delete_field j key ctx.overrides
            ∙ expected j none (if_true test none (some (string (trim_text s))) blank),
      )
      | inr text ↦ rw text (
        named,
        inr (λ q. ground arith),
        refl,
        λ j.
            lookup-set_field j key (string (trim_text s)) ctx.overrides
            ∙ expected j _ (if_false test none (some (string (trim_text s))) text),
      )
    ]
  where
    plain_test :
        (x y z : Option Json) (b : Bool)
        → z ≡ x
        → (if b then x else y) ≡ (if b && true then z else y)
    plain_test x y z true q = sym q
    plain_test x y z false q = refl

    expected :
        (j : String) (x : Option Json)
        → as_override (some s) ≡ x
        → (if str_eq j (normalize_header texts name) then x else lookup j ctx.overrides) ≡ (
            if str_eq j (normalize_header texts name)
              && not (kept texts ctx (normalize_header texts name) keep)
            then as_override (some s)
            else lookup j ctx.overrides)
    expected j x q = rw e (plain_test x (lookup j ctx.overrides) (as_override (some s)) _ q)

-- Setting a header to a plain value, one that is no object, fails just where its name is blank, or
-- where the value is null and the header is not kept. Otherwise it leaves the headers of the request
-- and all other overrides as they were, and the named one is the text of the value without the spaces
-- around it, is removed where that text is empty, and stays where it is to be kept and is not blank.
pub set_header-Sets :
    (texts : Texts) (ctx : Context) (name : String) (value : Json) (keep : Bool)
    → is_mapping value ≡ false
    → Sets texts ctx name (plain_text texts value) keep (set_header texts ctx name value keep)
unfolding set_header
set_header-Sets texts ctx name value keep h =
    let key = normalize_header texts name in
    let text = plain_text texts value in
    let same : (keep && is_set (value_in texts key ctx.overrides)) ≡ kept texts ctx key keep =
      ap (λ b. keep && b) (value_in-not_blank texts key ctx.overrides) in
    if_cases (Sets texts ctx name text keep) (is_empty_text key) (λ blank. inl blank)
      λ named.
        if_cases (Sets texts ctx name text keep) (keep && is_set (value_in texts key ctx.overrides))
          (λ e.
            let stays : kept texts ctx key keep ≡ true = sym same ∙ e in
            (named, inl stays, refl, λ j. ground (arith, stays)))
          λ e.
            subst (λ v. Sets texts ctx name text keep (write_header ctx key v))
              (sym (resolve_header_value-plain texts ctx key value h))
              (write_header-Sets texts ctx name text keep named (sym same ∙ e))
