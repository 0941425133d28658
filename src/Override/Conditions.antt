-- ===== src/Override/Conditions.antt =====
-- The conditions of an override, relay/common/override.go: checkConditions, checkSingleCondition,
-- compareGjsonValues, compareEqual and compareNumeric. The lookup of a path by gjson, the numbers
-- and the printing of values are parameters.
use text.Mathlib.Text.{starts_with}
use east_api.Prelude.{
  String, Bool, true, false, not, ◌&&◌, ◌||◌, Option, none, some, List, [], ◌∷◌, str_eq,
  if◌then◌else◌,
}
use east_api.Channel.{contains}
use east_api.Override.{Json, null, flag, number, string, array, object}

-- `ConditionOperation`
pub record Condition : Type 0 where
  pub path : String
  pub mode : String
  pub value : Json
  pub invert : Bool
  pub pass_missing_key : Bool

-- `find` is what gjson finds at a path of a value, `process_negative_index` the path with the negative
-- indexes of the value resolved (processNegativeIndex); `same` and `less` compare numbers; `print` is
-- gjson's text of a value.
pub record Reader : Type 0 where
  pub find : Json → String → Option Json
  pub process_negative_index : Json → String → String
  pub same : String → String → Bool
  pub less : String → String → Bool
  pub print : Json → String
  pub lower : String → String
  pub upper : String → String

-- `strings.HasSuffix`
has_suffix : String → String → Bool
has_suffix String.[] t = str_eq "" t
has_suffix (String.◌∷◌ c s) t = str_eq (String.◌∷◌ c s) t || has_suffix s t

same_flag : Bool → Bool → Bool
same_flag true b = b
same_flag false b = not b

module _ (reader : Reader) where
  open reader use {find, process_negative_index, same, less, print, lower, upper}

  -- `compareEqual`; `none` is the error on different types.
  compare_equal : Json → Json → Option Bool
  unfolding same_flag
  compare_equal null null = some true
  compare_equal null _ = some false
  compare_equal _ null = some false
  compare_equal (flag a) (flag b) = some (same_flag a b)
  compare_equal (number a) (number b) = some (same a b)
  compare_equal (string a) (string b) = some (str_eq a b)
  compare_equal (array a) (array b) = some (str_eq (print (array a)) (print (array b)))
  compare_equal (array a) (object b) = some (str_eq (print (array a)) (print (object b)))
  compare_equal (object a) (array b) = some (str_eq (print (object a)) (print (array b)))
  compare_equal (object a) (object b) = some (str_eq (print (object a)) (print (object b)))
  compare_equal _ _ = none

  -- `compareNumeric`, for each operator
  compare_numeric : (String → String → Bool) → Json → Json → Option Bool
  compare_numeric test (number a) (number b) = some (test a b)
  compare_numeric test _ _ = none

  -- `compareGjsonValues`
  compare_values : Json → Json → String → Option Bool
  unfolding compare_equal compare_numeric has_suffix contains
  compare_values v target mode =
      if str_eq mode "full"
      then compare_equal v target
      else if str_eq mode "prefix"
      then some (starts_with (print v) (print target))
      else if str_eq mode "suffix"
      then some (has_suffix (print v) (print target))
      else if str_eq mode "contains"
      then some (contains (print v) (print target))
      else if str_eq mode "gt"
      then compare_numeric (λ a b. less b a) v target
      else if str_eq mode "gte"
      then compare_numeric (λ a b. less b a || same a b) v target
      else if str_eq mode "lt"
      then compare_numeric less v target
      else if str_eq mode "lte"
      then compare_numeric (λ a b. less a b || same a b) v target
      else none

  -- The value at the path of the request, its negative indexes resolved, or else at the path as it is
  -- written, of the context
  found : Json → Option Json → String → Option Json
  found body context path = elim (find body (process_negative_index body path)) [
    | some v ↦ some v
    | none ↦ elim context [ none ↦ none | some ctx ↦ find ctx path ]
  ]

  inverted : Bool → Option Bool → Option Bool
  inverted invert none = none
  inverted invert (some result) = some (if invert then not result else result)

  -- `checkSingleCondition`
  unfoldable pub check_single_condition : Json → Option Json → Condition → Option Bool
  unfolding found inverted compare_values
  check_single_condition body context c = elim (found body context c.path) [
    | none ↦ some c.pass_missing_key
    | some v ↦ inverted c.invert (compare_values v c.value (lower c.mode))
  ]

  abbrev pub both_some : (Bool → Bool → Bool) → Option Bool → Option Bool → Option Bool
  both_some op (some a) (some b) = some (op a b)
  both_some op _ _ = none

  -- The results of all conditions, joined
  unfoldable pub join_results :
      (Bool → Bool → Bool) → Bool → Json → Option Json → List Condition → Option Bool
  unfolding check_single_condition
  join_results op unit body context [] = some unit
  join_results op unit body context (c ∷ cs) =
      let rest = join_results op unit body context cs in
      both_some op (check_single_condition body context c) rest

  -- `checkConditions`; `none` is the error of any condition.
  unfoldable pub check_conditions : Json → Option Json → List Condition → String → Option Bool
  unfolding join_results
  check_conditions body context [] logic = some true
  check_conditions body context (c ∷ cs) logic =
      if str_eq (upper logic) "AND"
      then join_results (λ a b. a && b) true body context (c ∷ cs)
      else join_results (λ a b. a || b) false body context (c ∷ cs)
