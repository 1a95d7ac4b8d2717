-- ===== src/DslEval/Evaluator.antt =====
-- `_path_get`, `_eval_node` and `_eval_value`. `none` is an ExpressionError.
use Prim.Native.Char.{Char, code}
use Prim.Native.String.{compare as str_compare}
use Prim.Native.Nat.{Ordering}
use crapssim_control.Prelude.{
  ℕ, suc, ◌+◌, ◌-◌, ◌*◌, ◌^◌, String, Bool, true, false, not, ◌&&◌, ◌||◌, Option, none, some, List,
  [], ◌∷◌, if◌then◌else◌, leb, ◌==◌, str_eq, default_to,
}
use crapssim_control.Prelude.Int.{ℤ, pos, ◌*ℤ◌, ltb_ℤ, eqb_ℤ}
use crapssim_control.DslEval.Syntax.{
  Number, Comparison, lt, gt, le, ge, equal, unequal, Connective, and_op, or_op, Node, var, bool,
  num, str, negated, bin, cmp, Key, name, index, Value, none_value, bool_value, num_value,
  str_value, dict_value, Fields, end, field,
}

-- `dotted.split(".")`
prepend : Char → List String → List String
prepend c [] = (String.◌∷◌ c String.[]) ∷ []
prepend c (s ∷ ss) = String.◌∷◌ c s ∷ ss

unfoldable pub split_dots : String → List String
unfolding prepend
split_dots String.[] = String.[] ∷ []
split_dots (String.◌∷◌ c s) =
    let rest = split_dots s in if code c == 46 then String.[] ∷ rest else prepend c rest

-- `segment.isdigit()` with `int(segment)`: the number, for a text of digits that is not empty.
digits_from : ℕ → String → Option ℕ
digits_from n String.[] = some n
digits_from n (String.◌∷◌ c s) =
    let rest = digits_from (10 * n + (code c - 48)) s in
    if leb 48 (code c) && leb (code c) 57 then rest else none

unfoldable pub read_index : String → Option ℕ
unfolding digits_from
read_index String.[] = none
read_index (String.◌∷◌ c s) = digits_from 0 (String.◌∷◌ c s)

abbrev pub eq_key : Key → Key → Bool
eq_key (name s) (name t) = str_eq s t
eq_key (index n) (index m) = n == m
eq_key _ _ = false

unfoldable pub find : Key → Fields → Option Value
find k end = none
find k (field j v fs) = if eq_key j k then some v else find k fs

-- One segment of a path: a name, or else a number that is a key.
unfoldable pub find_segment : String → Fields → Option Value
find_segment s fs = elim (find (name s) fs) [
  | some v ↦ some v
  | none ↦ elim (read_index s) [ none ↦ none | some n ↦ find (index n) fs ]
]

unfoldable pub walk : List String → Value → Option Value
walk [] v = some v
walk (s ∷ ss) (dict_value fs) = elim (find_segment s fs) [ none ↦ none | some v ↦ walk ss v ]
walk (s ∷ ss) _ = none

-- `_path_get`
unfoldable pub path_get : Fields → String → Option Value
path_get snapshot path = walk (split_dots path) (dict_value snapshot)

-- `bool(value)`
unfoldable pub truthy : Value → Bool
truthy none_value = false
truthy (bool_value b) = b
truthy (num_value n) = not (eqb_ℤ n.num (pos 0))
truthy (str_value s) = not (str_eq s "")
truthy (dict_value end) = false
truthy (dict_value (field k v fs)) = true

abbrev of_bool : Bool → Number
of_bool b = record { num = if b then pos 1 else pos 0; places = 0 }

-- A number, or a Boolean read as one.
unfoldable pub as_number : Value → Option Number
as_number (bool_value b) = some (of_bool b)
as_number (num_value n) = some n
as_number _ = none

-- The numbers on a common denominator.
abbrev pub scaled : Number → Number → ℤ
scaled a b = a.num *ℤ pos (10 ^ b.places)

-- `left < right`, and the like; `none` is the TypeError.
unfoldable pub less : Value → Value → Option Bool
less (str_value s) (str_value t) = some (elim (str_compare s t) [ Ordering.lt ↦ true | _ ↦ false ])
less v w = elim (as_number v) [
  | none ↦ none
  | some a ↦ elim (as_number w) [ none ↦ none | some b ↦ some (ltb_ℤ (scaled a b) (scaled b a)) ]
]

-- `==`, which is false between values of different types.
abbrev eq_number : Number → Value → Bool
eq_number a w = elim (as_number w) [ none ↦ false | some b ↦ eqb_ℤ (scaled a b) (scaled b a) ]

abbrev eq_text : String → Value → Bool
eq_text s (str_value t) = str_eq s t
eq_text s _ = false

abbrev eq_none : Value → Bool
eq_none none_value = true
eq_none _ = false

abbrev size : Fields → ℕ
size end = 0
size (field k v fs) = suc (size fs)

abbrev fields_of : Value → Option Fields
fields_of (dict_value fs) = some fs
fields_of _ = none

unfoldable mutual
  pub eq_value : Value → Value → Bool
  eq_value none_value w = eq_none w
  eq_value (bool_value b) w = eq_number (of_bool b) w
  eq_value (num_value n) w = eq_number n w
  eq_value (str_value s) w = eq_text s w
  eq_value (dict_value fs) w = elim (fields_of w) [
    | none ↦ false
    | some gs ↦ size fs == size gs && eq_fields fs gs
  ]

  -- The fields of the first dict are in the second.
  pub eq_fields : Fields → Fields → Bool
  eq_fields end gs = true
  eq_fields (field k v fs) gs =
      elim (find k gs) [ none ↦ false | some w ↦ eq_value v w ] && eq_fields fs gs

-- A comparison, with the TypeError read as False.
unfoldable pub compare_values : Comparison → Value → Value → Bool
compare_values lt v w = default_to false (less v w)
compare_values gt v w = default_to false (less w v)
compare_values le v w = elim (less w v) [ none ↦ false | some b ↦ not b ]
compare_values ge v w = elim (less v w) [ none ↦ false | some b ↦ not b ]
compare_values equal v w = eq_value v w
compare_values unequal v w = not (eq_value v w)

abbrev connect : Connective → Bool → Bool → Bool
connect and_op a b = a && b
connect or_op a b = a || b

-- Both operands are evaluated, whatever the first one is.
unfoldable pub both : Option Value → Option Value → (Value → Value → Bool) → Option Value
both none r f = none
both (some v) none f = none
both (some v) (some w) f = some (bool_value (f v w))

unfoldable mutual
  -- `_eval_node`
  pub eval_node : Fields → Node → Option Value
  eval_node s (bool b) = some (bool_value b)
  eval_node s (num n) = some (num_value n)
  eval_node s (str t) = some (str_value t)
  eval_node s (var x) = elim (path_get s x) [ none ↦ none | some v ↦ some (bool_value (truthy v)) ]
  eval_node s (negated n) = elim (eval_node s n) [
    | none ↦ none
    | some v ↦ some (bool_value (not (truthy v)))
  ]
  eval_node s (bin c a b) =
      both (eval_node s a) (eval_node s b) (λ v w. connect c (truthy v) (truthy w))
  eval_node s (cmp c a b) = both (eval_value s a) (eval_value s b) (compare_values c)

  -- `_eval_value`: a variable is its value and not the truth of it.
  pub eval_value : Fields → Node → Option Value
  eval_value s (var x) = path_get s x
  eval_value s (bool b) = some (bool_value b)
  eval_value s (num n) = some (num_value n)
  eval_value s (str t) = some (str_value t)
  eval_value s (negated n) = elim (eval_node s n) [
    | none ↦ none
    | some v ↦ some (bool_value (not (truthy v)))
  ]
  eval_value s (bin c a b) =
      both (eval_node s a) (eval_node s b) (λ v w. connect c (truthy v) (truthy w))
  eval_value s (cmp c a b) = both (eval_value s a) (eval_value s b) (compare_values c)

-- `evaluate_condition`, from the AST
unfoldable pub evaluate_ast : Node → Fields → Option Bool
evaluate_ast n s = elim (eval_node s n) [ none ↦ none | some v ↦ some (truthy v) ]
