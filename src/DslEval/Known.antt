-- ===== src/DslEval/Known.antt =====
-- Where the evaluation of an expression fails.
use crapssim_control.Prelude.{is_some, Bool, not, ◌∙◌, true, ◌&&◌, ◌≡◌, refl, Option, none, some}
use crapssim_control.DslEval.Syntax.{
  Node, var, bool, num, str, negated, bin, cmp, Fields, Value, bool_value,
}
use crapssim_control.DslEval.Evaluator.{
  path_get, eval_node, eval_value, both, compare_values, truthy,
}

-- Every variable of the expression is in the snapshot.
unfoldable pub known : Fields → Node → Bool
known s (var x) = is_some (path_get s x)
known s (negated n) = known s n
known s (bin c a b) = known s a && known s b
known s (cmp c a b) = known s a && known s b
known s _ = true

is_some-both :
    (v w : Option Value) (f : Value → Value → Bool) → is_some (both v w f) ≡ is_some v && is_some w
unfolding both
is_some-both none w f = refl
is_some-both (some v) none f = refl
is_some-both (some v) (some w) f = refl

is_some-elim :
    (v : Option Value) (f : Value → Value)
    → is_some (elim v [ none ↦ none | some w ↦ some (f w) ]) ≡ is_some v
is_some-elim none f = refl
is_some-elim (some v) f = refl

-- An expression has a value, as a condition and as an operand, exactly where all of its variables are in the
-- snapshot: AND and OR evaluate both operands, so that a wrong path is an error wherever it stands.
pub is_some-eval_node :
    (s : Fields) (n : Node)
    → (is_some (eval_node s n) ≡ known s n) × (is_some (eval_value s n) ≡ known s n)
unfolding eval_node known
is_some-eval_node s (var x) = (is_some-elim (path_get s x) (λ v. bool_value (truthy v)), refl)
is_some-eval_node s (bool x) = (refl, refl)
is_some-eval_node s (num x) = (refl, refl)
is_some-eval_node s (str x) = (refl, refl)
is_some-eval_node s (negated n) =
    let p =
      is_some-elim (eval_node s n) (λ v. bool_value (not (truthy v))) ∙ (is_some-eval_node s n).0 in
    (p, p)
is_some-eval_node s (bin c a b) =
    let p =
      is_some-both (eval_node s a) (eval_node s b) _
      ∙ rw ((is_some-eval_node s a).0, (is_some-eval_node s b).0) refl in
    (p, p)
is_some-eval_node s (cmp c a b) =
    let p =
      is_some-both (eval_value s a) (eval_value s b) (compare_values c)
      ∙ rw ((is_some-eval_node s a).1, (is_some-eval_node s b).1) refl in
    (p, p)
