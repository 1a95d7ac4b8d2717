-- ===== src/DslEval/Parser.antt =====
-- `_Parser`: recursive descent over the tokens. A parser returns a node and the tokens that are left;
-- `self._index` is what has been dropped. What a call leaves is no structural part of its input, so that
-- each call costs a unit of fuel.
use crapssim_control.Prelude.{ℕ, zero, suc, ◌+◌, ◌*◌, Bool, true, false, not, List, [], ◌∷◌, length}
use crapssim_control.DslEval.Syntax.{
  and_op, or_op, Token, lparen, rparen, and_word, or_word, not_word, op, bool_word, number, text,
  dotted, Node, var, bool, num, str, negated, bin, cmp,
}

-- `failed` is an ExpressionError.
pub data Result {ℓ} (A : Type ℓ) : Type ℓ where
  ok : A → Result A
  failed : Result A
  out_of_fuel : Result A

abbrev pub Tokens : Type 0
Tokens = List Token

abbrev pub Parsed : Type 0
Parsed = Result (Node × Tokens)

abbrev pub bind {ℓ κ} : {A : Type ℓ} {B : Type κ} → Result A → (A → Result B) → Result B
bind (ok a) f = f a
bind failed f = failed
bind out_of_fuel f = out_of_fuel

-- `while self._accept("NOT"): negate = not negate`
unfoldable pub accept_nots : Bool → Tokens → Bool × Tokens
accept_nots negate (not_word ∷ ts) = accept_nots (not negate) ts
accept_nots negate ts = (negate, ts)

abbrev pub negate_if : Bool → Node → Node
negate_if true n = negated n
negate_if false n = n

-- `self._expect("RPAREN")`
unfoldable pub expect_rparen : Node → Tokens → Parsed
expect_rparen n (rparen ∷ ts) = ok (n, ts)
expect_rparen n ts = failed

unfoldable mutual
  pub parse_or : ℕ → Tokens → Parsed
  parse_or zero ts = out_of_fuel
  parse_or (suc f) ts = bind (parse_and f ts) λ (n, rest). more_or f n rest

  -- The loop of `_parse_or`
  pub more_or : ℕ → Node → Tokens → Parsed
  more_or zero n ts = out_of_fuel
  more_or (suc f) n (or_word ∷ ts) =
      bind (parse_and f ts) λ (m, rest). more_or f (bin or_op n m) rest
  more_or (suc f) n ts = ok (n, ts)

  pub parse_and : ℕ → Tokens → Parsed
  parse_and zero ts = out_of_fuel
  parse_and (suc f) ts = bind (parse_not f ts) λ (n, rest). more_and f n rest

  pub more_and : ℕ → Node → Tokens → Parsed
  more_and zero n ts = out_of_fuel
  more_and (suc f) n (and_word ∷ ts) =
      bind (parse_not f ts) λ (m, rest). more_and f (bin and_op n m) rest
  more_and (suc f) n ts = ok (n, ts)

  pub parse_not : ℕ → Tokens → Parsed
  parse_not zero ts = out_of_fuel
  parse_not (suc f) ts =
      let (negate, rest) = accept_nots false ts in
      bind (parse_cmp f rest) λ (n, left). ok (negate_if negate n, left)

  pub parse_cmp : ℕ → Tokens → Parsed
  parse_cmp zero ts = out_of_fuel
  parse_cmp (suc f) ts = bind (parse_term f ts) λ (n, rest). cmp_rest f n rest

  -- After the left term: an operator and a right term, or nothing.
  pub cmp_rest : ℕ → Node → Tokens → Parsed
  cmp_rest zero n ts = out_of_fuel
  cmp_rest (suc f) n (op c ∷ ts) = bind (parse_term f ts) λ (m, rest). ok (cmp c n m, rest)
  cmp_rest (suc f) n ts = ok (n, ts)

  pub parse_term : ℕ → Tokens → Parsed
  parse_term zero ts = out_of_fuel
  parse_term (suc f) (lparen ∷ ts) = bind (parse_or f ts) λ (n, rest). expect_rparen n rest
  parse_term (suc f) (bool_word b ∷ ts) = ok (bool b, ts)
  parse_term (suc f) (number n ∷ ts) = ok (num n, ts)
  parse_term (suc f) (text s ∷ ts) = ok (str s, ts)
  parse_term (suc f) (dotted x ∷ ts) = ok (var x, ts)
  parse_term (suc f) ts = failed

unfoldable pub finish : Node → Tokens → Result Node
finish n [] = ok n
finish n (t ∷ ts) = failed

-- `parse`
unfoldable pub parse : Tokens → Result Node
parse ts = bind (parse_or (8 * length ts + 8) ts) λ (n, rest). finish n rest
