-- ===== src/DslEval/Ends.antt =====
-- The fuel of `parse` is enough: a call needs eight units for each token that is left and a few for its place
-- in the descent, and a call that reads a node leaves fewer tokens.
use crapssim_control.Prelude.{
  ℕ, zero, suc, ◌+◌, ◌*◌, ◌≤◌, ◌<◌, ◌≢◌, Bool, false, not, [], ◌∷◌, length, arith,
}
use crapssim_control.DslEval.Syntax.{
  lparen, rparen, and_word, or_word, not_word, op, bool_word, number, text, dotted, Node,
}
use crapssim_control.DslEval.Parser.{
  ok, failed, out_of_fuel, Tokens, Parsed, bind, accept_nots, expect_rparen, parse_or, more_or,
  parse_and, more_and, parse_not, parse_cmp, cmp_rest, parse_term, finish, parse,
}

-- The parser ends, and leaves fewer than `k` tokens where it reads a node.
unfoldable Leaves : ℕ → Parsed → Type 0
Leaves k (ok (n, rest)) = length rest < k
Leaves k failed = Unit
Leaves k out_of_fuel = ⊥

bind-Leaves :
    (k l : ℕ) (p : Parsed) (next : Node × Tokens → Parsed)
    → Leaves l p
    → ((n : Node) (rest : Tokens) → length rest < l → Leaves k (next (n, rest)))
    → Leaves k (bind p next)
unfolding Leaves
bind-Leaves k l (ok (n, rest)) next h step = step n rest h
bind-Leaves k l failed next h step = tt
bind-Leaves k l out_of_fuel next h step = elim h [ ]

Leaves-mono : (k l : ℕ) (p : Parsed) → k ≤ l → Leaves k p → Leaves l p
unfolding Leaves
Leaves-mono k l (ok (n, rest)) le h = omega arith
Leaves-mono k l failed le h = tt
Leaves-mono k l out_of_fuel le h = elim h [ ]

length-accept_nots : (b : Bool) (ts : Tokens) → length (accept_nots b ts).1 ≤ length ts
unfolding accept_nots
length-accept_nots b [] = omega arith
length-accept_nots b (not_word ∷ ts) = omega (arith, length-accept_nots (not b) ts)
length-accept_nots b (t ∷ ts) = omega arith

expect_rparen-Leaves : (n : Node) (ts : Tokens) → Leaves (length ts) (expect_rparen n ts)
unfolding expect_rparen Leaves
expect_rparen-Leaves n [] = tt
expect_rparen-Leaves n (rparen ∷ ts) = omega arith
expect_rparen-Leaves n (t ∷ ts) = tt

-- All eight functions end, on enough fuel.
record HasFuel (f : ℕ) : Type 0 where
  term : (ts : Tokens) → 8 * length ts + 1 ≤ f → Leaves (length ts) (parse_term f ts)
  rest :
      (n : Node) (ts : Tokens) → 8 * length ts + 1 ≤ f → Leaves (suc (length ts)) (cmp_rest f n ts)
  compare : (ts : Tokens) → 8 * length ts + 2 ≤ f → Leaves (length ts) (parse_cmp f ts)
  nots : (ts : Tokens) → 8 * length ts + 3 ≤ f → Leaves (length ts) (parse_not f ts)
  ands :
      (n : Node) (ts : Tokens) → 8 * length ts + 1 ≤ f → Leaves (suc (length ts)) (more_and f n ts)
  conjunction : (ts : Tokens) → 8 * length ts + 4 ≤ f → Leaves (length ts) (parse_and f ts)
  ors : (n : Node) (ts : Tokens) → 8 * length ts + 1 ≤ f → Leaves (suc (length ts)) (more_or f n ts)
  disjunction : (ts : Tokens) → 8 * length ts + 5 ≤ f → Leaves (length ts) (parse_or f ts)

term_ends :
    (f : ℕ)
    → HasFuel f
    → (ts : Tokens) → 8 * length ts + 1 ≤ suc f
    → Leaves (length ts) (parse_term (suc f) ts)
unfolding parse_term Leaves
term_ends f e [] le = tt
term_ends f e (lparen ∷ ts) le =
    bind-Leaves (suc (length ts)) (length ts) (parse_or f ts) _ (e.disjunction ts (omega arith))
      (λ n rest h.
        Leaves-mono (length rest) (suc (length ts)) _ (omega arith) (expect_rparen-Leaves n rest))
term_ends f e (bool_word b ∷ ts) le = omega arith
term_ends f e (number b ∷ ts) le = omega arith
term_ends f e (text b ∷ ts) le = omega arith
term_ends f e (dotted b ∷ ts) le = omega arith
term_ends f e (t ∷ ts) le = tt

rest_ends :
    (f : ℕ)
    → HasFuel f
    → (n : Node) (ts : Tokens) → 8 * length ts + 1 ≤ suc f
    → Leaves (suc (length ts)) (cmp_rest (suc f) n ts)
unfolding cmp_rest Leaves
rest_ends f e n [] le = omega arith
rest_ends f e n (op c ∷ ts) le =
    bind-Leaves (suc (suc (length ts))) (length ts) (parse_term f ts) _ (e.term ts (omega arith))
      (λ m rest h. omega arith)
rest_ends f e n (t ∷ ts) le = omega arith

ands_end :
    (f : ℕ)
    → HasFuel f
    → (n : Node) (ts : Tokens) → 8 * length ts + 1 ≤ suc f
    → Leaves (suc (length ts)) (more_and (suc f) n ts)
unfolding more_and Leaves
ands_end f e n [] le = omega arith
ands_end f e n (and_word ∷ ts) le =
    bind-Leaves (suc (suc (length ts))) (length ts) (parse_not f ts) _ (e.nots ts (omega arith))
      (λ m rest h. Leaves-mono (suc (length rest)) _ _ (omega arith) (e.ands _ rest (omega arith)))
ands_end f e n (t ∷ ts) le = omega arith

ors_end :
    (f : ℕ)
    → HasFuel f
    → (n : Node) (ts : Tokens) → 8 * length ts + 1 ≤ suc f
    → Leaves (suc (length ts)) (more_or (suc f) n ts)
unfolding more_or Leaves
ors_end f e n [] le = omega arith
ors_end f e n (or_word ∷ ts) le =
    bind-Leaves (suc (suc (length ts))) (length ts) (parse_and f ts) _
      (e.conjunction ts (omega arith))
      (λ m rest h. Leaves-mono (suc (length rest)) _ _ (omega arith) (e.ors _ rest (omega arith)))
ors_end f e n (t ∷ ts) le = omega arith

nots_end :
    (f : ℕ)
    → HasFuel f
    → (ts : Tokens) → 8 * length ts + 3 ≤ suc f
    → Leaves (length ts) (parse_not (suc f) ts)
unfolding parse_not Leaves
nots_end f e ts le =
    bind-Leaves (length ts) (length (accept_nots false ts).1) _ _
      (e.compare _ (omega (arith, length-accept_nots false ts)))
      (λ n rest h. omega (arith, length-accept_nots false ts))

ends_suc : (f : ℕ) → HasFuel f → HasFuel (suc f)
unfolding parse_cmp parse_and parse_or Leaves
ends_suc f e = record {
  term = term_ends f e;
  rest = rest_ends f e;
  compare = λ ts le.
      bind-Leaves _ (length ts) _ _ (e.term ts (omega arith))
        (λ n left h. Leaves-mono _ _ _ (omega arith) (e.rest n left (omega arith)));
  nots = nots_end f e;
  ands = ands_end f e;
  conjunction = λ ts le.
      bind-Leaves _ (length ts) _ _ (e.nots ts (omega arith))
        (λ n left h. Leaves-mono _ _ _ (omega arith) (e.ands n left (omega arith)));
  ors = ors_end f e;
  disjunction = λ ts le.
      bind-Leaves _ (length ts) _ _ (e.conjunction ts (omega arith))
        (λ n left h. Leaves-mono _ _ _ (omega arith) (e.ors n left (omega arith)));
}

ends : (f : ℕ) → HasFuel f
unfolding parse_term cmp_rest parse_cmp parse_not more_and parse_and more_or parse_or Leaves
ends zero = record {
  term = λ ts le. omega arith;
  rest = λ n ts le. omega arith;
  compare = λ ts le. omega arith;
  nots = λ ts le. omega arith;
  ands = λ n ts le. omega arith;
  conjunction = λ ts le. omega arith;
  ors = λ n ts le. omega arith;
  disjunction = λ ts le. omega arith;
}
ends (suc f) = ends_suc f (ends f)

finish_ends : (k : ℕ) (p : Parsed) → Leaves k p → bind p (λ (n, rest). finish n rest) ≢ out_of_fuel
unfolding Leaves finish
finish_ends k (ok (n, [])) h = ground arith
finish_ends k (ok (n, t ∷ ts)) h = ground arith
finish_ends k failed h = ground arith
finish_ends k out_of_fuel h = elim h [ ]

-- The parser ends on every list of tokens: it reads a node or reports an error.
pub parse_ends : (ts : Tokens) → parse ts ≢ out_of_fuel
unfolding parse
parse_ends ts = finish_ends (length ts) _ ((ends (8 * length ts + 8)).disjunction ts (omega arith))
