-- ===== src/DslEval/RoundTrip.antt =====
-- The parser reads back what the printer prints.
use crapssim_control.Prelude.{ℕ, suc, ◌+◌, ◌*◌, ◌≤◌, ◌≡◌, refl, [], ◌∷◌, length, arith}
use crapssim_control.DslEval.Syntax.{
  Comparison, and_op, or_op, Token, lparen, rparen, and_word, or_word, not_word, op, bool_word,
  number, text, dotted, Node, var, bool, num, str, negated, bin, cmp,
}
use crapssim_control.DslEval.Parser.{
  ok, Tokens, accept_nots, expect_rparen, parse_or, more_or, parse_and, more_and, parse_not,
  cmp_rest, parse_term, finish, parse,
}
use crapssim_control.DslEval.Printer.{
  enclose, print_onto, print, term_onto, term_tokens, tokens, length-print_onto,
}
use crapssim_control.DslEval.Reads.{
  Yields, IsTerm, term_onto-IsTerm, reads_suc, nots_read, nots_negate, cmp_reads, and_reads,
  or_reads, cmp_compares, and_joins, or_joins, IsClosed, cmp_stops, and_stops, or_stops,
  cmp_stops_at_and, cmp_stops_at_or, and_stops_at_or, weaken, closes, atom_reads,
}

-- A term is read whatever is next, and an expression where it ends or is closed.
record IsRead (n : Node) : Type 0 where
  term :
      (rest : Tokens) → Yields parse_term (8 * term_tokens n (tokens n)) (term_onto n rest) n rest
  expression :
      (rest : Tokens)
      → IsClosed rest
      → Yields parse_or (8 * tokens n + 5) (print_onto n rest) n rest

-- A part of a conjunction
part_reads :
    (n : Node)
    → IsRead n
    → (rest : Tokens) → Yields (λ f. cmp_rest f n) (suc (8 * term_tokens n (tokens n))) rest n rest
    → Yields parse_not (8 * term_tokens n (tokens n) + 3) (term_onto n rest) n rest
part_reads n r rest stop =
    let t = 8 * term_tokens n (tokens n) in
    weaken parse_not (suc (suc (suc t))) (t + 3) (term_onto n rest) n rest
      (nots_read (suc (suc t)) (term_onto n rest) n rest (term_onto-IsTerm n rest) (
        cmp_reads (suc t) (term_onto n rest) n rest
          (weaken parse_term t (suc t) (term_onto n rest) n rest (r.term rest) (omega arith)) stop))
      (omega arith)

-- A part of a disjunction
conjunct_reads :
    (k : ℕ) (n : Node)
    → IsRead n
    → (rest : Tokens) → Yields (λ f. cmp_rest f n) (suc (8 * term_tokens n (tokens n))) rest n rest
    → Yields (λ f. more_and f n) 1 rest n rest
    → 8 * term_tokens n (tokens n) + 4 ≤ k
    → Yields parse_and k (term_onto n rest) n rest
conjunct_reads k n r rest stop end le =
    let t = 8 * term_tokens n (tokens n) in
    weaken parse_and (suc (t + 3)) k (term_onto n rest) n rest
      (and_reads (t + 3) (term_onto n rest) n rest (part_reads n r rest stop)
        (weaken (λ f. more_and f n) 1 (t + 3) rest n rest end (omega arith)))
      (omega arith)

parens_read :
    (n : Node)
    → ((rest : Tokens)
        → IsClosed rest
        → Yields parse_or (8 * tokens n + 5) (print_onto n rest) n rest)
    → (rest : Tokens)
    → Yields parse_term (8 * (tokens n + 2)) (lparen ∷ print_onto n (rparen ∷ rest)) n rest
unfolding parse_term expect_rparen IsClosed
parens_read n h rest =
    weaken parse_term (suc (8 * tokens n + 5)) (8 * (tokens n + 2)) _ n rest
      (reads_suc parse_term (8 * tokens n + 5) (lparen ∷ print_onto n (rparen ∷ rest)) n rest
        (λ f le. rw (h (rparen ∷ rest) tt f le)))
      (omega arith)

module _ (n : Node) (r : IsRead n) (rest : Tokens) (c : IsClosed rest) where
  negated_reads :
      Yields parse_or (8 * tokens (negated n) + 5) (print_onto (negated n) rest) (negated n) rest
  unfolding print_onto tokens
  negated_reads =
      let k = 8 * term_tokens n (tokens n) in
      let ts = term_onto n rest in
      weaken parse_or (suc (suc (suc (suc (suc k))))) _ (not_word ∷ ts) (negated n) rest
        (closes (suc (suc k)) (not_word ∷ ts) (negated n) rest c (
          nots_negate (suc (suc k)) ts n rest (term_onto-IsTerm n rest) (
            cmp_reads (suc k) ts n rest
              (weaken parse_term k (suc k) ts n rest (r.term rest) (omega arith))
              (cmp_stops k n rest c))))
        (omega arith)

module _ (a b : Node) (ra : IsRead a) (rb : IsRead b) (rest : Tokens) (c : IsClosed rest) where
  and_reads_both :
      Yields parse_or
        (8 * tokens (bin and_op a b) + 5)
        (print_onto (bin and_op a b) rest)
        (bin and_op a b)
        rest
  unfolding print_onto tokens
  and_reads_both =
      let ta = 8 * term_tokens a (tokens a) in
      let tb = 8 * term_tokens b (tokens b) in
      let k = ta + tb + 3 in
      let us = term_onto b rest in
      let ts = term_onto a (and_word ∷ us) in
      weaken parse_or (suc (suc (suc k))) _ ts (bin and_op a b) rest
        (or_reads (suc (suc k)) ts (bin and_op a b) rest
          (and_joins k ts us a b rest
            (weaken parse_not (ta + 3) k ts a (and_word ∷ us)
              (part_reads a ra (and_word ∷ us) (cmp_stops_at_and ta a us)) (omega arith))
            (weaken parse_not (tb + 3) k us b rest (part_reads b rb rest (cmp_stops tb b rest c))
              (omega arith))
            (weaken (λ f. more_and f (bin and_op a b)) 1 k rest _ rest (and_stops 0 _ rest c)
              (omega arith)))
          (or_stops (suc k) (bin and_op a b) rest c))
        (omega arith)

  or_reads_both :
      Yields parse_or
        (8 * tokens (bin or_op a b) + 5)
        (print_onto (bin or_op a b) rest)
        (bin or_op a b)
        rest
  unfolding print_onto tokens
  or_reads_both =
      let ta = 8 * term_tokens a (tokens a) in
      let tb = 8 * term_tokens b (tokens b) in
      let k = ta + tb + 4 in
      let us = term_onto b rest in
      let ts = term_onto a (or_word ∷ us) in
      weaken parse_or (suc (suc k)) _ ts (bin or_op a b) rest
        (or_joins k ts us a b rest
          (conjunct_reads k a ra (or_word ∷ us) (cmp_stops_at_or ta a us) (and_stops_at_or 0 a us)
            (omega arith))
          (conjunct_reads k b rb rest (cmp_stops tb b rest c) (and_stops 0 b rest c) (omega arith))
          (weaken (λ f. more_or f (bin or_op a b)) 1 k rest _ rest (or_stops 0 _ rest c)
            (omega arith)))
        (omega arith)

  compares_both :
      (o : Comparison)
      → Yields parse_or (8 * tokens (cmp o a b) + 5) (print_onto (cmp o a b) rest) (cmp o a b) rest
  unfolding print_onto tokens
  compares_both o =
      let ta = 8 * term_tokens a (tokens a) in
      let tb = 8 * term_tokens b (tokens b) in
      let k = ta + tb in
      let us = term_onto b rest in
      let ts = term_onto a (op o ∷ us) in
      weaken parse_or (suc (suc (suc (suc (suc k))))) _ ts (cmp o a b) rest
        (closes (suc (suc k)) ts (cmp o a b) rest c (
          nots_read (suc (suc k)) ts (cmp o a b) rest (term_onto-IsTerm a (op o ∷ us)) (
            cmp_compares k ts us a b rest o
              (weaken parse_term ta k ts a (op o ∷ us) (ra.term (op o ∷ us)) (omega arith))
              (weaken parse_term tb k us b rest (rb.term rest) (omega arith)))))
        (omega arith)

compound :
    (n : Node)
    → ((rest : Tokens)
        → IsClosed rest
        → Yields parse_or (8 * tokens n + 5) (print_onto n rest) n rest)
    → term_tokens n (tokens n) ≡ tokens n + 2
    → ((rest : Tokens) → term_onto n rest ≡ lparen ∷ print_onto n (rparen ∷ rest))
    → IsRead n
compound n h size shape = record {
  term = λ rest. rw (size, shape rest) (parens_read n h rest);
  expression = h;
}

atom :
    (t : Token) (n : Node)
    → ((rest : Tokens) → print_onto n rest ≡ t ∷ rest)
    → ((rest : Tokens) → term_onto n rest ≡ t ∷ rest)
    → tokens n ≡ 1
    → term_tokens n (tokens n) ≡ 1
    → ((rest : Tokens) → IsTerm (t ∷ rest))
    → ((rest : Tokens) → Yields parse_term 1 (t ∷ rest) n rest)
    → IsRead n
atom t n shape term_shape one one_term it reads = record {
  term = λ rest.
      rw (one_term, term_shape rest)
        (weaken parse_term 1 8 (t ∷ rest) n rest (reads rest) (omega arith));
  expression = λ rest c. rw (one, shape rest) (atom_reads t n rest (it rest) (reads rest) c);
}

is_read : (n : Node) → IsRead n
unfolding print_onto tokens term_tokens enclose parse_term accept_nots
is_read (var x) =
    atom (dotted x) (var x) (λ r. refl) (λ r. refl) refl refl (λ r b. refl)
      (λ r. reads_suc parse_term 0 (dotted x ∷ r) (var x) r (λ f le. refl))
is_read (bool x) =
    atom (bool_word x) (bool x) (λ r. refl) (λ r. refl) refl refl (λ r b. refl)
      (λ r. reads_suc parse_term 0 (bool_word x ∷ r) (bool x) r (λ f le. refl))
is_read (num x) =
    atom (number x) (num x) (λ r. refl) (λ r. refl) refl refl (λ r b. refl)
      (λ r. reads_suc parse_term 0 (number x ∷ r) (num x) r (λ f le. refl))
is_read (str x) =
    atom (text x) (str x) (λ r. refl) (λ r. refl) refl refl (λ r b. refl)
      (λ r. reads_suc parse_term 0 (text x ∷ r) (str x) r (λ f le. refl))
is_read (negated n) = compound (negated n) (negated_reads n (is_read n)) refl (λ rest. refl)
is_read (bin and_op a b) =
    compound (bin and_op a b) (and_reads_both a b (is_read a) (is_read b)) refl (λ rest. refl)
is_read (bin or_op a b) =
    compound (bin or_op a b) (or_reads_both a b (is_read a) (is_read b)) refl (λ rest. refl)
is_read (cmp o a b) =
    compound (cmp o a b) (λ rest c. compares_both a b (is_read a) (is_read b) rest c o) refl
      (λ rest. refl)

-- The parser reads back every expression from the tokens it is printed with.
pub parse-print : (n : Node) → parse (print n) ≡ ok n
unfolding parse finish IsClosed
parse-print n =
    rw
      ((is_read n).expression [] tt (8 * length (print n) + 8)
        (omega (arith, length-print_onto n [])))
      refl
