-- ===== src/DslEval/Printer.antt =====
-- A printer of expressions, with which the parser is compared.
use crapssim_control.Prelude.{ℕ, ◌+◌, ◌≡◌, [], ◌∷◌, length, arith}
use crapssim_control.DslEval.Syntax.{
  Connective, and_op, or_op, Token, lparen, rparen, and_word, or_word, not_word, op, bool_word,
  number, text, dotted, Node, var, bool, num, str, negated, bin, cmp,
}
use crapssim_control.DslEval.Parser.{Tokens}

-- What may be a term stands as it is, and what may not is put in parentheses.
unfoldable pub enclose : Node → (Tokens → Tokens) → Tokens → Tokens
enclose (negated n) inner rest = lparen ∷ inner (rparen ∷ rest)
enclose (bin c a b) inner rest = lparen ∷ inner (rparen ∷ rest)
enclose (cmp c a b) inner rest = lparen ∷ inner (rparen ∷ rest)
enclose _ inner rest = inner rest

abbrev pub word : Connective → Token
word and_op = and_word
word or_op = or_word

-- The tokens of an expression, in front of the others.
unfoldable pub print_onto : Node → Tokens → Tokens
print_onto (var x) rest = dotted x ∷ rest
print_onto (bool b) rest = bool_word b ∷ rest
print_onto (num n) rest = number n ∷ rest
print_onto (str s) rest = text s ∷ rest
print_onto (negated n) rest = not_word ∷ enclose n (print_onto n) rest
print_onto (bin c a b) rest = enclose a (print_onto a) (word c ∷ enclose b (print_onto b) rest)
print_onto (cmp c a b) rest = enclose a (print_onto a) (op c ∷ enclose b (print_onto b) rest)

abbrev pub print : Node → Tokens
print n = print_onto n []

abbrev pub term_onto : Node → Tokens → Tokens
term_onto n rest = enclose n (print_onto n) rest

-- How many tokens an expression has, alone and as a term.
unfoldable pub term_tokens : Node → ℕ → ℕ
term_tokens (negated n) k = k + 2
term_tokens (bin c a b) k = k + 2
term_tokens (cmp c a b) k = k + 2
term_tokens _ k = k

unfoldable pub tokens : Node → ℕ
tokens (negated n) = 1 + term_tokens n (tokens n)
tokens (bin c a b) = term_tokens a (tokens a) + 1 + term_tokens b (tokens b)
tokens (cmp c a b) = term_tokens a (tokens a) + 1 + term_tokens b (tokens b)
tokens _ = 1

pub length-enclose :
    (n : Node) (inner : Tokens → Tokens) (k : ℕ)
    → ((rest : Tokens) → length (inner rest) ≡ k + length rest)
    → (rest : Tokens) → length (enclose n inner rest) ≡ term_tokens n k + length rest
unfolding enclose term_tokens
length-enclose (var x) inner k h rest = h rest
length-enclose (bool x) inner k h rest = h rest
length-enclose (num x) inner k h rest = h rest
length-enclose (str x) inner k h rest = h rest
length-enclose (negated n) inner k h rest = omega (arith, h (rparen ∷ rest))
length-enclose (bin c a b) inner k h rest = omega (arith, h (rparen ∷ rest))
length-enclose (cmp c a b) inner k h rest = omega (arith, h (rparen ∷ rest))

pub length-print_onto :
    (n : Node) (rest : Tokens) → length (print_onto n rest) ≡ tokens n + length rest
unfolding print_onto tokens
length-print_onto (var x) rest = omega arith
length-print_onto (bool x) rest = omega arith
length-print_onto (num x) rest = omega arith
length-print_onto (str x) rest = omega arith
length-print_onto (negated n) rest =
    omega (arith, length-enclose n (print_onto n) (tokens n) (length-print_onto n) rest)
length-print_onto (bin c a b) rest = omega (
  arith,
  length-enclose a (print_onto a) (tokens a) (length-print_onto a) (word c ∷ term_onto b rest),
  length-enclose b (print_onto b) (tokens b) (length-print_onto b) rest,
)
length-print_onto (cmp c a b) rest = omega (
  arith,
  length-enclose a (print_onto a) (tokens a) (length-print_onto a) (op c ∷ term_onto b rest),
  length-enclose b (print_onto b) (tokens b) (length-print_onto b) rest,
)
