-- ===== src/DslEval/Reads.antt =====
-- What each function of the parser reads, from what the function below it reads.
use crapssim_control.Prelude.{ℕ, zero, suc, ◌≤◌, ◌≡◌, refl, Bool, true, false, [], ◌∷◌, arith}
use crapssim_control.DslEval.Syntax.{
  Comparison, and_op, or_op, Token, rparen, and_word, or_word, not_word, op, Node, var, bool, num,
  str, negated, bin, cmp,
}
use crapssim_control.DslEval.Parser.{
  ok, Tokens, Parsed, accept_nots, parse_or, more_or, parse_and, more_and, parse_not, parse_cmp,
  cmp_rest, parse_term,
}
use crapssim_control.DslEval.Printer.{enclose, print_onto, term_onto}

-- The parser `p` reads `n` from the front of `ts` and leaves `rest`, on every fuel from `k` on.
abbrev pub Yields : (ℕ → Tokens → Parsed) → ℕ → Tokens → Node → Tokens → Type 0
Yields p k ts n rest = (f : ℕ) → k ≤ f → p f ts ≡ ok (n, rest)

abbrev pub IsTerm : Tokens → Type 0
IsTerm ts = (b : Bool) → accept_nots b ts ≡ (b, ts)

pub term_onto-IsTerm : (n : Node) (rest : Tokens) → IsTerm (term_onto n rest)
unfolding enclose print_onto accept_nots
term_onto-IsTerm (var x) rest b = refl
term_onto-IsTerm (bool x) rest b = refl
term_onto-IsTerm (num x) rest b = refl
term_onto-IsTerm (str x) rest b = refl
term_onto-IsTerm (negated n) rest b = refl
term_onto-IsTerm (bin c x y) rest b = refl
term_onto-IsTerm (cmp c x y) rest b = refl

pub reads_suc :
    (p : ℕ → Tokens → Parsed) (k : ℕ) (ts : Tokens) (n : Node) (rest : Tokens)
    → ((f : ℕ) → k ≤ f → p (suc f) ts ≡ ok (n, rest))
    → Yields p (suc k) ts n rest
reads_suc p k ts n rest h zero le = ground arith
reads_suc p k ts n rest h (suc f) le = h f (omega arith)

module _ (k : ℕ) (ts : Tokens) (n : Node) (rest : Tokens) where
  pub nots_read : IsTerm ts → Yields parse_cmp k ts n rest → Yields parse_not (suc k) ts n rest
  unfolding parse_not
  nots_read t h = reads_suc parse_not k ts n rest (λ f le. rw (t false, h f (omega arith)))

  pub nots_negate :
      IsTerm ts
      → Yields parse_cmp k ts n rest
      → Yields parse_not (suc k) (not_word ∷ ts) (negated n) rest
  unfolding parse_not accept_nots
  nots_negate t h =
      reads_suc parse_not k (not_word ∷ ts) (negated n) rest
        (λ f le. rw (t true, h f (omega arith)))

  -- Where the loop after a part stops at once, the whole is the part.
  pub cmp_reads :
      Yields parse_term k ts n rest
      → Yields (λ f. cmp_rest f n) k rest n rest
      → Yields parse_cmp (suc k) ts n rest
  unfolding parse_cmp
  cmp_reads h stop =
      reads_suc parse_cmp k ts n rest (λ f le. rw (h f (omega arith), stop f (omega arith)))

  pub and_reads :
      Yields parse_not k ts n rest
      → Yields (λ f. more_and f n) k rest n rest
      → Yields parse_and (suc k) ts n rest
  unfolding parse_and
  and_reads h stop =
      reads_suc parse_and k ts n rest (λ f le. rw (h f (omega arith), stop f (omega arith)))

  pub or_reads :
      Yields parse_and k ts n rest
      → Yields (λ f. more_or f n) k rest n rest
      → Yields parse_or (suc k) ts n rest
  unfolding parse_or
  or_reads h stop =
      reads_suc parse_or k ts n rest (λ f le. rw (h f (omega arith), stop f (omega arith)))

module _ (k : ℕ) (ts us : Tokens) (a b : Node) (rest : Tokens) where
  pub cmp_compares :
      (c : Comparison)
      → Yields parse_term k ts a (op c ∷ us)
      → Yields parse_term k us b rest
      → Yields parse_cmp (suc (suc k)) ts (cmp c a b) rest
  unfolding parse_cmp cmp_rest
  cmp_compares c h g zero le = ground arith
  cmp_compares c h g (suc zero) le = ground arith
  cmp_compares c h g (suc (suc f)) le = rw (h (suc f) (omega arith), g f (omega arith))

  pub and_joins :
      Yields parse_not k ts a (and_word ∷ us)
      → Yields parse_not k us b rest
      → Yields (λ f. more_and f (bin and_op a b)) k rest (bin and_op a b) rest
      → Yields parse_and (suc (suc k)) ts (bin and_op a b) rest
  unfolding parse_and more_and
  and_joins h g stop zero le = ground arith
  and_joins h g stop (suc zero) le = ground arith
  and_joins h g stop (suc (suc f)) le =
      rw (h (suc f) (omega arith), g f (omega arith), stop f (omega arith))

  pub or_joins :
      Yields parse_and k ts a (or_word ∷ us)
      → Yields parse_and k us b rest
      → Yields (λ f. more_or f (bin or_op a b)) k rest (bin or_op a b) rest
      → Yields parse_or (suc (suc k)) ts (bin or_op a b) rest
  unfolding parse_or more_or
  or_joins h g stop zero le = ground arith
  or_joins h g stop (suc zero) le = ground arith
  or_joins h g stop (suc (suc f)) le =
      rw (h (suc f) (omega arith), g f (omega arith), stop f (omega arith))

-- No operator and no word is next.
unfoldable pub IsClosed : Tokens → Type 0
IsClosed [] = Unit
IsClosed (rparen ∷ ts) = Unit
IsClosed (t ∷ ts) = ⊥

pub cmp_stops :
    (k : ℕ) (n : Node) (ts : Tokens) → IsClosed ts → Yields (λ f. cmp_rest f n) (suc k) ts n ts
unfolding IsClosed cmp_rest
cmp_stops k n [] c = reads_suc (λ f. cmp_rest f n) k [] n [] (λ f le. refl)
cmp_stops k n (rparen ∷ ts) c =
    reads_suc (λ f. cmp_rest f n) k (rparen ∷ ts) n (rparen ∷ ts) (λ f le. refl)
cmp_stops k n (t ∷ ts) c = elim c [ ]

pub and_stops :
    (k : ℕ) (n : Node) (ts : Tokens) → IsClosed ts → Yields (λ f. more_and f n) (suc k) ts n ts
unfolding IsClosed more_and
and_stops k n [] c = reads_suc (λ f. more_and f n) k [] n [] (λ f le. refl)
and_stops k n (rparen ∷ ts) c =
    reads_suc (λ f. more_and f n) k (rparen ∷ ts) n (rparen ∷ ts) (λ f le. refl)
and_stops k n (t ∷ ts) c = elim c [ ]

pub or_stops :
    (k : ℕ) (n : Node) (ts : Tokens) → IsClosed ts → Yields (λ f. more_or f n) (suc k) ts n ts
unfolding IsClosed more_or
or_stops k n [] c = reads_suc (λ f. more_or f n) k [] n [] (λ f le. refl)
or_stops k n (rparen ∷ ts) c =
    reads_suc (λ f. more_or f n) k (rparen ∷ ts) n (rparen ∷ ts) (λ f le. refl)
or_stops k n (t ∷ ts) c = elim c [ ]

module _ (k : ℕ) (n : Node) (ts : Tokens) where
  pub cmp_stops_at_and : Yields (λ f. cmp_rest f n) (suc k) (and_word ∷ ts) n (and_word ∷ ts)
  unfolding cmp_rest
  cmp_stops_at_and =
      reads_suc (λ f. cmp_rest f n) k (and_word ∷ ts) n (and_word ∷ ts) (λ f le. refl)

  pub cmp_stops_at_or : Yields (λ f. cmp_rest f n) (suc k) (or_word ∷ ts) n (or_word ∷ ts)
  unfolding cmp_rest
  cmp_stops_at_or = reads_suc (λ f. cmp_rest f n) k (or_word ∷ ts) n (or_word ∷ ts) (λ f le. refl)

  pub and_stops_at_or : Yields (λ f. more_and f n) (suc k) (or_word ∷ ts) n (or_word ∷ ts)
  unfolding more_and
  and_stops_at_or = reads_suc (λ f. more_and f n) k (or_word ∷ ts) n (or_word ∷ ts) (λ f le. refl)

pub weaken :
    (p : ℕ → Tokens → Parsed) (k l : ℕ) (ts : Tokens) (n : Node) (rest : Tokens)
    → Yields p k ts n rest
    → k ≤ l
    → Yields p l ts n rest
weaken p k l ts n rest h le f lf = h f (omega arith)

pub closes :
    (k : ℕ) (ts : Tokens) (n : Node) (rest : Tokens)
    → IsClosed rest
    → Yields parse_not (suc k) ts n rest
    → Yields parse_or (suc (suc (suc k))) ts n rest
closes k ts n rest c h =
    or_reads (suc (suc k)) ts n rest (and_reads (suc k) ts n rest h (and_stops k n rest c))
      (or_stops (suc k) n rest c)

pub atom_reads :
    (t : Token) (n : Node) (rest : Tokens)
    → IsTerm (t ∷ rest)
    → Yields parse_term 1 (t ∷ rest) n rest
    → IsClosed rest
    → Yields parse_or 13 (t ∷ rest) n rest
atom_reads t n rest it r c = closes 10 (t ∷ rest) n rest c (
    nots_read 10 (t ∷ rest) n rest it (
      cmp_reads 9 (t ∷ rest) n rest (weaken parse_term 1 9 (t ∷ rest) n rest r (omega arith))
        (cmp_stops 8 n rest c)))
