-- ===== src/BetLedger/Names.antt =====
-- The category of a bet and the key of its stack.
use crapssim_control.Prelude.{
  ℕ, arith, ◌<◌, Bool-cases, inl, inr, zero, suc, ◌+◌, ◌/◌, ◌%◌, String, Bool, false, ◌||◌, Option,
  none, some, List, [], ◌∷◌, if◌then◌else◌, ltb, str_eq, is_some, ◌≡◌, refl,
}
use Prim.Native.String.{◌++◌ as str_append, slice}
use text.Mathlib.Text.{starts_with, find?}
use crapssim_control.Prelude.Text.{lower}
use crapssim_control.BetLedger.State.{Meta}

-- `s or t` on texts
abbrev pub text_or : String → String → String
text_or s t = if str_eq s "" then t else s

-- `a or b` on numbers that may be `None`
abbrev pub number_or : Option ℕ → Option ℕ → Option ℕ
number_or none b = b
number_or (some zero) b = b
number_or (some (suc n)) b = some (suc n)

-- `x in xs` on a set of texts
abbrev one_of : String → List String → Bool
one_of x [] = false
one_of x (y ∷ ys) = str_eq x y || one_of x ys

-- `t in s`
abbrev has : String → String → Bool
has s t = is_some (find? s t)

unfoldable pub infer_category : String → String
infer_category bet =
    let b = lower bet in
    if one_of b ("pass" ∷ "pass line" ∷ "pass_line" ∷ "dont pass" ∷ "don't pass" ∷ "dp" ∷ [])
    then "line"
    else if one_of b ("come" ∷ "dont come" ∷ "don't come" ∷ "dc" ∷ [])
    then "come"
    else if starts_with b "place" || one_of b ("4" ∷ "5" ∷ "6" ∷ "8" ∷ "9" ∷ "10" ∷ [])
    then "place"
    else if has b "odds"
    then "odds"
    else if has b "field"
    then "field"
    else if has b "hard"
    then "hardways"
    else if has b "lay"
    then "lay"
    else "other"

-- `str(n)`: the digits of a number. More fuel than the number is enough.
digit : ℕ → String
digit n = slice "0123456789" n (n + 1)

digits : ℕ → ℕ → String
unfolding digit
digits zero n = ""
digits (suc fuel) n =
    let rest = digits fuel (n / 10) in
    if ltb n 10 then digit n else str_append rest (digit (n % 10))

-- Fuel above the number changes nothing.
digits-suc : (fuel n : ℕ) → n < fuel → digits (suc fuel) n ≡ digits fuel n
unfolding digits
digits-suc zero n h = ground arith
digits-suc (suc fuel) n h = elim (Bool-cases (ltb n 10)) [
  | inl e ↦ rw e refl
  | inr e ↦ rw (e, digits-suc fuel (n / 10) (ground (arith, e))) refl
]

pub decimal : ℕ → String
unfolding digits
decimal n = digits (suc n) n

-- `meta.get("number") or meta.get("point") or meta.get("box")`
unfoldable pub number_of : Meta → Option ℕ
number_of meta = number_or meta.number (number_or meta.point meta.box)

-- `_lifo_key`
unfoldable pub lifo_key : String → Meta → String
unfolding number_of decimal
lifo_key bet meta = elim (number_of meta) [
  | none ↦ lower bet
  | some n ↦ str_append (lower bet) (str_append "|" (decimal n))
]

decimal_test : decimal 1206 ≡ "1206"
unfolding decimal
decimal_test = refl

infer_category_test : infer_category "Hardway 8" ≡ "hardways"
unfolding infer_category lower
infer_category_test = refl
