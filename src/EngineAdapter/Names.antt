-- ===== src/EngineAdapter/Names.antt =====
-- `_is_box_number`, and the key that `_normalize_snapshot` gives a bet.
use Prim.Native.Char.{Char, code}
use text.Mathlib.Text.{find?}
use crapssim_control.Prelude.{
  ℕ, ◌+◌, ◌-◌, ◌*◌, String, Bool, false, ◌&&◌, ◌||◌, not, Option, none, some, List, [], ◌∷◌,
  if◌then◌else◌, leb, ◌==◌, is_some, ◌≡◌, refl,
}
use crapssim_control.Prelude.Text.{lower, strip}

-- `_BOX_NUMBERS`, as the texts that the keys have.
abbrev pub box_numbers : List String
box_numbers = "4" ∷ "5" ∷ "6" ∷ "8" ∷ "9" ∷ "10" ∷ []

-- `str(n)` of a box number
abbrev pub box_text : ℕ → String
box_text n =
    if n == 4
    then "4"
    else if n == 5
    then "5"
    else if n == 6
    then "6"
    else if n == 8
    then "8"
    else if n == 9
    then "9"
    else "10"

unfoldable pub is_box : ℕ → Bool
is_box n = n == 4 || n == 5 || n == 6 || n == 8 || n == 9 || n == 10

abbrev box_only : ℕ → Option ℕ
box_only n = if is_box n then some n else none

abbrev is_digit : Char → Bool
is_digit c = leb 48 (code c) && leb (code c) 57

-- `int(text)` from the second character on: digits, with one underscore between them.
read_digits : ℕ → Bool → String → Option ℕ
read_digits n after_digit String.[] = if after_digit then some n else none
read_digits n after_digit (String.◌∷◌ c s) =
    let rest = read_digits (if is_digit c then 10 * n + (code c - 48) else n) (is_digit c) s in
    if is_digit c || (code c == 95 && after_digit) then rest else none

drop_plus : String → String
drop_plus String.[] = ""
drop_plus (String.◌∷◌ c s) = if code c == 43 then s else String.◌∷◌ c s

-- `int(text)`, where it is a box number.
unfoldable pub box_number : String → Option ℕ
unfolding read_digits drop_plus is_box
box_number s = elim (read_digits 0 false (drop_plus (strip s))) [
  | none ↦ none
  | some n ↦ box_only n
]

-- `str(int(text))`, where it is a box number.
unfoldable pub box_key : String → Option String
box_key s = elim (box_number s) [ none ↦ none | some n ↦ some (box_text n) ]

-- The box number of a run of digits that has ended, if there is a run.
abbrev run_box : Option ℕ → Option ℕ
run_box none = none
run_box (some n) = box_only n

abbrev run_with : Option ℕ → Char → Option ℕ
run_with none c = some (code c - 48)
run_with (some n) c = some (10 * n + (code c - 48))

-- The first run of digits (`re.findall(r"\d+", lower)`) that is a box number
first_box : Option ℕ → String → Option ℕ
unfolding is_box
first_box run String.[] = run_box run
first_box run (String.◌∷◌ c s) =
    let rest = first_box (if is_digit c then run_with run c else none) s in
    if is_digit c then rest else elim (run_box run) [ none ↦ rest | some n ↦ some n ]

unfoldable pub digits_box : String → Option String
unfolding first_box
digits_box s = elim (first_box none s) [ none ↦ none | some n ↦ some (box_text n) ]

-- `t in s`
abbrev pub has : String → String → Bool
has s t = is_some (find? s t)

-- The key in the normalized bets.
unfoldable pub bet_key : String → String
bet_key name =
    let low = lower name in
    elim (box_key name) [
      | some key ↦ key
      | none ↦ elim (digits_box low) [
        | some key ↦ key
        | none ↦
            if has low "pass"
            then "pass"
            else if has low "dont" && has low "come" && not (has low "line")
            then "dc"
            else low
      ]
    ]

box_key_test : box_key " +0_6" ≡ some "6"
unfolding box_key box_number strip
box_key_test = refl

bet_key_test : bet_key "Hardway_10" ≡ "10"
unfolding bet_key box_key digits_box box_number strip lower
bet_key_test = refl

bet_key_test_2 : bet_key "dont_come" ≡ "dc"
unfolding bet_key box_key digits_box box_number strip lower
bet_key_test_2 = refl
