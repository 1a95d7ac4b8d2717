-- ===== src/Prelude/Text.antt =====
-- `str.lower` and `str.strip` on ASCII text. Characters past ASCII are left alone.
use Prim.Native.Nat.{ℕ, ◌+◌, ◌<◌, compare, Ordering}
use Prim.Native.Char.{Char, char, code, IsScalar}
use Prim.Native.String.{String, [], ◌∷◌}
use mathlib.Core.Path.{◌≡◌, refl}
use mathlib.Core.Bool.{Bool, ◌&&◌, ◌||◌}
use mathlib.Core.Logic.{dite}
use native.Mathlib.Omega.{arith}
use native.Mathlib.Decide.{dec_lt}
use crapssim_control.Prelude.Tests.{leb, ◌==◌, if◌then◌else◌}

compare_lt : (a b : ℕ) → a < b → compare a b ≡ Ordering.lt
compare_lt a b h = ground arith

pub scalar : (n : ℕ) → n < 55296 → IsScalar n
scalar n h = rw (compare_lt n 55296 h) tt

lower_char : Char → Char
unfolding dec_lt
lower_char c =
    if leb 65 (code c) && leb (code c) 90
    then dite (dec_lt (code c + 32) 55296) (λ h. char (code c + 32) (scalar _ h)) (λ _. c)
    else c

unfoldable pub lower : String → String
unfolding lower_char
lower [] = []
lower (c ∷ s) = lower_char c ∷ lower s

-- Space, and the control characters that `str.strip` removes.
is_space : Char → Bool
is_space c =
    code c == 32 || (leb 9 (code c) && leb (code c) 13) || (leb 28 (code c) && leb (code c) 31)

lstrip : String → String
unfolding is_space
lstrip [] = []
lstrip (c ∷ s) = let rest = lstrip s in if is_space c then rest else c ∷ s

rstrip : String → String
unfolding is_space
rstrip [] = []
rstrip (c ∷ s) =
    let rest = rstrip s in elim rest [ [] ↦ if is_space c then [] else c ∷ [] | d ∷ t ↦ c ∷ d ∷ t ]

unfoldable pub strip : String → String
unfolding lstrip rstrip
strip s = lstrip (rstrip s)

strip-lower_test : strip (lower " 10X\n") ≡ "10x"
unfolding strip lower
strip-lower_test = refl
