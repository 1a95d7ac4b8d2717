-- ===== src/Prelude/Dict.antt =====
-- A Python dict as an association list in insertion order, over any key type with an equality
-- test.
use Prim.Native.Nat.{ℕ, ◌+◌}
use Prim.Native.String.{String}
use mathlib.Core.Path.{◌≡◌, refl}
use mathlib.Core.Logic.{◌↔◌}
use mathlib.Core.Bool.{Bool, true}
use mathlib.Core.Option.{Option, none, some}
use mathlib.Core.List.{List, [], ◌∷◌}
use native.Mathlib.Omega.{arith}
use text.Mathlib.Text.{◌==◌ as str_eq}
use text.Mathlib.TextEquality.{eq_iff}
use crapssim_control.Prelude.Tests.{◌==◌ as nat_eq, if◌then◌else◌, default_to}

pub record Eq {ℓ} (A : Type ℓ) : Type ℓ where
  pub beq : A → A → Bool
  pub beq_iff : (a b : A) → (beq a b ≡ true) ↔ (a ≡ b)

pub nat_eq_iff : (a b : ℕ) → (nat_eq a b ≡ true) ↔ (a ≡ b)
nat_eq_iff a b = ground arith

instance abbrev pub ℕ_Eq : Eq ℕ
ℕ_Eq = record { beq = nat_eq; beq_iff = nat_eq_iff }

instance abbrev pub String_Eq : Eq String
String_Eq = record { beq = str_eq; beq_iff = eq_iff }

abbrev pub Dict {ℓ κ} : Type ℓ → Type κ → Type (ℓ ⊔ κ)
Dict K V = List (K × V)

module _ {ℓ κ} {K : Type ℓ} {V : Type κ} ⦃e : Eq K⦄ where
  unfoldable pub lookup : K → Dict K V → Option V
  lookup k [] = none
  lookup k ((j, v) ∷ d) = if e.beq j k then some v else lookup k d

  -- `d[k] = v`
  unfoldable pub insert : K → V → Dict K V → Dict K V
  insert k v [] = (k, v) ∷ []
  insert k v ((j, w) ∷ d) = if e.beq j k then (j, v) ∷ d else (j, w) ∷ insert k v d

  pub lookup-insert :
      (k j : K) (v : V) (d : Dict K V)
      → lookup j (insert k v d) ≡ (if e.beq k j then some v else lookup j d)
  unfolding lookup insert
  lookup-insert k j v [] = refl
  lookup-insert k j v ((i, w) ∷ d) =
      ground (arith, e.beq_iff k j, e.beq_iff i k, e.beq_iff i j, lookup-insert k j v d)

  pub lookup-insert_self : (k : K) (v : V) (d : Dict K V) → lookup k (insert k v d) ≡ some v
  lookup-insert_self k v d = rw lookup-insert (ground (arith, e.beq_iff k k))

-- `d[k]` and `d[k] += 1` on a `defaultdict(int)`, and the sum of its values.
module _ {ℓ} {K : Type ℓ} ⦃e : Eq K⦄ where
  unfoldable pub count : K → Dict K ℕ → ℕ
  count k d = default_to 0 (lookup k d)

  unfoldable pub increment : K → Dict K ℕ → Dict K ℕ
  increment k d = insert k (count k d + 1) d

  pub count-increment :
      (k j : K) (d : Dict K ℕ)
      → count j (increment k d) ≡ (if e.beq k j then count j d + 1 else count j d)
  unfolding count increment
  count-increment k j d = rw lookup-insert (ground (arith, e.beq_iff k j))

abbrev pub total {ℓ} : {K : Type ℓ} → Dict K ℕ → ℕ
total [] = 0
total ((k, n) ∷ d) = n + total d

module _ {ℓ} {K : Type ℓ} ⦃e : Eq K⦄ where
  -- Setting a key changes the sum by the difference of its values.
  total-insert : (k : K) (n : ℕ) (d : Dict K ℕ) → total (insert k n d) + count k d ≡ total d + n
  unfolding count lookup insert
  total-insert k n [] = omega arith
  total-insert k n ((j, m) ∷ d) = ground (arith, total-insert k n d)

  pub total-increment : (k : K) (d : Dict K ℕ) → total (increment k d) ≡ total d + 1
  unfolding increment
  total-increment k d = omega (arith, total-insert k (count k d + 1) d)
