-- ===== src/EngineAdapter/Halving.antt =====
-- `regress` takes half of each bet: it moves money where the bets are even.
use crapssim_control.Prelude.{arith, String, List, [], ◌∷◌, ◌≡◌, ◌∙◌, refl, inl, inr, Bool-cases}
use crapssim_control.Prelude.Int.{ℤ, pos, ◌+ℤ◌, ◌<ℤ◌, ltb_ℤ, same, int_laws}
use crapssim_control.Prelude.Dict.{Dict, insert, String_Eq}
use crapssim_control.Verbs.Balance.{total_change, total_change-insert}
use crapssim_control.Verbs.Handlers.{Table, minus}
use crapssim_control.EngineAdapter.Normalize.{amount_of}
use crapssim_control.EngineAdapter.Effects.{selector_target}
use crapssim_control.EngineAdapter.Handlers.{
  Args, handled, raised, value_error, halves, make_effect, regress_bets, half_of, regress_selector,
  verb_regress,
}
use crapssim_control.Verbs.Whole.{IsWhole}
use crapssim_control.EngineAdapter.Rounding.{half_of_le, half_of_exact}
use crapssim_control.EngineAdapter.Takings.{
  Affords, Affords-insert, Affords-Fits, Distinct, NewKeys, NewKeys-empty, insert-NewKeys,
}
use crapssim_control.EngineAdapter.Money.{Moves}

-- The bets of a selector are even.
abbrev pub AllEven : List String → Dict String ℤ → Type 0
AllEven [] bets = Unit
AllEven (k ∷ keys) bets = IsWhole (amount_of k bets) × AllEven keys bets

regress_bets-Moves :
    (s : Table) (sel : List String) (bets : Dict String ℤ) (back : ℤ)
    → Distinct sel
    → AllEven sel s.bets
    → NewKeys sel bets
    → Affords bets s.bets
    → let (taken, refund) = regress_bets s sel (bets, back) in
      Affords taken s.bets
      × (halves (total_change taken) +ℤ refund ≡ halves (total_change bets) +ℤ back)
unfolding regress_bets
regress_bets-Moves s [] bets back d even n a = (a, refl)
regress_bets-Moves s (k ∷ sel) bets back (one, d) (even, evens) (new, n) a =
    let cur = amount_of k s.bets in
    elim (Bool-cases (ltb_ℤ (pos 0) cur)) [
      | inl e ↦
          let up : pos 0 <ℤ cur = ground (arith, e) in
          let more = minus (half_of cur) in
          let (affords, total) =
            regress_bets-Moves s sel (insert k more bets) (back +ℤ cur) d evens
              (insert-NewKeys k more sel bets one n)
              (Affords-insert k more bets s.bets (half_of_le cur up) a) in
          rw (e, regress_bets)
            (
              affords,
              total
                  ∙ rw (total_change-insert k more bets new)
                      (omega (int_laws, same _ _ (half_of_exact cur up even))),
            )
      | inr e ↦ rw (e, regress_bets) (regress_bets-Moves s sel bets back d evens n a)
    ]

regressed :
    (s : Table) (sel : List String)
    → Distinct sel
    → AllEven sel s.bets
    → let (bets, back) = regress_bets s sel ([], pos 0) in
      Moves s.bets (handled (make_effect "regress" (selector_target sel) bets back))
unfolding total_change ◌+ℤ◌
regressed s sel d even =
    let (affords, total) = regress_bets-Moves s sel [] (pos 0) d even (NewKeys-empty sel) tt in
    (Affords-Fits _ s.bets affords, total)

regressed_all :
    (s : Table) (sel : List String)
    → Distinct sel
    → AllEven sel s.bets
    → Moves s.bets (elim sel [
      | [] ↦ raised (value_error "regress_invalid_args")
      | b ∷ rest ↦
          let (bets, back) = regress_bets s (b ∷ rest) ([], pos 0) in
          handled (make_effect "regress" (selector_target (b ∷ rest)) bets back)
    ])
regressed_all s [] d even = tt
regressed_all s (b ∷ rest) d even = regressed s (b ∷ rest) d even

pub verb_regress-Moves :
    (s : Table) (args : Args)
    → Distinct (regress_selector args)
    → AllEven (regress_selector args) s.bets
    → Moves s.bets (verb_regress s args)
unfolding verb_regress
verb_regress-Moves s args d even = regressed_all s (regress_selector args) d even
