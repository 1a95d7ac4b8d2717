-- ===== src/EngineAdapter/Money.antt =====
-- Handlers move money between the bankroll and the bets, where their args are sound.
use crapssim_control.Prelude.{
  arith, String, Bool, true, false, ◌&&◌, ◌||◌, none, some, List, [], ◌∷◌, ◌≡◌, ◌∙◌, refl, inl, inr,
  ◌⊎◌, if◌then◌else◌, Bool-cases, str_eq, default_to, is_some,
}
use crapssim_control.Prelude.Int.{
  ℤ, pos, ◌+ℤ◌, ◌≤ℤ◌, ◌<ℤ◌, ltb_ℤ, leb_ℤ, same, int_laws, order_laws,
}
use crapssim_control.Prelude.Dict.{Dict, insert, String_Eq}
use crapssim_control.Verbs.Balance.{total_change, total_change-insert}
use crapssim_control.Verbs.Handlers.{Table, minus}
use crapssim_control.EngineAdapter.Names.{box_key}
use crapssim_control.EngineAdapter.Normalize.{amount_of}
use crapssim_control.EngineAdapter.Effects.{Target, bet_target, moved_by}
use crapssim_control.EngineAdapter.Handlers.{
  Args, PolicyArgs, Handled, handled, raised, Error, halves, make_effect, amount_value, verb_press,
  box_bet, take_down_bets, verb_take_down, verb_move_bet, pol_martingale_v1,
}
use crapssim_control.EngineAdapter.Handlers.{half_of, whole, next_level}
use crapssim_control.Verbs.Whole.{IsWhole, whole_exact, whole_up}
use crapssim_control.EngineAdapter.Rounding.{half_of_up, half_of_exact, times-IsWhole}
use crapssim_control.EngineAdapter.Amounts.{
  NonNegative, insert-NonNegative, amount-NonNegative, Fits,
}
use crapssim_control.EngineAdapter.Takings.{
  Affords, Affords-insert, Affords-Fits, Distinct, NewKeys, NewKeys-empty, insert-NewKeys,
}

-- An effect whose changes fit the bets, and that takes from the bankroll what it gives to the bets.
abbrev pub Moves : Dict String ℤ → Handled → Type 0
Moves bets (raised e) = Unit
Moves bets (handled e) =
    Fits e.bets bets × (halves (total_change e.bets) +ℤ e.bankroll_delta ≡ pos 0)

put :
    (bets : Dict String ℤ) (verb : String) (aim : Target) (key : String) (n v : ℤ)
    → NonNegative bets
    → pos 0 ≤ℤ n
    → halves n ≡ v
    → Moves bets (handled (make_effect verb aim ((key, n) ∷ []) (minus v)))
unfolding total_change
put bets verb aim key n v h p w =
    ((omega (int_laws, p, amount-NonNegative key bets h), tt), omega (int_laws, same _ _ w))

-- The amount that is read is whole.
abbrev pub ReadsWhole : Error ⊎ ℤ → Type 0
ReadsWhole (inl e) = Unit
ReadsWhole (inr v) = IsWhole v

-- A bet that is put up, with the text of its amount by `int` or `:.0f`
module _ (text : ℤ → ℤ) (up : (v : ℤ) → pos 0 <ℤ v → pos 0 ≤ℤ text v)
    (exact : (v : ℤ) → pos 0 <ℤ v → IsWhole v → halves (text v) ≡ v) where
  put_guarded :
      (bets : Dict String ℤ) (b : Bool) (error : Error) (verb : String) (aim : Target)
      (key : String) (v : ℤ)
      → NonNegative bets
      → IsWhole v
      → Moves bets (
          if b || leb_ℤ v (pos 0)
          then raised error
          else handled (make_effect verb aim ((key, text v) ∷ []) (minus v)))
  put_guarded bets true error verb aim key v h w = tt
  put_guarded bets false error verb aim key v h w = elim (Bool-cases (leb_ℤ v (pos 0))) [
    | inl e ↦ rw e tt
    | inr e ↦
        let more : pos 0 <ℤ v = ground (arith, e) in
        rw e (put bets verb aim key (text v) v h (up v more) (exact v more w))
  ]

  put_read :
      (r : Error ⊎ ℤ) (bets : Dict String ℤ) (b : Bool) (error : Error) (verb : String)
      (aim : Target) (key : String)
      → NonNegative bets
      → ReadsWhole r
      → Moves bets (elim r [
        | inl e ↦ raised e
        | inr v ↦
            if b || leb_ℤ v (pos 0)
            then raised error
            else handled (make_effect verb aim ((key, text v) ∷ []) (minus v))
      ])
  put_read (inl e) bets b error verb aim key h w = tt
  put_read (inr v) bets b error verb aim key h w = put_guarded bets b error verb aim key v h w

pub verb_press-Moves :
    (s : Table) (args : Args)
    → NonNegative s.bets
    → ReadsWhole (amount_value args.plain_args.amount)
    → Moves s.bets (verb_press s args)
unfolding verb_press
verb_press-Moves s args h w =
    put_read half_of half_of_up half_of_exact (amount_value args.plain_args.amount) s.bets _ _ _ _ _
      h w

pub box_bet-Moves :
    (s : Table) (verb error : String) (args : Args)
    → NonNegative s.bets
    → ReadsWhole (amount_value args.plain_args.amount)
    → Moves s.bets (box_bet verb error args)
unfolding box_bet
box_bet-Moves s verb error args h w =
    put_read whole whole_up (λ v _. whole_exact v) (amount_value args.plain_args.amount) s.bets _ _
      _ _ _ h w

-- What is taken down so far is there, and comes back.
take_down_bets-Moves :
    (s : Table) (sel : List String) (bets : Dict String ℤ) (refund : ℤ)
    → NonNegative s.bets
    → Distinct sel
    → NewKeys sel bets
    → Affords bets s.bets
    → let (taken, back) = take_down_bets s sel (bets, refund) in
      Affords taken s.bets × (total_change taken +ℤ back ≡ total_change bets +ℤ refund)
unfolding take_down_bets
take_down_bets-Moves s [] bets refund h d n a = (a, refl)
take_down_bets-Moves s (k ∷ sel) bets refund h (one, d) (new, n) a =
    let cur = amount_of k s.bets in
    elim (Bool-cases (ltb_ℤ (pos 0) cur)) [
      | inl e ↦
          let (affords, total) =
            take_down_bets-Moves s sel (insert k (minus cur) bets) (refund +ℤ cur) h d
              (insert-NewKeys k (minus cur) sel bets one n)
              (Affords-insert k (minus cur) bets s.bets (omega int_laws) a) in
          rw (e, take_down_bets)
            (affords, total ∙ rw (total_change-insert k (minus cur) bets new) (omega int_laws))
      | inr e ↦ rw (e, take_down_bets) (take_down_bets-Moves s sel bets refund h d n a)
    ]

doubled_zero : (t refund : ℤ) → t +ℤ refund ≡ pos 0 → halves t +ℤ halves refund ≡ pos 0
doubled_zero t refund h = omega (int_laws, same _ _ h)

pub verb_take_down-Moves :
    (s : Table) (args : Args)
    → NonNegative s.bets
    → Distinct (default_to [] args.selector)
    → Moves s.bets (verb_take_down s args)
unfolding verb_take_down total_change ◌+ℤ◌
verb_take_down-Moves s args h d =
    let sel = default_to [] args.selector in
    let (affords, total) = take_down_bets-Moves s sel [] (pos 0) h d (NewKeys-empty sel) tt in
    (Affords-Fits _ s.bets affords, doubled_zero _ _ total)

move-Fits :
    (src dst : String) (bets : Dict String ℤ)
    → NonNegative bets
    → pos 0 ≤ℤ amount_of src bets
    → Fits ((src, minus (amount_of src bets)) ∷ (dst, amount_of src bets) ∷ []) bets
move-Fits src dst bets h p =
    let rest = insert src (moved_by (minus (amount_of src bets)) (amount_of src bets)) bets in
    let kept : NonNegative rest = insert-NonNegative src _ bets (omega order_laws) h in
    (omega int_laws, (omega (int_laws, p, amount-NonNegative dst rest kept), tt))

pub verb_move_bet-Moves :
    (s : Table) (args : Args)
    → NonNegative s.bets
    → str_eq (default_to "" args.move_from) (default_to "" args.move_to) ≡ false
    → Moves s.bets (verb_move_bet s args)
unfolding verb_move_bet insert total_change
verb_move_bet-Moves s args h apart =
    let src = default_to "" args.move_from in
    let dst = default_to "" args.move_to in
    let cur = amount_of src s.bets in
    elim (Bool-cases (is_some (box_key src) && is_some (box_key dst) && ltb_ℤ (pos 0) cur)) [
      | inl e ↦ rw (e, apart) (move-Fits src dst s.bets h (ground (arith, e)), omega int_laws)
      | inr e ↦ rw e tt
    ]

martingale_bets :
    (bets : Dict String ℤ) (b c : Bool) (error : Error) (key : String) (n level : ℤ)
    → NonNegative bets
    → ltb_ℤ (pos 0) n ≡ c
    → (b ≡ false → IsWhole n)
    → Moves bets (
        if b
        then raised error
        else handled record {
          schema = "";
          verb = "";
          target = bet_target (some key);
          bets = if c then (key, half_of n) ∷ [] else [];
          bankroll_delta = if c then minus n else pos 0;
          policy = none;
          level_update = some (key, level);
        })
unfolding total_change
martingale_bets bets true c error key n level h p w = tt
martingale_bets bets false true error key n level h p w =
    let more : pos 0 <ℤ n = ground (arith, p) in
    put bets "" (bet_target (some key)) key (half_of n) n h (half_of_up n more)
      (half_of_exact n more (w refl))
martingale_bets bets false false error key n level h p w = (tt, omega int_laws)

climbed : (level : ℤ) → pos 0 ≤ℤ (if ltb_ℤ (pos 0) level then level else pos 0)
climbed level = ground arith

pub pol_martingale_v1-Moves :
    (levels bets : Dict String ℤ) (args : PolicyArgs)
    → NonNegative bets
    → IsWhole (default_to (pos 0) args.delta)
    → Moves bets (pol_martingale_v1 levels args)
unfolding pol_martingale_v1
pol_martingale_v1-Moves levels bets args h w =
    let level =
      next_level levels (default_to "" args.step_key) (default_to (pos 1) args.max_level) in
    martingale_bets bets _ _ _ _ _ level h refl
      (λ e. times-IsWhole (default_to (pos 0) args.delta) _ w (ground (arith, e)) (climbed level))
