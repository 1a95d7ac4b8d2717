-- ===== src/Verbs/Tests.antt =====
-- The theorems on concrete bets.
use crapssim_control.Prelude.{none, [], ◌∷◌, refl}
use crapssim_control.Prelude.Int.{pos}
use crapssim_control.Prelude.Dict.{lookup}
use crapssim_control.Verbs.Args.{Args, plain, number, missing}
use crapssim_control.Verbs.Handlers.{Table, remove_come, handle}
use crapssim_control.Verbs.Balance.{Balances, handle-Balances}

abbrev table : Table
table = record {
  bets = ("pass", pos 20) ∷ [];
  odds = [];
  come_odds = ("6", pos 40) ∷ [];
  dc_odds = [];
  come_flat = ("6", pos 20) ∷ ("8", pos 30) ∷ [];
  dc_flat = [];
}

abbrev hardway_five : Args
hardway_five = record {
  amount = plain (number (pos 5));
  point = missing;
  number = number (pos 5);
  side = none;
  on = none;
}

handle-Balances_example : Balances (handle remove_come table hardway_five)
unfolding lookup
handle-Balances_example = handle-Balances remove_come table hardway_five (
  refl,
  (refl, (refl, (refl, (refl, (refl, (refl, (refl, (refl, (refl, (refl, (refl, tt))))))))))),
)
