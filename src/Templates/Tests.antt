-- ===== src/Templates/Tests.antt =====
-- The plan on three bets.
use crapssim_control.Prelude.{none, some, [], ◌∷◌, ◌≡◌, refl}
use crapssim_control.Prelude.Int.{pos}
use crapssim_control.Prelude.Dict.{Dict, lookup, String_Eq}
use crapssim_control.Prelude.{String}
use crapssim_control.Prelude.Int.{ℤ}
use crapssim_control.Templates.Diff.{Desired, Provenance, diff_bets, unsortable, clears_of, choose}
use crapssim_control.Templates.Settled.{Settles, diff_bets-Settles}

-- The place bet on the 6 changes, the field comes down, and the line bet stays.
abbrev current : Dict String ℤ
current = ("place_6", pos 12) ∷ ("field", pos 5) ∷ ("pass_line", pos 10) ∷ []

abbrev desired : Dict String Desired
desired =
    ("place_6", record { amount = pos 18; working_on_comeout = none })
    ∷ ("pass_line", record { amount = pos 10; working_on_comeout = none })
    ∷ []

abbrev by_template : Provenance
by_template = record { source = some "template"; source_id = none; notes = "" }

diff_bets-Settles_example :
    Settles current desired by_template (diff_bets by_template current desired)
unfolding lookup
diff_bets-Settles_example =
    diff_bets-Settles current desired (refl, (refl, (refl, tt))) (refl, (refl, tt)) by_template

-- An unnamed bet beside another has no plan of envelopes.
unnamed_raises : diff_bets by_template (("", pos 5) ∷ ("field", pos 5) ∷ []) [] ≡ none
unfolding diff_bets unsortable clears_of choose lookup
unnamed_raises = refl
