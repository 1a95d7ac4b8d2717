-- ===== src/Controller/Names.antt =====
-- The actions on one bet, and the last of them.
use crapssim_control.Prelude.{
  Bool, true, false, String, Option, none, some, List, [], ◌∷◌, if◌then◌else◌, str_eq,
}
use crapssim_control.Templates.Envelope.{Action}
use crapssim_control.Controller.Merge.{bet_of}

abbrev pub is_for : String → Option String → Bool
is_for k none = false
is_for k (some j) = str_eq j k

abbrev pub all_for : String → List Action → List Action
all_for k [] = []
all_for k (a ∷ actions) =
    let rest = all_for k actions in if is_for k (bet_of a) then a ∷ rest else rest

-- What is not an action on a bet, in its order
abbrev pub is_bet : Option String → Bool
is_bet none = false
is_bet (some bk) = true

abbrev pub others : List Action → List Action
others [] = []
others (a ∷ actions) = let rest = others actions in if is_bet (bet_of a) then rest else a ∷ rest

-- The last element
abbrev pub last_only : List Action → List Action
last_only [] = []
last_only (a ∷ []) = a ∷ []
last_only (a ∷ b ∷ actions) = last_only (b ∷ actions)
