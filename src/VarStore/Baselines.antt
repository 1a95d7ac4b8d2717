-- ===== src/VarStore/Baselines.antt =====
-- The profits over a session, from its bankrolls.
use crapssim_control.Prelude.{◌≡◌, some, List, [], ◌∷◌, default_to, if◌then◌else◌, arith}
use crapssim_control.Prelude.Int.{ℤ, ◌-ℤ◌}
use crapssim_control.VarStore.{Snapshot, VarStore, new_store, refresh_system, refresh_all}

-- A snapshot, the bankroll of which is known.
abbrev pub seen : Snapshot → ℤ → Snapshot
seen s bankroll = record s { bankroll = some bankroll }

abbrev pub snapshots : List (Snapshot × ℤ) → List Snapshot
snapshots [] = []
snapshots ((s, b) ∷ ss) = seen s b ∷ snapshots ss

-- The bankroll of the last snapshot
abbrev pub last_of : ℤ → List (Snapshot × ℤ) → ℤ
last_of b [] = b
last_of b ((s, c) ∷ ss) = last_of c ss

-- The bankroll of the last snapshot with a new shooter
abbrev pub shooter_start : ℤ → List (Snapshot × ℤ) → ℤ
shooter_start b [] = b
shooter_start b ((s, c) ∷ ss) = shooter_start (if s.is_new_shooter then c else b) ss

-- The profits, where the session has started with `base` and the shooter with `shooter`, at the bankroll `now`
abbrev pub HasPnl : ℤ → ℤ → ℤ → VarStore → Type 0
HasPnl base shooter now v =
    (v.session_start_bankroll ≡ some base)
    × (v.shooter_start_bankroll ≡ some shooter)
    × (v.pnl_session ≡ some (now -ℤ base))
    × (v.pnl_shooter ≡ some (now -ℤ shooter))

refresh-HasPnl :
    (base shooter now : ℤ) (s : Snapshot) (b : ℤ) (v : VarStore)
    → HasPnl base shooter now v
    → HasPnl base (if s.is_new_shooter then b else shooter) b (refresh_system (seen s b) v)
unfolding refresh_system
refresh-HasPnl base shooter now s b v h = ground arith

refresh_all-HasPnl :
    (base shooter now : ℤ) (ss : List (Snapshot × ℤ)) (v : VarStore)
    → HasPnl base shooter now v
    → HasPnl base (shooter_start shooter ss) (last_of now ss) (refresh_all (snapshots ss) v)
unfolding refresh_all
refresh_all-HasPnl base shooter now [] v h = h
refresh_all-HasPnl base shooter now ((s, b) ∷ ss) v h =
    refresh_all-HasPnl base (if s.is_new_shooter then b else shooter) b ss
      (refresh_system (seen s b) v) (refresh-HasPnl base shooter now s b v h)

first_refresh :
    (s : Snapshot) (b : ℤ)
    → HasPnl (default_to b s.starting) b b (refresh_system (seen s b) new_store)
unfolding refresh_system
first_refresh s b = ground arith

-- After a session of snapshots with known bankrolls, the session's profit is the last bankroll less the starting one
-- that the first snapshot tells, or else less its bankroll, and the shooter's profit is the last bankroll less that
-- of the last snapshot with a new shooter, or else of the first snapshot.
pub refresh_all_exact :
    (s : Snapshot) (b : ℤ) (ss : List (Snapshot × ℤ))
    → HasPnl
        (default_to b s.starting)
        (shooter_start b ss)
        (last_of b ss)
        (refresh_all (snapshots ((s, b) ∷ ss)) new_store)
unfolding refresh_all
refresh_all_exact s b ss =
    refresh_all-HasPnl (default_to b s.starting) b b ss (refresh_system (seen s b) new_store)
      (first_refresh s b)
