-- ===== src/Verbs.antt =====
-- crapssim_control/verbs.py: the stub verbs, which change the bets and the bankroll without an engine.
pub mod Args
pub mod Handlers
pub mod Whole
pub mod Balance
mod Tests
