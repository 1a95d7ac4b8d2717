-- ===== src/EngineAdapter.antt =====
-- crapssim_control/engine_adapter.py: VanillaAdapter without a live engine, the stub that keeps the bets and
-- the bankroll itself. Bets are whole numbers, as the changes of bets are; the amounts of the
-- args, the bankroll and its changes are in halves of a unit, and so are the limits of the risk policy.
mod Names
mod State
mod Normalize
mod Roll
mod Effects
mod Handlers
mod Registry
mod Actions
mod Amounts
mod Conserved
mod Session
mod Takings
mod Rounding
mod Money
mod Halving
mod Sound
mod Worth
mod Induction
mod Fresh
mod Keeping
mod Applied
mod Outcomes
mod Judged
mod Funds
mod Martingale
mod Tests
