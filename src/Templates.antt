-- ===== src/Templates.antt =====
-- crapssim_control/templates.py and crapssim_control/actions.py: the plan of actions from the bets that are up to
-- the bets that a template desires. Amounts are whole.
pub mod Envelope
mod Diff
mod Lookups
mod Reconcile
mod Settled
mod Tests
