-- ===== src/RuleEngine.antt =====
-- crapssim_control/rule_engine.py: the WHEN/THEN rules over the snapshots of a run.
mod Types
mod Evaluate
mod Spec
mod Refines
mod Runs
mod Tests
