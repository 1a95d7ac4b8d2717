-- ===== src/Behavior.antt =====
-- crapssim_control/behavior/evaluator.py: the choice of a rule in a window, and its cooldowns.
mod Evaluator
mod Cooldown
mod Tests
