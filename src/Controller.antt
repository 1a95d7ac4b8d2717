-- ===== src/Controller.antt =====
-- crapssim_control/controller.py: how the controller brings the actions of an event together.
mod Merge
mod Names
mod Marked
mod Order
mod Merged
mod Tests
