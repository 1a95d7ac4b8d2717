-- ===== src/Orchestration.antt =====
-- crapssim_control/orchestration/control_surface.py and event_bus.py: the life of a run, and the bus.
mod ControlSurface
mod Ending
mod Log
mod Finished
mod EventBus
mod Delivery
mod Tests
