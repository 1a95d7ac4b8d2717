-- ===== src/Plugins.antt =====
-- crapssim_control/plugins/registry.py: the registry of the capabilities of plugins.
mod Registry
mod First
mod Tests
