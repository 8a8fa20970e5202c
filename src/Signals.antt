-- ===== src/Signals.antt =====
-- The signal handlers of the application.
pub mod Kernel
pub mod Actions
pub mod Defaults
