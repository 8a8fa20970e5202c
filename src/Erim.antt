-- ===== src/Erim.antt =====
-- The scanner for instructions that undo the isolation (src/syscall_monitor/erim.cpp,
-- src/include/erim.h).
pub mod Pattern
pub mod Scan
pub mod Pages
pub mod Region
