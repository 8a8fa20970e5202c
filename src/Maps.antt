-- ===== src/Maps.antt =====
-- src/syscall_handlers/virtualize_maps.cpp, and the handlers of the monitors that change mappings.
pub mod Mremap
pub mod World
pub mod Exec
pub mod Mmap
pub mod Protect
pub mod Exclusive
