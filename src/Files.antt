-- ===== src/Files.antt =====
-- The file descriptors of the application (src/include/virtualize_files.h,
-- src/syscall_handlers/virtualize_files.cpp).
pub mod Bitmap
pub mod Handlers
