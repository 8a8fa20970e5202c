-- ===== src/Segfault.antt =====
-- src/segfault_handler: the hardware breakpoints, the protection switches of unsafe pages, and the
-- lists of threads.
pub mod Pages
pub mod Breakpoints
pub mod Bounds
pub mod Close
pub mod Evict
pub mod Watch
pub mod Guard
pub mod Handler
pub mod InStep
pub mod Fork
pub mod Threads
