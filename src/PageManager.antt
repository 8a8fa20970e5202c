-- ===== src/PageManager.antt =====
-- `class virt_page_manager` (src/syscall_monitor/virt_page_manager.cpp). The public methods take
-- the
-- lock and call the `_locked` function; the children model the latter, which run one at a time.
pub mod State
pub mod Lookup
pub mod Splice
pub mod Remove
pub mod MapFixed
pub mod Add
pub mod Mprotect
pub mod Resize
