-- ===== src/Tests.antt =====
-- The theorems at concrete inputs, and runs of the definitions.
mod PageManager
mod Erim
mod Files
mod Segfault
mod Signals
mod Spinlock
mod Maps
mod Mapping
mod Table
mod Print
mod Threads
mod Copies
