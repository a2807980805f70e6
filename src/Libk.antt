-- ===== src/Libk.antt =====
-- The kernel's support library, src/kernel/include/libk and src/kernel/libk.
pub mod Math
pub mod Ctype
pub mod Strings
pub mod Copies
pub mod CircularBuffer
