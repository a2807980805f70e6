-- ===== src/Memory.antt =====
-- The memory managers of src/kernel/memory.
pub mod Region
pub mod Vmm
pub mod Physical
