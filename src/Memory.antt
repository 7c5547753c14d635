-- ===== src/Memory.antt =====
-- libs/memory: RAM, the regions of the guest's physical addresses, and the translation of virtual ones.
pub mod Region
pub mod AddressSpace
pub mod Virtual
