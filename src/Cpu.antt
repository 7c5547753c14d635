-- ===== src/Cpu.antt =====
-- libs/cpu: the processor of the guest, from its registers and flags to its run loop.
pub mod Registers
pub mod Flags
pub mod Instruction
pub mod Decoder
pub mod Executor
pub mod Processor
