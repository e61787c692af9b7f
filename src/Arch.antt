-- ===== src/Arch.antt =====
-- crates/kernel/src/arch: the registers that the kernel saves, reads and writes.
pub mod Frame
pub mod Csr
pub mod Asm
