-- ===== src/Instructions.antt =====
-- lib/instructions and include/evmc/instructions.h
pub mod Types
pub mod Metrics
pub mod Names
pub mod Tables
pub mod Lookup
pub mod Totality
pub mod Consistency
pub mod Evolution
pub mod Families
pub mod Opcodes
