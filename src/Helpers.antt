-- ===== src/Helpers.antt =====
-- include/evmc/helpers.h
pub mod Vm
pub mod Result
pub mod Names
