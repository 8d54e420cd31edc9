-- ===== src/Loader.antt =====
-- lib/loader/loader.c and include/evmc/loader.h
pub mod Types
pub mod Copy
pub mod SymbolName
pub mod Message
pub mod Instances
pub mod Load
pub mod Create
pub mod Configure
