-- ===== src/Tests.antt =====
-- Runs on concrete inputs: the properties' witnesses, and tests.
mod Instructions
mod Loader
pub mod MockedHost
mod Helpers
mod Hex
pub mod ExampleVm
mod Words
mod Examples
mod Owners
mod Bytes
