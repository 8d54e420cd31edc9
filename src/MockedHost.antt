-- ===== src/MockedHost.antt =====
-- include/evmc/mocked_host.hpp: the host that tests and tools run VMs with
pub mod Map
pub mod Types
pub mod Status
pub mod Storage
pub mod Accounts
pub mod Calls
pub mod Steps
pub mod Interface
