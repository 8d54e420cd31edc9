-- ===== src/Instructions/Names.antt =====
-- The tables of instruction names, one for each change of the instruction set or its names.
pub mod Osaka
pub mod Prague
pub mod Cancun
pub mod Shanghai
pub mod Paris
pub mod London
pub mod Istanbul
pub mod Constantinople
pub mod Byzantium
pub mod Homestead
pub mod Frontier
unfoldable pub use Osaka.{osaka_names}
unfoldable pub use Prague.{prague_names}
unfoldable pub use Cancun.{cancun_names}
unfoldable pub use Shanghai.{shanghai_names}
unfoldable pub use Paris.{paris_names}
unfoldable pub use London.{london_names}
unfoldable pub use Istanbul.{istanbul_names}
unfoldable pub use Constantinople.{constantinople_names}
unfoldable pub use Byzantium.{byzantium_names}
unfoldable pub use Homestead.{homestead_names}
unfoldable pub use Frontier.{frontier_names}
