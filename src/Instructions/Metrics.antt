-- ===== src/Instructions/Metrics.antt =====
-- The tables of instruction metrics, one for each change of the instruction set or its costs.
pub mod Osaka
pub mod Prague
pub mod Cancun
pub mod Shanghai
pub mod London
pub mod Berlin
pub mod Istanbul
pub mod Constantinople
pub mod Byzantium
pub mod TangerineWhistle
pub mod Homestead
pub mod Frontier
unfoldable pub use Osaka.{osaka_metrics}
unfoldable pub use Prague.{prague_metrics}
unfoldable pub use Cancun.{cancun_metrics}
unfoldable pub use Shanghai.{shanghai_metrics}
unfoldable pub use London.{london_metrics}
unfoldable pub use Berlin.{berlin_metrics}
unfoldable pub use Istanbul.{istanbul_metrics}
unfoldable pub use Constantinople.{constantinople_metrics}
unfoldable pub use Byzantium.{byzantium_metrics}
unfoldable pub use TangerineWhistle.{tangerine_whistle_metrics}
unfoldable pub use Homestead.{homestead_metrics}
unfoldable pub use Frontier.{frontier_metrics}
